-- ===== src/Eviction/Examples.antt =====
-- Two idle services, of which the one used first gives way.
use large_model_proxy.Base.{
  ◌≡◌, refl, String, true, false, [], ◌∷◌, none, some, lookup, lookup_or, ◌⊎◌, ◌<◌, ℕ,
}
use large_model_proxy.Manager.{RunningService}
use large_model_proxy.Samples.{text_model, image_model, idle}
use large_model_proxy.Eviction.{
  Scene, can_be_stopped, consider, earliest_of, find_earliest_last_used_service,
}
use large_model_proxy.Eviction.Choice.{Names, NoneBefore, find_earliest_last_used_service-Names}

abbrev used_at : ℕ → RunningService
used_at t = record {
  manage_mutex = false;
  cmd = some 1;
  is_waiting_for_resources = false;
  is_ready = true;
  last_used = some t;
  idle_timer = none;
  resources_released = false;
  resources_reserved = true;
  stdout_writer = none;
  stderr_writer = none;
}

abbrev both_idle : Scene
both_idle = record {
  configs = ("text", text_model) ∷ ("image", image_model) ∷ [];
  heap = used_at 7 ∷ used_at 3 ∷ [];
  manager = record idle { running_services = ("text", 0) ∷ ("image", 1) ∷ [] };
}

image_is_older : find_earliest_last_used_service both_idle "video" "VRAM" 9 ≡ some "image"
unfolding find_earliest_last_used_service earliest_of consider can_be_stopped lookup lookup_or
image_is_older = refl

find_earliest_last_used_service-Names_example :
    (◌≡◌ {A = String} "image" ""
      × NoneBefore both_idle "video" "VRAM" 9 both_idle.manager.running_services)
    ⊎ ((t : ℕ) × Names both_idle "video" "VRAM" "image" t both_idle.manager.running_services
        × NoneBefore both_idle "video" "VRAM" t both_idle.manager.running_services
        × (t < 9))
find_earliest_last_used_service-Names_example =
    find_earliest_last_used_service-Names both_idle "video" "VRAM" 9 "image" image_is_older
