-- ===== src/Status/Examples.antt =====
-- A service that waits for resources, and one that is stopped.
use large_model_proxy.Base.{
  pos, ℤ, Option, ◌≡◌, refl, String, true, false, [], ◌∷◌, lookup, lookup_or, sub, none, some, map,
  All,
}
use large_model_proxy.Config.{ResourceAvailable}
use large_model_proxy.Config.Url.{Library}
use large_model_proxy.Manager.{ResourceManager, RunningService}
use large_model_proxy.Status.{
  StatusResponse, ResourceUsage, initial_usage, handle_status, serve_management_api, not_found,
  status_page, method_not_allowed, add_statuses, initial_resources, replies,
}
use large_model_proxy.Status.Laws.{IsTruthful, handle_status-IsTruthful}
use large_model_proxy.Status.Usage.{owner, use_of, handle_status-usage}
use large_model_proxy.Samples.{gpu, idle}

abbrev plain : Library
plain = record {
  Template = String;
  parse = (λ t. some t);
  execute = (λ t port. some port);
  atoi = (λ t. none);
}

abbrev vram : ResourceAvailable
vram = record {
  amount = pos 10;
  check_command = "";
  check_when_not_enough_interval_milliseconds = 0;
}

abbrev waiting : RunningService
waiting = record {
  manage_mutex = true;
  cmd = none;
  is_waiting_for_resources = true;
  is_ready = false;
  last_used = some 3;
  idle_timer = none;
  resources_released = false;
  resources_reserved = false;
  stdout_writer = none;
  stderr_writer = none;
}

abbrev one_waits : ResourceManager
one_waits = record idle { running_services = ("text", 0) ∷ [] }

abbrev answer : StatusResponse
unfolding add_statuses
answer =
    add_statuses plain gpu one_waits (λ p. waiting) gpu.services
      (initial_resources gpu one_waits gpu.resources_available)

answered : handle_status plain gpu one_waits (λ p. waiting) "GET" gpu.services ≡ replies answer
unfolding handle_status
answered = refl

handle_status-IsTruthful_example :
    (map (λ t. t.name) answer.services ≡ map (λ s. s.name) gpu.services)
    × All (IsTruthful plain gpu one_waits (λ p. waiting)) answer.services
handle_status-IsTruthful_example =
    handle_status-IsTruthful plain gpu one_waits (λ p. waiting) gpu.services answer answered

-- The service that waits is listed with all that it requires, though nothing is in use.
handle_status-usage_example :
    (u : ResourceUsage) × (lookup "VRAM" answer.resources ≡ some u)
    × (u.total ≡ some (pos 10))
    × (u.reserved_by_starting_services ≡ lookup_or (pos 0) "VRAM" one_waits.resources_reserved)
    × (u.in_use ≡ lookup_or (pos 0) "VRAM" one_waits.resources_in_use)
    × (u.free ≡ sub (pos 10) (lookup_or (pos 0) "VRAM" one_waits.resources_in_use))
    × (lookup "text" u.usage_by_service
        ≡ use_of "VRAM" (owner "text" gpu.services) (lookup "text" one_waits.running_services))
unfolding lookup
handle_status-usage_example =
    handle_status-usage plain gpu one_waits (λ p. waiting) "text" "VRAM" vram gpu.services answer
      answered refl ((refl, tt), (tt, tt)) ((refl, tt), ((refl, tt), tt))

-- A resource with a CheckCommand and an Amount has a total, and without an Amount it has none.
abbrev measured : ResourceAvailable
measured = record vram { check_command = "free_vram" }

abbrev total_with : ResourceAvailable → Option ℤ
unfolding initial_usage
total_with a =
    (initial_usage (record gpu { resources_available = ("VRAM", a) ∷ [] }) idle "VRAM" a).total

totals_of_measured :
    (total_with measured ≡ some (pos 10)) × (total_with (record measured { amount = pos 0 }) ≡ none)
unfolding total_with lookup_or lookup
totals_of_measured = (refl, refl)

elsewhere : serve_management_api plain gpu idle (λ p. waiting) gpu.services "GET" "/x" ≡ not_found
unfolding serve_management_api
elsewhere = refl

posted :
    serve_management_api plain gpu idle (λ p. waiting) gpu.services "POST" "/status"
    ≡ status_page method_not_allowed
unfolding serve_management_api handle_status
posted = refl
