-- ===== src/Idle/Examples.antt =====
-- One client is proxied to the text model when its idle timer fires, and the image model asks for room.
use large_model_proxy.Base.{
  ℕ, ◌≡◌, ◌≢◌, refl, String, Bool, true, false, [], ◌∷◌, List, Dict, none, some, pos, arith, lookup,
  lookup_or,
}
use large_model_proxy.Config.{ServiceConfig}
use large_model_proxy.Manager.{RunningService}
use large_model_proxy.Eviction.{can_be_stopped, find_earliest_last_used_service}
use large_model_proxy.Samples.{gpu, idle, text_model, image_model}
use large_model_proxy.Connections.{
  Traffic, Action, accepts, connects, counts, run, step, move, accept, proxying,
}
use large_model_proxy.Idle.{ignores, stops, idle_timer_fires, fire_set_timer}
use large_model_proxy.Idle.Kept.{proxied_is_kept}

abbrev quiet : Traffic
quiet = record { manager = idle; heap = []; connections = [] }

abbrev configs : Dict ServiceConfig
configs = ("text", text_model) ∷ ("image", image_model) ∷ []

abbrev one_client : List Action
one_client = accepts text_model false ∷ connects 0 1 ∷ counts 0 ∷ []

abbrev unused : RunningService
unused = record {
  manage_mutex = false;
  cmd = some 4711;
  is_waiting_for_resources = false;
  is_ready = true;
  last_used = some 2;
  idle_timer = some 100;
  resources_released = false;
  resources_reserved = true;
  stdout_writer = none;
  stderr_writer = none;
}

idle_service_stops : (idle_timer_fires gpu text_model false 100 unused idle).1 ≡ stops
unfolding idle_timer_fires fire_set_timer can_be_stopped lookup_or lookup
idle_service_stops = refl

cleaned_up_is_ignored :
    (idle_timer_fires gpu text_model false 100 (record unused { idle_timer = none }) idle).1
    ≡ ignores
unfolding idle_timer_fires
cleaned_up_is_ignored = refl

no_counts :
    (n : String)
    → lookup_or (record { proxied = pos 0; waiting = pos 0 }) n idle.connection_stats
      ≡ record { proxied = pos 0; waiting = pos 0 }
unfolding lookup_or lookup
no_counts n = refl

proxied_is_kept_example :
    let u = run gpu configs quiet one_client in
    ((interrupted : Bool) (now : ℕ) (running : RunningService)
      → (idle_timer_fires gpu text_model interrupted now running u.manager).1 ≢ stops)
    × ((requesting missing : String) (now : ℕ)
        → find_earliest_last_used_service
            (record { configs = configs; heap = u.heap; manager = u.manager })
            requesting
            missing
            now
          ≢ some "text")
unfolding run step move accept
proxied_is_kept_example =
    proxied_is_kept gpu configs quiet one_client refl no_counts (omega arith) 0
      (record { service = text_model; phase = proxying }) refl refl refl
