-- ===== src/Connections/Examples.antt =====
-- One client is proxied to the text model, and another is about to be.
use large_model_proxy.Base.{
  ◌≡◌, refl, String, true, false, [], ◌∷◌, List, Dict, none, some, pos, arith, lookup, lookup_or,
}
use large_model_proxy.Config.{ServiceConfig}
use large_model_proxy.Manager.{RunningService}
use large_model_proxy.Samples.{gpu, idle, text_model, image_model}
use large_model_proxy.Connections.{Traffic, Action, accepts, connects, counts, run, accept}
use large_model_proxy.Connections.Proxy.{
  start_proxy, accept_loop, stopped, human_readable_connection,
}
use large_model_proxy.Connections.Counts.{IsCounted}
use large_model_proxy.Connections.Schedule.{run-IsCounted}

abbrev quiet : Traffic
quiet = record { manager = idle; heap = []; connections = [] }

abbrev configs : Dict ServiceConfig
configs = ("text", text_model) ∷ ("image", image_model) ∷ []

abbrev two_clients : List Action
two_clients =
    accepts text_model false
    ∷ accepts image_model false
    ∷ connects 0 1
    ∷ connects 1 2
    ∷ counts 0
    ∷ []

abbrev running : RunningService
running = record {
  manage_mutex = false;
  cmd = some 4711;
  is_waiting_for_resources = false;
  is_ready = true;
  last_used = some 2;
  idle_timer = none;
  resources_released = false;
  resources_reserved = true;
  stdout_writer = none;
  stderr_writer = none;
}

no_counts :
    (n : String)
    → lookup_or (record { proxied = pos 0; waiting = pos 0 }) n idle.connection_stats
      ≡ record { proxied = pos 0; waiting = pos 0 }
unfolding lookup_or lookup
no_counts n = refl

run-IsCounted_example :
    let u = run gpu configs quiet two_clients in IsCounted u.manager.connection_stats u.connections
run-IsCounted_example = run-IsCounted gpu configs quiet two_clients refl no_counts (omega arith)

-- The loop takes one client, passes over a failed Accept, and stops at the shutdown.
one_client_then_none :
    (start_proxy configs text_model true
      (record { interrupted = false; accepted = true; interrupted_since = false }
        ∷ record { interrupted = false; accepted = false; interrupted_since = false }
        ∷ record { interrupted = true; accepted = true; interrupted_since = true }
        ∷ [])
      quiet)
    ≡ (accept configs text_model false quiet, stopped)
unfolding start_proxy accept_loop
one_client_then_none = refl

shows_both_ends :
    human_readable_connection (some ("10.0.0.1:80", "10.0.0.2:90")) ≡ "10.0.0.1:80->10.0.0.2:90"
unfolding human_readable_connection
shows_both_ends = refl
