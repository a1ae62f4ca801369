-- ===== src/Shutdown/Examples.antt =====
-- Two services run when the proxy is interrupted, and one of them does not end in time.
use large_model_proxy.Base.{
  ℕ, zero, suc, ◌≡◌, refl, true, false, List, [], ◌∷◌, Dict, none, some, lookup, All, pos,
}
use large_model_proxy.Config.{ServiceConfig}
use large_model_proxy.Manager.{RunningService, ResourceManager}
use large_model_proxy.Samples.{idle, text_model, image_model}
use large_model_proxy.Shutdown.{
  Call, runs_kill_command, sends_sigterm, sends_sigkill, Answers, succeeds, end_process,
  stop_running_service, shut_down, stop_service, maybe_get_running_service,
}
use large_model_proxy.Shutdown.Exit.{monitor_process, exit_message}
use large_model_proxy.Shutdown.Signals.{IsEndedAt, shut_down-ends_all}

abbrev running_as : ℕ → RunningService
running_as pid = record {
  manage_mutex = false;
  cmd = some pid;
  is_waiting_for_resources = false;
  is_ready = true;
  last_used = some 2;
  idle_timer = some 100;
  resources_released = false;
  resources_reserved = true;
  stdout_writer = none;
  stderr_writer = none;
}

abbrev configs : Dict ServiceConfig
configs =
    ("text", record text_model { kill_command = some "docker stop text" })
    ∷ ("image", image_model)
    ∷ []

abbrev heap : List RunningService
heap = running_as 10 ∷ running_as 20 ∷ []

abbrev first_hangs : ℕ → Answers
first_hangs zero = record { exits_in_time = false; kill = succeeds; has_state = false }
first_hangs (suc p) = record { exits_in_time = true; kill = succeeds; has_state = false }

abbrev entries : Dict ℕ
entries = ("text", 0) ∷ ("image", 1) ∷ []

two_stops :
    shut_down configs heap first_hangs entries idle
    ≡ some (
        runs_kill_command "docker stop text"
        ∷ sends_sigterm 10
        ∷ sends_sigkill 10
        ∷ sends_sigterm 20
        ∷ [])
unfolding shut_down stop_running_service end_process lookup
two_stops = refl

shut_down-ends_all_example :
    (calls : List Call) × (shut_down configs heap first_hangs entries idle ≡ some calls)
    × All (IsEndedAt configs heap first_hangs calls) entries
unfolding lookup
shut_down-ends_all_example =
    shut_down-ends_all configs heap first_hangs entries idle
      (((_, refl), (_, refl)), (((_, refl), (_, refl)), tt))

-- While the loop of main holds serviceMutex, a stop from elsewhere does nothing.
left_to_the_loop :
    (m : ResourceManager) → stop_service true true text_model first_hangs heap m ≡ none
unfolding stop_service maybe_get_running_service
left_to_the_loop m = refl

-- Main holds serviceMutex from the signal on, so that the end of a process changes nothing.
exit_in_shutdown :
    monitor_process true true text_model 0 (running_as 10) idle ≡ (running_as 10, idle)
unfolding monitor_process
exit_in_shutdown = refl

says_exit :
    exit_message (λ z. "7") "text" (pos 7) (some (pos 7)) none
    ≡ "[text] Process with pid 7 terminated with exit code 7"
unfolding exit_message
says_exit = refl
