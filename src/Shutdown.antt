-- ===== src/Shutdown.antt =====
-- main.go, lines 54-74 and 188-203, and service_process.go: stopService (165-172), stopRunningService (177-247) with
-- waitForProcessToTerminate (323-337), as the calls that they make to the operating system. What the
-- system answers is an argument.
pub mod Signals
mod Exit
mod Examples
use large_model_proxy.Base.{
  ℕ, String, Bool, true, false, not, ◌&&◌, List, [], ◌∷◌, ◌++◌, Dict, lookup, Option, none, some,
  get_elem?, if◌then◌else◌,
}
use large_model_proxy.Config.{ServiceConfig}
use large_model_proxy.Manager.{ResourceManager, RunningService}
use large_model_proxy.Services.{clean_up}

-- A signal goes to the group of the process with the number.
pub data Call : Type 0 where
  stops_idle_timer : Call
  runs_kill_command : String → Call
  sends_sigterm sends_sigkill : ℕ → Call

-- What comes of SIGKILL; `fails` is any error but ESRCH.
pub data Kill : Type 0 where
  succeeds finds_no_process fails : Kill

-- The answers to one stop: whether the process ends within ten seconds, what comes of SIGKILL, and
-- whether the process's state is known then.
pub record Answers : Type 0 where
  pub exits_in_time : Bool
  pub kill : Kill
  pub has_state : Bool

abbrev pub kill_command : Option String → List Call
kill_command none = []
kill_command (some command) = runs_kill_command command ∷ []

abbrev pub idle_timer_stop : Option ℕ → List Call
idle_timer_stop none = []
idle_timer_stop (some time) = stops_idle_timer ∷ []

-- The process is gone, or it is another's task to end it.
abbrev pub is_done : Answers → Kill → Bool
is_done a succeeds = true
is_done a finds_no_process = true
is_done a fails = a.has_state

-- The part of stopRunningService that ends the process: the calls, and whether the function goes on.
unfoldable pub end_process : ServiceConfig → Answers → Option ℕ → List Call × Bool
end_process s a none = ([], true)
end_process s a (some pid) =
    let polite = kill_command s.kill_command ++ sends_sigterm pid ∷ [] in
    if a.exits_in_time then (polite, true) else (polite ++ sends_sigkill pid ∷ [], is_done a a.kill)

-- stopRunningService from the lock of manageMutex, which it holds, to the unlock. The flag says that
-- the proxy is shutting down: then the mutex is not given back, and nothing is cleaned up.
unfoldable pub stop_running_service :
    Bool
    → ServiceConfig
    → ℕ
    → Answers
    → RunningService
    → ResourceManager
    → List Call × (RunningService × ResourceManager)
unfolding end_process
stop_running_service true s p a running m =
    ((end_process s a running.cmd).0, (record running { manage_mutex = true }, m))
stop_running_service false s p a running m =
    let (calls, goes_on) = end_process s a running.cmd in
    let (running', m') =
      if goes_on && not running.resources_released
      then clean_up s p true running m
      else (running, m) in
    (idle_timer_stop running.idle_timer ++ calls, (record running' { manage_mutex = false }, m'))

-- maybeGetRunningService: an interrupted proxy reads the map only if it gets serviceMutex at once.
unfoldable pub maybe_get_running_service : Bool → Bool → String → ResourceManager → Option ℕ
maybe_get_running_service interrupted is_locked name m =
    if interrupted && is_locked then none else lookup name m.running_services

-- stopService, where `none` is a service that is not found.
unfoldable pub stop_service :
    Bool
    → Bool
    → ServiceConfig
    → (ℕ → Answers)
    → List RunningService
    → ResourceManager
    → Option (List Call × (RunningService × ResourceManager))
unfolding maybe_get_running_service stop_running_service
stop_service interrupted is_locked s answers heap m =
    elim (maybe_get_running_service interrupted is_locked s.name m) [
      | none ↦ none
      | some p ↦ elim (get_elem? heap p) [
        | none ↦ none
        | some running ↦ some (stop_running_service interrupted s p (answers p) running m)
      ]
    ]

-- The loop of main behind a signal; `none` is the panic of findServiceConfigByName. The map is under
-- serviceMutex, and stays as it is.
unfoldable pub shut_down :
    Dict ServiceConfig
    → List RunningService
    → (ℕ → Answers)
    → Dict ℕ
    → ResourceManager
    → Option (List Call)
unfolding stop_running_service
shut_down configs heap answers [] m = some []
shut_down configs heap answers ((name, p) ∷ entries) m =
    let rest = shut_down configs heap answers entries m in
    elim (lookup name configs) [
      | none ↦ none
      | some s ↦ elim (get_elem? heap p) [
        | none ↦ none
        | some running ↦ elim rest [
          | none ↦ none
          | some calls ↦ some ((stop_running_service true s p (answers p) running m).0 ++ calls)
        ]
      ]
    ]
