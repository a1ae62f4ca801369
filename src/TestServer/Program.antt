-- ===== src/TestServer/Program.antt =====
-- test-server/main.go, lines 22-90, 248-256, 325-339 and 598-622: the
-- flags, what they start, the paths that are served, and the end of the program.
use large_model_proxy.Base.{
  ℕ, String, Bool, true, not, List, [], ◌∷◌, ◌++◌, Option, none, some, leb, if◌then◌else◌, str_eq,
}
use large_model_proxy.Config.{is_blank}

-- The durations are in nanoseconds.
pub record Flags : Type 0 where
  pub port : String
  pub health_check_api_port : String
  pub open_ai_api_port : String
  pub proc_port : String
  pub exit_after_duration : ℕ
  pub exit_script : String
  pub ignore_sigterm : Bool

-- The goroutines of main.
pub data Goroutine : Type 0 where
  listen_on_main_port health_check_listen open_ai_api_listen proc_listen : String → Goroutine

abbrev pub go_if : String → (String → Goroutine) → List Goroutine
go_if port make = if is_blank port then [] else make port ∷ []

unfoldable pub goroutines : Flags → List Goroutine
goroutines f =
    go_if f.port listen_on_main_port
    ++ go_if f.health_check_api_port health_check_listen
    ++ go_if f.open_ai_api_port open_ai_api_listen
    ++ go_if f.proc_port proc_listen

-- The paths of the three servers; for any other, ServeMux answers 404.
pub data Route : Type 0 where
  health_check completions chat_completions procinfo not_found : Route

unfoldable pub route : Goroutine → String → Route
route (health_check_listen port) path = health_check
route (open_ai_api_listen port) path =
    if str_eq path "/v1/completions"
    then completions
    else if str_eq path "/v1/chat/completions"
    then chat_completions
    else not_found
route (proc_listen port) path = if str_eq path "/procinfo" then procinfo else not_found
route (listen_on_main_port port) path = not_found

pub record Procinfo : Type 0 where
  pub args : List String
  pub env : List String

unfoldable pub handle_procinfo : List String → List String → Procinfo
handle_procinfo args env = record { args = args; env = env }

pub data Signal : Type 0 where
  sigint sigterm : Signal

pub data Fate : Type 0 where
  notified ignored : Fate

-- What signal.Ignore and signal.Notify make of a signal.
unfoldable pub fate : Bool → Signal → Fate
fate true sigterm = ignored
fate _ _ = notified

-- What main may see: the time since its start, or a signal.
pub data Event : Type 0 where
  clock : ℕ → Event
  signalled : Signal → Event

pub data Reason : Type 0 where
  exit_after exit_signal : Reason

abbrev pub ends : Flags → Event → Option Reason
ends f (clock t) = if leb f.exit_after_duration t then some exit_after else none
ends f (signalled s) = elim (fate f.ignore_sigterm s) [
  | notified ↦ some exit_signal
  | ignored ↦ none
]

-- The select of main on what happens in turn, and whether the exit script is run behind it.
unfoldable pub main_select : Flags → List Event → Option (Reason × Bool)
unfolding fate
main_select f [] = none
main_select f (e ∷ events) =
    let later = main_select f events in
    elim (ends f e) [ none ↦ later | some r ↦ some (r, not (is_blank f.exit_script)) ]
