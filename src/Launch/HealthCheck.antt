-- ===== src/Launch/HealthCheck.antt =====
-- service.go, lines 214-321: performHealthCheck.
use large_model_proxy.Base.{
  ℕ, zero, suc, ◌*◌, Bool, true, false, not, List, [], ◌∷◌, Option, none, some, ℤ, pos, ltb_ℤ, leb,
  wrap, ◌-ℤ◌, ◌==◌, if◌then◌else◌,
}
use large_model_proxy.Config.{ServiceConfig, is_blank}

-- What the select beside a running command takes: its exit with a code, the deadline, the client that
-- leaves, or the end of the service's process.
pub data Waited : Type 0 where
  exits : ℕ → Waited
  passes_deadline client_leaves process_ends : Waited

-- What the select between two commands takes.
pub data Pause : Type 0 where
  sleeps client_leaves_pause process_ends_pause : Pause

-- One round: the clock at its top and behind the command, and what happens in it.
pub record Round : Type 0 where
  pub interrupted : Bool
  pub now : ℕ
  pub starts : Bool
  pub waited : Waited
  pub later : ℕ
  pub pause : Pause

pub data Reason : Type 0 where
  was_interrupted timed_out not_started command_timed_out client_left process_exited no_time_left :
      Reason

-- `undecided` is a loop that still runs: there are no more rounds, or a select blocks. `panics` is a
-- nil ConsiderStoppedOnProcessExit.
pub data Health : Type 0 where
  healthy undecided panics : Health
  unhealthy : Reason → Health

-- processExitedChannel is nil, and never ready, unless the process's end counts as the service's.
abbrev pub exited : Bool → Health
exited true = unhealthy process_exited
exited false = undecided

abbrev pub after_pause : Bool → Pause → Option Health
after_pause watched sleeps = none
after_pause watched client_leaves_pause = some (unhealthy client_left)
after_pause watched process_ends_pause = some (exited watched)

unfoldable pub rest_round : Bool → ℤ → ℕ → Round → Option Health
rest_round watched sleep deadline r =
    if ltb_ℤ (pos deadline -ℤ pos r.later) sleep
    then some (unhealthy no_time_left)
    else if ltb_ℤ (pos 0) sleep
    then after_pause watched r.pause
    else none

abbrev pub after_wait : Bool → ℤ → ℕ → Round → Waited → Option Health
after_wait watched sleep deadline r (exits zero) = some healthy
after_wait watched sleep deadline r (exits (suc code)) = rest_round watched sleep deadline r
after_wait watched sleep deadline r passes_deadline = some (unhealthy command_timed_out)
after_wait watched sleep deadline r client_leaves = some (unhealthy client_left)
after_wait watched sleep deadline r process_ends = some (exited watched)

-- One round of the loop; `none` goes on.
unfoldable pub check_round : Bool → ℤ → ℕ → Round → Option Health
unfolding rest_round
check_round watched sleep deadline r =
    if r.interrupted
    then some (unhealthy was_interrupted)
    else if leb deadline r.now
    then some (unhealthy timed_out)
    else if not r.starts
    then some (unhealthy not_started)
    else after_wait watched sleep deadline r r.waited

unfoldable pub check_rounds : Bool → ℤ → ℕ → List Round → Health
unfolding check_round
check_rounds watched sleep deadline [] = undecided
check_rounds watched sleep deadline (r ∷ rs) = elim (check_round watched sleep deadline r) [
  | none ↦ check_rounds watched sleep deadline rs
  | some h ↦ h
]

-- A time.Duration is a 64-bit integer, and so is its product with a million.
unfoldable pub sleep_duration : ServiceConfig → ℤ
sleep_duration s =
    let interval = s.healthcheck_interval_milliseconds in
    if interval == 0 then pos 100_000_000 else wrap (pos (interval * 1_000_000))

unfoldable pub perform_health_check : ServiceConfig → ℕ → List Round → Health
unfolding check_rounds sleep_duration
perform_health_check s deadline rounds =
    if is_blank s.healthcheck_command then healthy else elim s.consider_stopped_on_process_exit [
      | none ↦ panics
      | some watched ↦ check_rounds watched (sleep_duration s) deadline rounds
    ]
