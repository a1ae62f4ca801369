-- ===== src/Launch/Await.antt =====
-- service.go, lines 127-173: how startService waits for the service that it has started.
use large_model_proxy.Base.{
  ℕ, ◌+◌, ◌-◌, ◌*◌, Bool, List, none, some, ℤ, pos, negsuc, wrap, if◌then◌else◌,
}
use large_model_proxy.Config.{ServiceConfig}
use large_model_proxy.Launch.HealthCheck.{
  Round, Health, healthy, undecided, panics, unhealthy, perform_health_check,
}
use large_model_proxy.Launch.Dial.{
  Try, Attempt, connected, process_terminated, gave_up, dialing, first_sleep, try_connecting,
}

-- What startService has on its way out; `waiting` is a loop that still runs.
pub data Outcome : Type 0 where
  ready waiting crashed : Outcome
  check_failed terminated not_connected was_interrupted : Outcome

-- The clock where giveUpTime is set, at the start of the health check, where time.Until reads it, and
-- at the start of the dialing; and whether the proxy is interrupted behind each of the two.
pub record Clock : Type 0 where
  pub set : ℕ
  pub checks : ℕ
  pub reads : ℕ
  pub dials : ℕ
  pub interrupted_before : Bool
  pub interrupted_behind : Bool

unfoldable pub startup_connection_timeout : ServiceConfig → ℤ
startup_connection_timeout s = elim s.startup_timeout_milliseconds [
  | none ↦ pos 600_000_000_000
  | some milliseconds ↦ wrap (pos (milliseconds * 1_000_000))
]

-- The times of a clock behind 1970: a sum with a negative timeout stops at 0.
abbrev pub after : ℕ → ℤ → ℕ
after time (pos timeout) = time + timeout
after time (negsuc early) = time - early - 1

-- now + (giveUpTime - now'), which is not before giveUpTime for a clock that does not run back.
abbrev pub dial_deadline : Clock → ℤ → ℕ
dial_deadline clock timeout = clock.dials + after clock.set timeout - clock.reads

abbrev pub behind_dialing : Bool → Attempt → Outcome
behind_dialing interrupted connected = if interrupted then was_interrupted else ready
behind_dialing interrupted process_terminated = terminated
behind_dialing interrupted gave_up = not_connected
behind_dialing interrupted dialing = waiting

abbrev pub behind_check : Clock → ℤ → List Try → Health → Outcome
behind_check clock timeout tries (unhealthy reason) = check_failed
behind_check clock timeout tries undecided = waiting
behind_check clock timeout tries panics = crashed
behind_check clock timeout tries healthy =
    if clock.interrupted_before
    then was_interrupted
    else behind_dialing clock.interrupted_behind
        (try_connecting (dial_deadline clock timeout) first_sleep tries)

unfoldable pub await_service : ServiceConfig → Clock → List Round → List Try → Outcome
unfolding startup_connection_timeout
await_service s clock rounds tries =
    let timeout = startup_connection_timeout s in
    behind_check clock timeout tries (perform_health_check s (after clock.checks timeout) rounds)
