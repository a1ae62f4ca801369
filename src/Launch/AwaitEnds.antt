-- ===== src/Launch/AwaitEnds.antt =====
-- service.go, startService: the wait for the service ends, and it ends well only for a service that answers.
use large_model_proxy.Base.{
  ℕ, ◌+◌, ◌*◌, ◌≤◌, ◌<◌, ◌≡◌, ◌≢◌, ◌⊎◌, refl, Bool, true, false, List, [], ◌∷◌, Option-cases,
  Bool-cases, some, ℤ, pos, length, arith, Any, inl, inr,
}
use large_model_proxy.Config.{ServiceConfig, is_blank}
use large_model_proxy.Launch.HealthCheck.{
  Round, Health, healthy, undecided, panics, unhealthy, sleep_duration, perform_health_check,
}
use large_model_proxy.Launch.HealthEnds.{
  Passed, IsTimed, perform_health_check-healthy, health_check_ends,
}
use large_model_proxy.Launch.Dial.{
  Try, nothing, Attempt, connected, dialing, first_sleep, next_sleep, try_once, try_connecting,
}
use large_model_proxy.Launch.DialEnds.{IsTimed as IsPaced, pauses, dialing_ends}
use large_model_proxy.Launch.Await.{
  ready, waiting, Clock, startup_connection_timeout, after, dial_deadline, behind_check,
  behind_dialing, await_service,
}

-- A dial before the deadline that the service takes, with nothing in its way.
abbrev pub IsTaken : ℕ → Try → Type 0
IsTaken deadline r =
    (r.now < deadline) × (r.poll ≡ nothing) × (r.interrupted ≡ false) × (r.dials ≡ true)

try_once-connected :
    (deadline : ℕ) (r : Try) → try_once deadline r ≡ some connected → IsTaken deadline r
unfolding try_once
try_once-connected deadline r h = ground (arith, h)

try_connecting-connected :
    (deadline sleep : ℕ) (rs : List Try)
    → try_connecting deadline sleep rs ≡ connected
    → Any (IsTaken deadline) rs
unfolding try_connecting
try_connecting-connected deadline sleep [] h = ground (arith, h)
try_connecting-connected deadline sleep (r ∷ rs) h = elim (Option-cases (try_once deadline r)) [
  | inl e ↦
      inr (try_connecting-connected deadline (next_sleep sleep) rs (rw (e, try_connecting) at h))
  | inr (o, e) ↦
      let q : o ≡ connected = rw (e, try_connecting) at h in
      inl (try_once-connected deadline r (rw q at e))
]

behind_dialing-waiting : (b : Bool) (a : Attempt) → behind_dialing b a ≡ waiting → a ≡ dialing
behind_dialing-waiting b a h = ground (arith, h)

behind_dialing-ready :
    (b : Bool) (a : Attempt) → behind_dialing b a ≡ ready → (b ≡ false) × (a ≡ connected)
behind_dialing-ready b a h = ground (arith, h)

module _ (clock : Clock) (timeout : ℤ) (tries : List Try) where
  abbrev dialed : Attempt
  dialed = try_connecting (dial_deadline clock timeout) first_sleep tries

  behind_check-waiting :
      (health : Health)
      → behind_check clock timeout tries health ≡ waiting
      → (health ≡ undecided) ⊎ (dialed ≡ dialing)
  behind_check-waiting healthy h = elim (Bool-cases clock.interrupted_before) [
    | inl e ↦ ground (arith, e, h)
    | inr e ↦ inr (behind_dialing-waiting clock.interrupted_behind dialed (rw e at h))
  ]
  behind_check-waiting undecided h = inl refl
  behind_check-waiting panics h = ground (arith, h)
  behind_check-waiting (unhealthy reason) h = ground (arith, h)

  behind_check-ready :
      (health : Health)
      → behind_check clock timeout tries health ≡ ready
      → (health ≡ healthy)
        × (clock.interrupted_before ≡ false)
        × (clock.interrupted_behind ≡ false)
        × (dialed ≡ connected)
  behind_check-ready healthy h = elim (Bool-cases clock.interrupted_before) [
    | inl e ↦ ground (arith, e, h)
    | inr e ↦
        let (a, b) = behind_dialing-ready clock.interrupted_behind dialed (rw e at h) in
        (refl, e, a, b)
  ]
  behind_check-ready undecided h = ground (arith, h)
  behind_check-ready panics h = ground (arith, h)
  behind_check-ready (unhealthy reason) h = ground (arith, h)

-- startService takes a started service for ready only when it has no health check command, or one of the
-- rounds of the check started it before its deadline and it exited with code 0; and when one of the
-- dials behind that was taken before what is left of the startup timeout ran out, with the client
-- there, the process running, and the proxy not interrupted.
pub ready_has_answered :
    (s : ServiceConfig) (clock : Clock) (rounds : List Round) (tries : List Try)
    → await_service s clock rounds tries ≡ ready
    → let timeout = startup_connection_timeout s in
      ((is_blank s.healthcheck_command ≡ true) ⊎ Any (Passed (after clock.checks timeout)) rounds)
      × Any (IsTaken (dial_deadline clock timeout)) tries
      × (clock.interrupted_before ≡ false)
      × (clock.interrupted_behind ≡ false)
unfolding await_service
ready_has_answered s clock rounds tries h =
    let timeout = startup_connection_timeout s in
    let (a, b, c, d) =
      behind_check-ready clock timeout tries
        (perform_health_check s (after clock.checks timeout) rounds) h in
    (
      perform_health_check-healthy s (after clock.checks timeout) rounds a,
      try_connecting-connected (dial_deadline clock timeout) first_sleep tries d,
      b,
      c,
    )

-- With an interval and a timeout that are positive 64-bit numbers of nanoseconds, and a clock that does
-- not run back and runs through each pause, the wait for a service that says whether it is stopped by
-- its process's exit is over once the pauses of the health check are longer than the timeout and those
-- between the dials, doubling from 1 µs up to 100 ms, are as long; rounds in which an unwatched
-- process is seen to end do not occur.
pub startup_ends :
    (s : ServiceConfig) (watched : Bool) (sleep timeout : ℕ) (clock : Clock) (rounds : List Round)
    (r : Try) (tries : List Try)
    → s.consider_stopped_on_process_exit ≡ some watched
    → sleep_duration s ≡ pos sleep
    → startup_connection_timeout s ≡ pos timeout
    → clock.set ≤ clock.reads
    → IsTimed watched sleep clock.checks rounds
    → IsPaced clock.dials first_sleep (r ∷ tries)
    → timeout < length rounds * sleep
    → timeout ≤ pauses 0 (length tries)
    → await_service s clock rounds (r ∷ tries) ≢ waiting
unfolding await_service
startup_ends s watched sleep timeout clock rounds r tries k d e forward timed paced enough more h =
    elim (behind_check-waiting clock (pos timeout) (r ∷ tries)
      (perform_health_check s (clock.checks + timeout) rounds) (rw (e, await_service) at h)) [
        | inl i ↦
            health_check_ends s watched sleep (clock.checks + timeout) clock.checks rounds k d timed
              (omega arith) (omega arith) i
        | inr i ↦
            dialing_ends (dial_deadline clock (pos timeout)) clock.dials r tries paced (omega arith)
              i
      ]
