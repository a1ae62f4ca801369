-- ===== src/Launch/HealthEnds.antt =====
-- service.go, performHealthCheck: what makes a service healthy, and that the check ends.
use large_model_proxy.Base.{
  ℕ, ◌+◌, ◌*◌, ◌≤◌, ◌<◌, ◌≡◌, ◌≢◌, refl, Bool, true, false, List, [], ◌∷◌, none, some, ℤ, pos,
  -ℤ_parts, length, arith, Any, inl, inr, ◌⊎◌, Bool-cases, Option-cases,
}
use large_model_proxy.Config.{ServiceConfig, is_blank}
use large_model_proxy.Launch.HealthCheck.{
  exits, process_ends, process_ends_pause, Round, healthy, undecided, check_round, check_rounds,
  rest_round, sleep_duration, perform_health_check,
}

-- A command that was started before the deadline and exited with code 0.
abbrev pub Passed : ℕ → Round → Type 0
Passed deadline r = (r.starts ≡ true) × (r.now < deadline) × (r.waited ≡ exits 0)

check_round-healthy :
    (watched : Bool) (sleep : ℤ) (deadline : ℕ) (r : Round)
    → check_round watched sleep deadline r ≡ some healthy
    → Passed deadline r
unfolding check_round rest_round
check_round-healthy watched sleep deadline r h = ground (arith, h)

check_rounds-healthy :
    (watched : Bool) (sleep : ℤ) (deadline : ℕ) (rs : List Round)
    → check_rounds watched sleep deadline rs ≡ healthy
    → Any (Passed deadline) rs
unfolding check_rounds
check_rounds-healthy watched sleep deadline [] h = ground (arith, h)
check_rounds-healthy watched sleep deadline (r ∷ rs) h =
    elim (Option-cases (check_round watched sleep deadline r)) [
      | inl e ↦ inr (check_rounds-healthy watched sleep deadline rs (rw (e, check_rounds) at h))
      | inr (o, e) ↦
          let k : o ≡ healthy = rw (e, check_rounds) at h in
          inl (check_round-healthy watched sleep deadline r (rw k at e))
    ]

-- The clock does not run back, a pause takes its time, and no select blocks for ever: only a watched
-- process is seen to end.
abbrev pub IsTimed : Bool → ℕ → ℕ → List Round → Type 0
IsTimed watched sleep t [] = Unit
IsTimed watched sleep t (r ∷ rs) =
    (t ≤ r.now)
    × (r.now ≤ r.later)
    × (watched ≡ false → (r.waited ≢ process_ends) × (r.pause ≢ process_ends_pause))
    × IsTimed watched sleep (r.later + sleep) rs

check_round-later :
    (watched : Bool) (sleep deadline : ℕ) (r : Round)
    → check_round watched (pos sleep) deadline r ≡ none
    → r.later + sleep ≤ deadline
unfolding check_round rest_round
check_round-later watched sleep deadline r h =
    ground (arith, h, -ℤ_parts (pos deadline) (pos r.later))

check_round-decides :
    (watched : Bool) (sleep : ℤ) (deadline : ℕ) (r : Round)
    → (watched ≡ false → (r.waited ≢ process_ends) × (r.pause ≢ process_ends_pause))
    → check_round watched sleep deadline r ≢ some undecided
unfolding check_round rest_round
check_round-decides true sleep deadline r f h = ground (arith, h)
check_round-decides false sleep deadline r f h = ground (arith, h, (f refl).0, (f refl).1)

check_rounds-decides :
    (watched : Bool) (sleep deadline t : ℕ) (rs : List Round)
    → IsTimed watched sleep t rs
    → t ≤ deadline
    → deadline < t + length rs * sleep
    → check_rounds watched (pos sleep) deadline rs ≢ undecided
unfolding check_rounds
check_rounds-decides watched sleep deadline t [] timed early late h = absurd (omega arith)
check_rounds-decides watched sleep deadline t (r ∷ rs) (a, b, f, timed) early late h =
    elim (Option-cases (check_round watched (pos sleep) deadline r)) [
      | inl e ↦
          let later = check_round-later watched sleep deadline r e in
          check_rounds-decides watched sleep deadline (r.later + sleep) rs timed later (grind arith)
            (rw (e, check_rounds) at h)
      | inr (o, e) ↦
          let k : o ≡ undecided = rw (e, check_rounds) at h in
          check_round-decides watched (pos sleep) deadline r f (rw k at e)
    ]

-- When the health check reports the service healthy, it has no command that is not blank, or one of the
-- rounds started the command before the deadline and the command exited with code 0.
pub perform_health_check-healthy :
    (s : ServiceConfig) (deadline : ℕ) (rounds : List Round)
    → perform_health_check s deadline rounds ≡ healthy
    → (is_blank s.healthcheck_command ≡ true) ⊎ Any (Passed deadline) rounds
unfolding perform_health_check
perform_health_check-healthy s deadline rounds h =
    elim (Bool-cases (is_blank s.healthcheck_command)) [
      | inl e ↦ inl e
      | inr e ↦ inr (elim (Option-cases s.consider_stopped_on_process_exit) [
        | inl k ↦ absurd (ground (arith, e, k, h))
        | inr (watched, k) ↦
            check_rounds-healthy watched (sleep_duration s) deadline rounds
              (rw (e, k, perform_health_check) at h)
      ])
    ]

-- With an interval that is a positive 64-bit number of nanoseconds, and a clock that does not run back
-- and runs through each pause, the health check of a service that says whether it is stopped by its
-- process's exit has decided after any number of rounds whose pauses are longer than the time to the
-- deadline; rounds in which an unwatched process is seen to end do not occur.
pub health_check_ends :
    (s : ServiceConfig) (watched : Bool) (sleep deadline t : ℕ) (rounds : List Round)
    → s.consider_stopped_on_process_exit ≡ some watched
    → sleep_duration s ≡ pos sleep
    → IsTimed watched sleep t rounds
    → t ≤ deadline
    → deadline < t + length rounds * sleep
    → perform_health_check s deadline rounds ≢ undecided
unfolding perform_health_check
health_check_ends s watched sleep deadline t rounds k d timed early late h =
    elim (Bool-cases (is_blank s.healthcheck_command)) [
      | inl e ↦ ground (arith, e, h)
      | inr e ↦
          check_rounds-decides watched sleep deadline t rounds timed early late
            (rw (e, k, d, perform_health_check) at h)
    ]
