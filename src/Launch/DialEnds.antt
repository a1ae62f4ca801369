-- ===== src/Launch/DialEnds.antt =====
-- service.go, tryConnectingUntilTimeoutOrProcessExit: the pauses between the dials, and that it ends.
use large_model_proxy.Base.{
  ℕ, zero, suc, ◌+◌, ◌*◌, ◌^◌, ◌≤◌, ◌<◌, ◌≡◌, ◌≢◌, List, [], ◌∷◌, none, some, ltb, length, arith,
  inl, inr, Option-cases, if◌then◌else◌,
}
use large_model_proxy.Launch.Dial.{Try, dialing, first_sleep, next_sleep, try_once, try_connecting}

-- The pause behind the dial number k, from 0: it doubles, up to 100 ms.
abbrev pub pause : ℕ → ℕ
pause k = if ltb (1_000 * 2 ^ k) 100_000_000 then 1_000 * 2 ^ k else 100_000_000

next_sleep-pause : (k : ℕ) → next_sleep (pause k) ≡ pause (suc k)
unfolding next_sleep
next_sleep-pause k = let double : 2 ^ suc k ≡ 2 * 2 ^ k = omega arith in ground (arith, double)

-- The pauses behind n dials, from number k on.
unfoldable pub pauses : ℕ → ℕ → ℕ
pauses k zero = 0
pauses k (suc n) = pause k + pauses (suc k) n

-- The clock does not run back, and runs through each pause that the loop makes.
abbrev pub IsTimed : ℕ → ℕ → List Try → Type 0
IsTimed t sleep [] = Unit
IsTimed t sleep (r ∷ rs) = (t ≤ r.now) × IsTimed (r.now + sleep) (next_sleep sleep) rs

try_once-on_time : (deadline : ℕ) (r : Try) → try_once deadline r ≡ none → r.now < deadline
unfolding try_once
try_once-on_time deadline r h = ground (arith, h)

try_once-decides : (deadline : ℕ) (r : Try) → try_once deadline r ≢ some dialing
unfolding try_once
try_once-decides deadline r h = ground (arith, h)

-- A loop that is undecided has gone on from its first round.
went_on :
    (deadline sleep : ℕ) (r : Try) (rs : List Try)
    → try_connecting deadline sleep (r ∷ rs) ≡ dialing
    → (r.now < deadline) × (try_connecting deadline (next_sleep sleep) rs ≡ dialing)
unfolding try_connecting
went_on deadline sleep r rs h = elim (Option-cases (try_once deadline r)) [
  | inl e ↦ (try_once-on_time deadline r e, rw (e, try_connecting) at h)
  | inr (o, e) ↦
      let q : o ≡ dialing = rw (e, try_connecting) at h in
      absurd (try_once-decides deadline r (rw q at e))
]

dialing_takes_time :
    (deadline t k : ℕ) (r : Try) (rs : List Try)
    → IsTimed t (pause k) (r ∷ rs)
    → try_connecting deadline (pause k) (r ∷ rs) ≡ dialing
    → t + pauses k (length rs) < deadline
unfolding pauses
dialing_takes_time deadline t k r [] (early, _) h =
    let on_time = (went_on deadline (pause k) r [] h).0 in omega arith
dialing_takes_time deadline t k r (r' ∷ rs) (early, timed) h =
    let rest = (went_on deadline (pause k) r (r' ∷ rs) h).1 in
    let later =
      dialing_takes_time deadline (r.now + pause k) (suc k) r' rs (rw (next_sleep-pause k) at timed)
        (rw (next_sleep-pause k) at rest) in
    grind arith

-- With a clock that does not run back and runs through each pause of the loop, the attempts to connect
-- have decided once as many pauses as there are dials before the last, which double from 1 µs up to
-- 100 ms, add up to the time that is left to the deadline.
pub dialing_ends :
    (deadline t : ℕ) (r : Try) (rs : List Try)
    → IsTimed t first_sleep (r ∷ rs)
    → deadline ≤ t + pauses 0 (length rs)
    → try_connecting deadline first_sleep (r ∷ rs) ≢ dialing
dialing_ends deadline t r rs timed late h =
    let time = dialing_takes_time deadline t 0 r rs timed h in absurd (omega arith)
