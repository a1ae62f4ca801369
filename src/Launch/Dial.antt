-- ===== src/Launch/Dial.antt =====
-- service.go, lines 345-402: tryConnectingUntilTimeoutOrProcessExit.
use large_model_proxy.Base.{
  ℕ, ◌*◌, Bool, List, [], ◌∷◌, Option, none, some, leb, ltb, if◌then◌else◌,
}

-- What the select before a dial finds: nothing is its default.
pub data Poll : Type 0 where
  nothing process_exits client_leaves : Poll

-- What the select behind a failed dial takes.
pub data Sleep : Type 0 where
  sleeps process_exits_asleep client_leaves_asleep : Sleep

-- One round: the clock at its top, and what happens in it.
pub record Try : Type 0 where
  pub now : ℕ
  pub poll : Poll
  pub interrupted : Bool
  pub dials : Bool
  pub sleep : Sleep

-- `dialing` is a loop that still runs. The Go function returns a connection, or nil with the flag that
-- the process has exited.
pub data Attempt : Type 0 where
  connected process_terminated gave_up dialing : Attempt

-- Nanoseconds: from 1 µs to 100 ms.
abbrev pub first_sleep : ℕ
first_sleep = 1_000

abbrev pub max_sleep : ℕ
max_sleep = 100_000_000

unfoldable pub next_sleep : ℕ → ℕ
next_sleep sleep_duration =
    let doubled = sleep_duration * 2 in if ltb max_sleep doubled then max_sleep else doubled

abbrev pub after_sleep : Sleep → Option Attempt
after_sleep sleeps = none
after_sleep process_exits_asleep = some process_terminated
after_sleep client_leaves_asleep = some gave_up

abbrev pub after_poll : Try → Poll → Option Attempt
after_poll r process_exits = some process_terminated
after_poll r client_leaves = some gave_up
after_poll r nothing =
    if r.interrupted then some gave_up else if r.dials then some connected else after_sleep r.sleep

-- One round of the loop; `none` goes on.
unfoldable pub try_once : ℕ → Try → Option Attempt
try_once deadline r = if leb deadline r.now then some gave_up else after_poll r r.poll

unfoldable pub try_connecting : ℕ → ℕ → List Try → Attempt
unfolding try_once next_sleep
try_connecting deadline sleep_duration [] = dialing
try_connecting deadline sleep_duration (r ∷ rs) = elim (try_once deadline r) [
  | none ↦ try_connecting deadline (next_sleep sleep_duration) rs
  | some result ↦ result
]
