-- ===== src/ChannelMutex.antt =====
-- connection.go, lines 254-295: channelMutex, a mutex whose token lies in a channel with a buffer of
-- one. `none` is a call that blocks. Which ready branch a select takes is the environment's choice.
mod Exclusion
mod Examples
use large_model_proxy.Base.{
  ℕ, Bool, true, false, List, [], ◌∷◌, Option, none, some, value_or, ◌==◌, if◌then◌else◌,
}

-- Whether the token lies in the channel.
pub record ChannelMutex : Type 0 where
  pub token : Bool

unfoldable pub new_channel_mutex : ChannelMutex
new_channel_mutex = record { token = true }

unfoldable pub try_lock : ChannelMutex → ChannelMutex × Bool
try_lock m = if m.token then (record { token = false }, true) else (m, false)

unfoldable pub lock : ChannelMutex → Option ChannelMutex
lock m = if m.token then some (record { token = false }) else none

-- The branch that the select of LockOrCancel takes, if it is ready: the token, or the closed channel.
pub data Branch : Type 0 where
  takes_token sees_cancel : Branch

unfoldable pub lock_or_cancel : Bool → Branch → ChannelMutex → Option (ChannelMutex × Bool)
lock_or_cancel cancelled takes_token m =
    if m.token then some (record { token = false }, true) else none
lock_or_cancel cancelled sees_cancel m = if cancelled then some (m, false) else none

unfoldable pub unlock : ChannelMutex → Option ChannelMutex
unlock m = if m.token then none else some (record { token = true })

-- The goroutines that hold the lock, beside the mutex, and the calls that they make.
pub record Holders : Type 0 where
  pub mutex : ChannelMutex
  pub holders : List ℕ

pub data Call : Type 0 where
  tries locks unlocks : ℕ → Call
  locks_or_cancels : ℕ → Bool → Branch → Call

abbrev pub joined : ℕ → Holders → ChannelMutex × Bool → Holders
joined p t (m, true) = record { mutex = m; holders = p ∷ t.holders }
joined p t (m, false) = record { mutex = m; holders = t.holders }

-- Takes a goroutine off the holders; `none` if it is none of them.
unfoldable pub without : ℕ → List ℕ → Option (List ℕ)
without p [] = none
without p (q ∷ qs) =
    let rest = without p qs in
    if q == p then some qs else elim rest [ none ↦ none | some rs ↦ some (q ∷ rs) ]

-- One call; a call that blocks, and an unlock by a goroutine that does not hold the lock, is no step.
unfoldable pub call : Call → Holders → Option Holders
unfolding try_lock lock lock_or_cancel unlock without
call (tries p) t = some (joined p t (try_lock t.mutex))
call (locks p) t = elim (lock t.mutex) [ none ↦ none | some m ↦ some (joined p t (m, true)) ]
call (locks_or_cancels p cancelled b) t = elim (lock_or_cancel cancelled b t.mutex) [
  | none ↦ none
  | some r ↦ some (joined p t r)
]
call (unlocks p) t = elim (without p t.holders) [
  | none ↦ none
  | some rest ↦ elim (unlock t.mutex) [
    | none ↦ none
    | some m ↦ some (record { mutex = m; holders = rest })
  ]
]

unfoldable pub run : List Call → Holders → Holders
unfolding call
run [] t = t
run (c ∷ cs) t = run cs (value_or t (call c t))
