-- ===== src/ChannelMutex/Exclusion.antt =====
-- connection.go, channelMutex: at most one goroutine holds the lock, and the token is not lost.
use large_model_proxy.Base.{
  ℕ, suc, ◌+◌, ◌≡◌, refl, Bool, true, false, List, [], ◌∷◌, Option, none, some, value_or, length,
  arith, Bool-cases, Option-cases, inl, inr,
}
use large_model_proxy.ChannelMutex.{
  new_channel_mutex, try_lock, lock, takes_token, sees_cancel, lock_or_cancel, unlock, Holders,
  Call, tries, locks, unlocks, locks_or_cancels, without, call, run,
}

abbrev pub tokens : Bool → ℕ
tokens true = 1
tokens false = 0

-- Either the token lies in the channel and nobody holds the lock, or exactly one goroutine does.
abbrev pub IsExclusive : Holders → Type 0
IsExclusive t = tokens t.mutex.token + length t.holders ≡ 1

length-without : (p : ℕ) (qs rs : List ℕ) → without p qs ≡ some rs → suc (length rs) ≡ length qs
unfolding without
length-without p [] rs h = ground (arith, h)
length-without p (q ∷ qs) rs h = elim (Option-cases (without p qs)) [
  | inl e ↦ ground (arith, h, e)
  | inr (ts, e) ↦ ground (arith, h, e, length-without p qs ts e)
]

call-IsExclusive : (c : Call) (t u : Holders) → call c t ≡ some u → IsExclusive t → IsExclusive u
unfolding call try_lock lock lock_or_cancel unlock
call-IsExclusive (tries p) t u h k = elim (Bool-cases t.mutex.token) [
  | inl e ↦ ground (arith, h, k, e)
  | inr e ↦ ground (arith, h, k, e)
]
call-IsExclusive (locks p) t u h k = ground (arith, h, k)
call-IsExclusive (locks_or_cancels p cancelled takes_token) t u h k = ground (arith, h, k)
call-IsExclusive (locks_or_cancels p cancelled sees_cancel) t u h k = ground (arith, h, k)
call-IsExclusive (unlocks p) t u h k = elim (Option-cases (without p t.holders)) [
  | inl e ↦ ground (arith, h, e)
  | inr (rest, e) ↦ ground (arith, h, k, e, length-without p t.holders rest e)
]

value_or-IsExclusive :
    (t : Holders) (o : Option Holders)
    → IsExclusive t
    → ((u : Holders) → o ≡ some u → IsExclusive u)
    → IsExclusive (value_or t o)
value_or-IsExclusive t none k f = k
value_or-IsExclusive t (some u) k f = f u refl

run-IsExclusive : (cs : List Call) (t : Holders) → IsExclusive t → IsExclusive (run cs t)
unfolding run
run-IsExclusive [] t k = k
run-IsExclusive (c ∷ cs) t k =
    run-IsExclusive cs (value_or t (call c t))
      (value_or-IsExclusive t (call c t) k (λ u e. call-IsExclusive c t u e k))

-- From a new mutex, whatever calls are made in whatever order by goroutines that only unlock what
-- they hold: either nobody holds the lock and the token is there, or exactly one goroutine holds it.
pub run-new_channel_mutex :
    (cs : List Call) → IsExclusive (run cs (record { mutex = new_channel_mutex; holders = [] }))
unfolding new_channel_mutex
run-new_channel_mutex cs = run-IsExclusive cs _ refl
