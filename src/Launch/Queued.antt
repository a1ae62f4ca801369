-- ===== src/Launch/Queued.antt =====
-- service.go, startServiceIfNotAlreadyRunningAndConnect: for which clients a service is started or dialed.
use large_model_proxy.Base.{
  ◌≡◌, ◌≢◌, ◌⊎◌, refl, Bool, true, false, List, [], ◌∷◌, Option-cases, Bool-cases, none, some, inl,
  inr, arith,
}
use large_model_proxy.ChannelMutex.{ChannelMutex, takes_token, try_lock, lock_or_cancel, unlock}
use large_model_proxy.Launch.Queue.{
  Look, Turn, gives_up, starts, connects, looks_again, stuck, queued_turn, take_turn, take_turns,
  Answers, start_service_if_not_already_running_and_connect,
}

-- The service was held by another operation, whose end the client has awaited, and it was there still.
abbrev pub IsQueued : Look → Type 0
IsQueued l =
    (l.interrupted ≡ false)
    × ((m : ChannelMutex) × (l.found ≡ some m) × (m.token ≡ false))
    × (l.interrupted_waiting ≡ false)
    × (l.branch ≡ takes_token)
    × (l.mutex.token ≡ true)
    × (l.left_behind ≡ false)

-- The service is not there, or it is and nobody holds its mutex.
abbrev pub IsServed : Look → Type 0
IsServed l =
    (l.interrupted ≡ false)
    × ((l.found ≡ none) ⊎ ((m : ChannelMutex) × (l.found ≡ some m) × (m.token ≡ true)))

abbrev pub IsServedInTurn : List Look → Type 0
IsServedInTurn [] = ⊥
IsServedInTurn (l ∷ looks) = IsServed l ⊎ (IsQueued l × IsServedInTurn looks)

queued_turn-looks_again :
    (l : Look)
    → queued_turn l ≡ looks_again
    → (l.interrupted_waiting ≡ false)
      × (l.branch ≡ takes_token)
      × (l.mutex.token ≡ true)
      × (l.left_behind ≡ false)
unfolding queued_turn lock_or_cancel unlock
queued_turn-looks_again l h = ground (arith, h)

queued_turn-waits : (l : Look) → (queued_turn l ≢ starts) × (queued_turn l ≢ connects)
unfolding queued_turn lock_or_cancel unlock
queued_turn-waits l = ((λ h. ground (arith, h)), (λ h. ground (arith, h)))

take_turn-looks_again : (l : Look) → take_turn l ≡ looks_again → IsQueued l
unfolding take_turn try_lock unlock
take_turn-looks_again l h = elim (Bool-cases l.interrupted) [
  | inl e ↦ ground (arith, h, e)
  | inr e ↦ elim (Option-cases l.found) [
    | inl f ↦ ground (arith, h, e, f)
    | inr (m, f) ↦ elim (Bool-cases m.token) [
      | inl g ↦ ground (arith, h, e, f, g)
      | inr g ↦
          let q : queued_turn l ≡ looks_again = ground (arith, h, e, f, g) in
          let (a, b, c, d) = queued_turn-looks_again l q in (e, (m, f, g), a, b, c, d)
    ]
  ]
]

take_turn-IsServed :
    (l : Look) (t : Turn) → take_turn l ≡ t → (t ≡ starts) ⊎ (t ≡ connects) → IsServed l
unfolding take_turn try_lock unlock
take_turn-IsServed l t h k = elim (Bool-cases l.interrupted) [
  | inl e ↦ ground (arith, h, e, k)
  | inr e ↦ elim (Option-cases l.found) [
    | inl f ↦ (e, inl f)
    | inr (m, f) ↦ elim (Bool-cases m.token) [
      | inl g ↦ (e, inr (m, f, g))
      | inr g ↦ ground (arith, h, e, f, g, k, queued_turn-waits l)
    ]
  ]
]

take_turns-IsServedInTurn :
    (looks : List Look) (t : Turn)
    → take_turns looks ≡ t
    → (t ≡ starts) ⊎ (t ≡ connects)
    → IsServedInTurn looks
unfolding take_turns
take_turns-IsServedInTurn [] t h k = ground (arith, h, k)
take_turns-IsServedInTurn (l ∷ looks) t h k =
    turn (take_turn l) refl (λ g. take_turns-IsServedInTurn looks t g k)
  where
    turn :
        (u : Turn)
        → take_turn l ≡ u
        → (take_turns looks ≡ t → IsServedInTurn looks)
        → IsServedInTurn (l ∷ looks)
    turn gives_up e again = ground (arith, h, k, e)
    turn starts e again = inl (take_turn-IsServed l starts e (inl refl))
    turn connects e again = inl (take_turn-IsServed l connects e (inr refl))
    turn looks_again e again = inr (take_turn-looks_again l e, again (rw (e, take_turns) at h))
    turn stuck e again = ground (arith, h, k, e)

-- When the call starts, dials or stops anything, or returns a connection, then each look at the service
-- before the one that decides found it held by another operation, and the client awaited the operation's
-- end and was there behind it; and the look that decides found the service gone, or there with its
-- mutex free. None of these looks saw the interrupt. So nothing is done for a client that left while
-- it was queued.
pub served_in_turn :
    (restart : Bool) (a : Answers) (looks : List Look)
    → start_service_if_not_already_running_and_connect restart a looks ≢ ([], false)
    → IsServedInTurn looks
unfolding start_service_if_not_already_running_and_connect
served_in_turn restart a looks h = turn (take_turns looks) refl
  where
    turn : (u : Turn) → take_turns looks ≡ u → IsServedInTurn looks
    turn starts e = take_turns-IsServedInTurn looks starts e (inl refl)
    turn connects e = take_turns-IsServedInTurn looks connects e (inr refl)
    turn gives_up e = ground (arith, h, e)
    turn looks_again e = ground (arith, h, e)
    turn stuck e = ground (arith, h, e)
