-- ===== src/Waiting/Listeners.antt =====
-- resources.go, reserveResources: the listeners of all waiting services over whole schedules.
use large_model_proxy.Base.{
  ℕ, zero, suc, ◌≡◌, ◌≢◌, ◌⊎◌, refl, sym, ap, ◌∙◌, String, false, List, [], ◌∷◌, Dict, Option-cases,
  inl, inr, some, value_or, get_elem?, str_eq, str_eq_self, arith,
}
use large_model_proxy.Config.{Config, ServiceConfig}
use large_model_proxy.Manager.{ResourceManager, broadcast_resource_change, broadcast_first_change}
use large_model_proxy.Services.Heap.{set}
use large_model_proxy.Waiting.{
  Phase, idle, Waiter, Hall, Action, moves, announces, measures, others, move, moved, step, run,
}
use large_model_proxy.Waiting.Registered.{registered-send}
use large_model_proxy.Waiting.Passes.{checks_for, waits_for}
use large_model_proxy.Waiting.Moves.{waits_in, checks_in, Moved, move-Moved}

module _ {ℓ} {A : Type ℓ} where
  get_elem?-set :
      (xs : List A) (i j : ℕ) (v w : A)
      → get_elem? (set xs i v) j ≡ some w
      → ((j ≡ i) × (w ≡ v)) ⊎ ((j ≢ i) × (get_elem? xs j ≡ some w))
  get_elem?-set [] i j v w h = ground (arith, h)
  get_elem?-set (x ∷ xs) zero zero v w h = inl (refl, sym (ap (value_or v) h))
  get_elem?-set (x ∷ xs) zero (suc j) v w h = inr (ground arith, h)
  get_elem?-set (x ∷ xs) (suc i) zero v w h = inr (ground arith, h)
  get_elem?-set (x ∷ xs) (suc i) (suc j) v w h = ground (arith, get_elem?-set xs i j v w h)

abbrev name_of : Waiter → String
name_of w = w.service.name

-- No two waiting services have one name.
abbrev pub AreDistinct : List Waiter → Type 0
AreDistinct ws =
    (i j : ℕ) (w v : Waiter)
    → get_elem? ws i ≡ some w
    → get_elem? ws j ≡ some v
    → j ≢ i
    → str_eq w.service.name v.service.name ≡ false

-- The service is registered for the resources that its phase says, and for no other.
abbrev pub IsListening : ResourceManager → Waiter → Type 0
IsListening m w =
    (q : String)
    → (waits_for q w.service.name m ≡ waits_in w.phase q)
      × (checks_for q w.service.name m ≡ checks_in w.phase q)

abbrev pub AreListening : Hall → Type 0
AreListening h = (i : ℕ) (w : Waiter) → get_elem? h.waiters i ≡ some w → IsListening h.manager w

module _ (h : Hall) (i : ℕ) (w : Waiter) (u : ResourceManager × Phase)
    (e : get_elem? h.waiters i ≡ some w) (a : Moved (name_of w) w.phase h.manager u) where
  same_service :
      (j : ℕ) (v : Waiter)
      → get_elem? (moved h i w (some u)).waiters j ≡ some v
      → (v' : Waiter) × (get_elem? h.waiters j ≡ some v') × (v.service ≡ v'.service)
  same_service j v p = elim (get_elem?-set h.waiters i j (record w { phase = u.1 }) v p) [
    | inl (f, g) ↦ (w, rw f e, ap (λ x. x.service) g)
    | inr (f, g) ↦ (v, g, refl)
  ]

  moved-AreDistinct : AreDistinct h.waiters → AreDistinct (moved h i w (some u)).waiters
  moved-AreDistinct d j k v x p q r =
      let (v', p', f) = same_service j v p in
      let (x', q', g) = same_service k x q in rw (f, g) (d j k v' x' p' q' r)

  own-IsListening : IsListening h.manager w → IsListening u.0 (record w { phase = u.1 })
  own-IsListening l q = (a q (name_of w)).1 (str_eq_self (name_of w)) (l q).0 (l q).1

  other-IsListening :
      (v : Waiter)
      → str_eq (name_of w) (name_of v) ≡ false
      → IsListening h.manager v
      → IsListening u.0 v
  other-IsListening v f l q =
      let same = (a q (name_of v)).0 f in (same.0 ∙ (l q).0, same.1 ∙ (l q).1)

  moved-AreListening : AreDistinct h.waiters → AreListening h → AreListening (moved h i w (some u))
  moved-AreListening d l j v p = elim (get_elem?-set h.waiters i j (record w { phase = u.1 }) v p) [
    | inl (f, g) ↦ rw g (own-IsListening (l i w e))
    | inr (f, g) ↦ other-IsListening v (d i j w v e g f) (l j v g)
  ]

module _ (c : Config) (configs : Dict ServiceConfig) where
  step-AreListening :
      (h : Hall) (a : Action)
      → AreDistinct h.waiters
      → AreListening h
      → AreDistinct (step c configs h a).waiters × AreListening (step c configs h a)
  unfolding step broadcast_resource_change broadcast_first_change
  step-AreListening h (announces r recheck) d l =
      (d, λ i w e q. (registered-send recheck r q w.service.name _ ∙ (l i w e q).0, (l i w e q).1))
  step-AreListening h (measures r) d l =
      (d, λ i w e q. ((l i w e q).0, registered-send tt r q w.service.name _ ∙ (l i w e q).1))
  step-AreListening h (others m) d l = (d, l)
  step-AreListening h (moves i a) d l = elim (Option-cases (get_elem? h.waiters i)) [
    | inl e ↦ rw (e, step) (d, l)
    | inr (w, e) ↦ elim (Option-cases (move c configs w.service w.phase a h.manager)) [
      | inl f ↦ rw (e, f, step) (d, l)
      | inr (u, f) ↦
          let m = move-Moved (name_of w) c configs w.service w.phase a h.manager u refl f in
          rw (e, f, step) (moved-AreDistinct h i w u e m d, moved-AreListening h i w u e m d l)
    ]
  ]

  run-AreListening :
      (h : Hall) (schedule : List Action)
      → AreDistinct h.waiters
      → AreListening h
      → AreListening (run c configs h schedule)
  unfolding run
  run-AreListening h [] d l = l
  run-AreListening h (a ∷ rest) d l =
      let (d', l') = step-AreListening h a d l in run-AreListening (step c configs h a) rest d' l'

-- No service waits yet, and none is registered.
abbrev pub IsQuiet : Hall → Type 0
IsQuiet h =
    (i : ℕ) (w : Waiter)
    → get_elem? h.waiters i ≡ some w
    → (w.phase ≡ idle)
      × ((q : String)
          → (waits_for q w.service.name h.manager ≡ false)
            × (checks_for q w.service.name h.manager ≡ false))

quiet-AreListening : (h : Hall) → IsQuiet h → AreListening h
quiet-AreListening h f i w e q = rw (f i w e).0 ((f i w e).1 q)

-- From a state in which no service waits or is registered, whatever the order of the steps of any
-- services of different names, each service has a channel for a change of exactly the resource in whose
-- select it stands, and one for the first measurement of exactly the resources that it waits for in
-- waitForFirstCheckCommands. So a call that has returned, or that is at the top of its loop, has left
-- no channel behind, on every way out: success, timeout, and a client that left.
pub listeners_follow_phases :
    (c : Config) (configs : Dict ServiceConfig) (h : Hall) (schedule : List Action)
    → AreDistinct h.waiters
    → IsQuiet h
    → AreListening (run c configs h schedule)
listeners_follow_phases c configs h schedule d f =
    run-AreListening c configs h schedule d (quiet-AreListening h f)
