-- ===== src/Services/Capacity.antt =====
-- resources.go and service.go: no more of a resource is in use than the configuration offers.
use large_model_proxy.Base.{
  ℕ, zero, suc, ◌≡◌, ◌≢◌, refl, sym, ap, subst, ◌∙◌, String, true, false, ◌⊎◌, inl, inr, List, [],
  ◌∷◌, Dict, some, get_elem?, All, All-append, arith, Option-cases, Bool-cases, ℤ, pos, sub, IsInt,
  wrap-eq_of_IsInt, ◌+ℤ◌, ◌-ℤ◌, ◌≤ℤ◌, +ℤ_parts, -ℤ_parts, ltb_ℤ, +ℤ_zero, parts_exclusive,
  str_eq_cases, str_eq_self, str_eq_ne,
}
use large_model_proxy.Config.{Config, is_blank}
use large_model_proxy.Manager.{ResourceManager}
use large_model_proxy.Resources.{Requirements, resource_of}
use large_model_proxy.Resources.Missing.{Fits}
use large_model_proxy.Resources.Amounts.{held, amount_of}
use large_model_proxy.Services.{Instance, System, Action, begin, step, run}
use large_model_proxy.Services.Heap.{set}
use large_model_proxy.Services.Sums.{
  total, share, total-keep, total-take, total-release, total-append, Change, kept, taken, released,
}
use large_model_proxy.Services.Locks.{holds_in_use}
use large_model_proxy.Services.Steps.{moved, begun, step-Stepped}
use large_model_proxy.Services.Accounting.{Inv, IsInitial, IsInitial-Inv, step-Inv}

-- A Go map of requirements that are not negative.
abbrev pub Distinct : Requirements → Type 0
Distinct [] = Unit
Distinct ((r, a) ∷ reqs) = All (λ e. e.0 ≢ r) reqs × Distinct reqs

abbrev pub IsPlausible : Requirements → Type 0
IsPlausible reqs = All (λ e. pos 0 ≤ℤ e.1) reqs × Distinct reqs

abbrev Plausible : Instance → Type 0
Plausible i = IsPlausible i.service.resource_requirements

amount_of-nonneg :
    (r : String) (reqs : Requirements) → All (λ e. pos 0 ≤ℤ e.1) reqs → pos 0 ≤ℤ amount_of r reqs
unfolding amount_of
amount_of-nonneg r [] h = omega arith
amount_of-nonneg r ((s, a) ∷ reqs) h =
    let rest = amount_of-nonneg r reqs h.1 in ground (arith, rest, +ℤ_parts a (amount_of r reqs))

amount_of-absent :
    (r : String) (reqs : Requirements) → All (λ e. e.0 ≢ r) reqs → amount_of r reqs ≡ pos 0
unfolding amount_of
amount_of-absent r [] h = refl
amount_of-absent r ((s, a) ∷ reqs) h = rw (str_eq_ne s r h.0) (amount_of-absent r reqs h.1)

-- What fits is no more than what is free.
amount_of-Fits :
    (c : Config) (m : ResourceManager) (r : String) (reqs : Requirements)
    → is_blank (resource_of c r).check_command ≡ true
    → Distinct reqs
    → All (Fits c m) reqs
    → (amount_of r reqs ≡ pos 0)
      ⊎ (ltb_ℤ (sub (resource_of c r).amount (held r m.resources_in_use)) (amount_of r reqs)
          ≡ false)
unfolding amount_of
amount_of-Fits c m r [] b d f = inl refl
amount_of-Fits c m r ((s, a) ∷ reqs) b d f = elim (str_eq_cases s r) [
  | inl e ↦
      let gone = amount_of-absent r reqs (subst (λ k. All (λ x. x.0 ≢ k) reqs) e d.0) in
      let fit : Fits c m (r, a) = subst (λ k. Fits c m (k, a)) e f.0 in
      rw (e, str_eq_self r, gone, +ℤ_zero a) (inr (fit.0 b))
  | inr (n, e) ↦ rw e (amount_of-Fits c m r reqs b d.1 f.1)
]

total-nonneg :
    (r : String) (is : List Instance) → All Plausible is → pos 0 ≤ℤ total holds_in_use r is
unfolding total
total-nonneg r [] h = omega arith
total-nonneg r (i ∷ is) h =
    let rest = total-nonneg r is h.1 in
    let own = amount_of-nonneg r i.service.resource_requirements h.0.0 in
    let whole = +ℤ_parts (share holds_in_use r i) (total holds_in_use r is) in
    elim (Bool-cases (holds_in_use i)) [
      | inl e ↦ ground (arith, e, rest, own, whole)
      | inr e ↦ ground (arith, e, rest, whole)
    ]

-- The free amount that the code computes, where nothing wraps.
free-fits :
    (offered inside more : ℤ)
    → IsInt offered
    → pos 0 ≤ℤ inside
    → inside ≤ℤ offered
    → ltb_ℤ (sub offered inside) more ≡ false
    → inside +ℤ more ≤ℤ offered
free-fits offered inside more int low high h =
    let parts = -ℤ_parts offered inside in
    let exact : sub offered inside ≡ offered -ℤ inside =
      unfold sub in
      wrap-eq_of_IsInt (offered -ℤ inside)
        (omega (arith, parts, parts_exclusive (offered -ℤ inside))) in
    let within : ltb_ℤ (offered -ℤ inside) more ≡ false = rw exact at h in
    ground (arith, within, parts, +ℤ_parts inside more)

-- What an invariant of the schedule says of one resource.
record Bounded (c : Config) (r : String) (y : System) : Type 0 where
  plausible : All Plausible y.instances
  within : total holds_in_use r y.instances ≤ℤ (resource_of c r).amount

Plausible-get :
    (is : List Instance) (p : ℕ) (i : Instance)
    → All Plausible is
    → get_elem? is p ≡ some i
    → Plausible i
Plausible-get [] p i h e = cc
Plausible-get (x ∷ is) zero i h e = let k : x ≡ i = cc in subst Plausible k h.0
Plausible-get (x ∷ is) (suc p) i h e = Plausible-get is p i h.1 e

Plausible-set :
    (is : List Instance) (p : ℕ) (j : Instance)
    → All Plausible is
    → Plausible j
    → All Plausible (set is p j)
Plausible-set [] p j h k = tt
Plausible-set (x ∷ is) zero j h k = (k, h.1)
Plausible-set (x ∷ is) (suc p) j h k = (h.0, Plausible-set is p j h.1 k)

sub_le : (t a u n : ℤ) → t +ℤ a ≡ u → pos 0 ≤ℤ a → u ≤ℤ n → t ≤ℤ n
sub_le t a u n h low le = let le' : t +ℤ a ≤ℤ n = rw h le in omega (arith, le', low, +ℤ_parts t a)

-- The service that a step starts has plausible requirements.
abbrev pub StartsPlausible : Action → Type 0
StartsPlausible (begin s now) = IsPlausible s.resource_requirements
StartsPlausible _ = Unit

module _ (c : Config) (r : String) (b : is_blank (resource_of c r).check_command ≡ true)
    (int : IsInt (resource_of c r).amount) where
  -- The books are exact, since the sum neither falls below 0 nor passes what is offered.
  held-total :
      (y : System)
      → Inv y
      → Bounded c r y
      → held r y.manager.resources_in_use ≡ total holds_in_use r y.instances
  held-total y v h =
      let low = total-nonneg r y.instances h.plausible in
      v.in_use r
      ∙ wrap-eq_of_IsInt (total holds_in_use r y.instances)
          (omega (arith, low, h.within, int, parts_exclusive (total holds_in_use r y.instances)))

  total-Change :
      (y : System) (p : ℕ) (i j : Instance) (books' : Dict ℤ)
      → Inv y
      → Bounded c r y
      → get_elem? y.instances p ≡ some i
      → j.service ≡ i.service
      → (holds_in_use i ≡ false
          → holds_in_use j ≡ true
          → All (Fits c y.manager) i.service.resource_requirements)
      → Change holds_in_use i j y.manager.resources_in_use books'
      → total holds_in_use r (set y.instances p j) ≤ℤ (resource_of c r).amount
  total-Change y p i j books' v h e s fits (kept same _) =
      rw (total-keep holds_in_use y.instances p i j e r same (ap (λ t. t.resource_requirements) s))
        h.within
  total-Change y p i j books' v h e s fits (taken out joins _) =
      let reqs = i.service.resource_requirements in
      let low = total-nonneg r y.instances h.plausible in
      let more : total holds_in_use r (set y.instances p j)
          ≡ total holds_in_use r y.instances +ℤ amount_of r reqs =
        total-take holds_in_use y.instances p i j e r out joins
        ∙ ap (λ t. total holds_in_use r y.instances +ℤ amount_of r t.resource_requirements) s in
      elim (amount_of-Fits c y.manager r reqs b (Plausible-get y.instances p i h.plausible e).1
        (fits out joins)) [
          | inl nil ↦ rw (more, nil, +ℤ_zero (total holds_in_use r y.instances)) h.within
          | inr room ↦ rw more (
              free-fits (resource_of c r).amount (total holds_in_use r y.instances)
                (amount_of r reqs) int low h.within (rw (held-total y v h) at room))
        ]
  total-Change y p i j books' v h e s fits (released within out _) =
      let reqs = i.service.resource_requirements in
      let less = total-release holds_in_use y.instances p i j e r within out in
      let own = amount_of-nonneg r reqs (Plausible-get y.instances p i h.plausible e).0 in
      sub_le (total holds_in_use r (set y.instances p j)) (amount_of r reqs)
        (total holds_in_use r y.instances) (resource_of c r).amount less own h.within

  step-Bounded :
      (y z : System) (a : Action)
      → Inv y
      → Bounded c r y
      → StartsPlausible a
      → step c y a ≡ some z
      → Bounded c r z
  step-Bounded y z a v h ok e = elim (step-Stepped c y z a v.sound e) [
    | moved p i q move ↦ rw move.result (record {
      plausible = Plausible-set y.instances p move.to h.plausible (
          subst (λ t. IsPlausible t.resource_requirements) (sym move.same)
            (Plausible-get y.instances p i h.plausible q));
      within =
          total-Change y p i move.to move.manager.resources_in_use v h q move.same move.fits
            move.in_use;
    })
    | begun s now i k same sound out free q u w _ _ _ ↦ record {
      plausible = rw q (
          All-append Plausible y.instances (i ∷ []) h.plausible (
            subst (λ t. IsPlausible t.resource_requirements) (sym same)
                (subst StartsPlausible k ok),
            tt,
          ));
      within =
          rw
            (
              q,
              total-append holds_in_use r y.instances i,
              out,
              +ℤ_zero (total holds_in_use r y.instances),
            )
            h.within;
    }
  ]

run-Bounded :
    (c : Config) (r : String) (y : System) (schedule : List Action)
    → is_blank (resource_of c r).check_command ≡ true
    → IsInt (resource_of c r).amount
    → All StartsPlausible schedule
    → Inv y
    → Bounded c r y
    → Inv (run c y schedule) × Bounded c r (run c y schedule)
unfolding run
run-Bounded c r y [] b int ok v h = (v, h)
run-Bounded c r y (a ∷ rest) b int ok v h = elim (Option-cases (step c y a)) [
  | inl e ↦ rw (e, run) (run-Bounded c r y rest b int ok.1 v h)
  | inr (z, e) ↦
      rw (e, run)
        (run-Bounded c r z rest b int ok.1 (step-Inv c y z a v e)
          (step-Bounded c r b int y z a v h ok.0 e))
]

-- After any schedule of steps from the start, a resource that has no CheckCommand is never in use
-- beyond the amount that the configuration offers, nor below 0. The requirements of the services that
-- the schedule starts are not negative and name each resource once, as a Go map does; the offered
-- amount is not negative and one that Go's int holds.
pub run_within_capacity :
    (c : Config) (y : System) (schedule : List Action) (r : String)
    → is_blank (resource_of c r).check_command ≡ true
    → IsInt (resource_of c r).amount
    → pos 0 ≤ℤ (resource_of c r).amount
    → All StartsPlausible schedule
    → IsInitial y
    → let books = (run c y schedule).manager.resources_in_use in
      (pos 0 ≤ℤ held r books) × (held r books ≤ℤ (resource_of c r).amount)
run_within_capacity c y schedule r b int nonneg ok start =
    let empty : total holds_in_use r y.instances ≡ pos 0 =
      ap (total holds_in_use r) start.0 ∙ unfold total in refl in
    let (v, h) =
      run-Bounded c r y schedule b int ok (IsInitial-Inv y start)
        (record { plausible = rw start.0 tt; within = rw empty nonneg }) in
    rw (held-total c r b int (run c y schedule) v h)
      (total-nonneg r (run c y schedule).instances h.plausible, h.within)
