-- ===== src/Services/Registry.antt =====
-- service.go and service_process.go: runningServices lists the instances that were not cleaned up, and no
-- service has two of them.
use large_model_proxy.Base.{
  ℕ, ◌≡◌, refl, sym, ap, ◌∙◌, inl, inr, Bool, true, false, not, ◌&&◌, ◌||◌, List, [], ◌∷◌, lookup,
  none, some, get_elem?, arith, Option-cases,
}
use large_model_proxy.Config.{Config}
use large_model_proxy.Manager.{RunningService}
use large_model_proxy.Services.{Phase, taken, Instance, System, Action, step, run}
use large_model_proxy.Services.Locks.{holds_in_use, SoundIn, is_taken}
use large_model_proxy.Services.Steps.{moved, begun, step-Stepped, All-get}
use large_model_proxy.Services.Accounting.{Inv, IsInitial, IsInitial-Inv, step-Inv, run-Inv}
use large_model_proxy.Services.Live.{IsRegistry, IsRegistry-begun, IsRegistry-Listing}

module _ (c : Config) where
  step-IsRegistry :
      (y z : System) (a : Action)
      → Inv y
      → IsRegistry y.manager.running_services y.instances
      → step c y a ≡ some z
      → IsRegistry z.manager.running_services z.instances
  step-IsRegistry y z a v r h = elim (step-Stepped c y z a v.sound h) [
    | moved p i e move ↦ rw move.result (
        IsRegistry-Listing y.manager.running_services y.instances p i move.to e move.same
          move.manager.running_services r move.listing)
    | begun s now i _ same _ _ _ e _ _ live free listed ↦
        rw (e, listed)
          (IsRegistry-begun y.manager.running_services y.instances i s.name r
            (ap (λ x. x.name) same) live free)
  ]

  run-kept :
      (y : System) (schedule : List Action)
      → Inv y
      → IsRegistry y.manager.running_services y.instances
      → IsRegistry (run c y schedule).manager.running_services (run c y schedule).instances
  unfolding run
  run-kept y [] v r = r
  run-kept y (a ∷ rest) v r = elim (Option-cases (step c y a)) [
    | inl e ↦ rw (e, run) (run-kept y rest v r)
    | inr (z, e) ↦
        rw (e, run) (run-kept z rest (step-Inv c y z a v e) (step-IsRegistry y z a v r e))
  ]

holds_in_use-live :
    (ph : Phase) (rs : RunningService) (stopping : Bool)
    → SoundIn ph rs stopping
    → (is_taken ph || (rs.resources_reserved && not rs.resources_released)) ≡ true
    → rs.resources_released ≡ false
holds_in_use-live taken rs stopping v h = v.1.1
holds_in_use-live _ rs stopping v h = ground (arith, h)

none-some : {A : Type 0} {a : A} → none ≡ some a → ⊥
none-some h = ground (arith, h)

-- After any schedule of steps from the start, runningServices has under a name exactly the instance of the
-- service of that name that was not cleaned up, so that a service never has two of them.
pub run-IsRegistry :
    (c : Config) (y : System) (schedule : List Action)
    → IsInitial y
    → y.manager.running_services ≡ []
    → IsRegistry (run c y schedule).manager.running_services (run c y schedule).instances
unfolding lookup
run-IsRegistry c y schedule h none_yet = run-kept c y schedule (IsInitial-Inv y h) (λ name p. (
  (λ e. let nothing : none ≡ some p = rw none_yet at e in absurd (none-some nothing)),
  (λ (i, e, _, _). let nothing : none ≡ some i = rw h.0 at e in absurd (none-some nothing)),
))

-- No two instances of services of one name hold resources at once.
holds_once :
    (c : Config) (y : System) (schedule : List Action) (p q : ℕ) (i j : Instance)
    → IsInitial y
    → y.manager.running_services ≡ []
    → get_elem? (run c y schedule).instances p ≡ some i
    → get_elem? (run c y schedule).instances q ≡ some j
    → i.service.name ≡ j.service.name
    → holds_in_use i ≡ true
    → holds_in_use j ≡ true
    → p ≡ q
holds_once c y schedule p q i j h none_yet at_p at_q same holds_i holds_j =
    let v = run-Inv c y schedule (IsInitial-Inv y h) in
    let listed = run-IsRegistry c y schedule h none_yet in
    let live : (k : Instance) (r : ℕ)
        → get_elem? (run c y schedule).instances r ≡ some k
        → holds_in_use k ≡ true
        → k.running.resources_released ≡ false =
      λ k r e. holds_in_use-live k.phase k.running k.stopping (All-get _ r k v.sound e).0 in
    let at_name = (listed j.service.name p).1 (i, at_p, same, live i p at_p holds_i) in
    let too = (listed j.service.name q).1 (j, at_q, refl, live j q at_q holds_j) in
    let both : some p ≡ some q = sym at_name ∙ too in cc both
