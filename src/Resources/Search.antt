-- ===== src/Resources/Search.antt =====
-- resources.go, lines 150-319: the search for a missing resource as a whole.
use large_model_proxy.Base.{
  ◌≡◌, refl, String, Bool, true, List, [], ◌∷◌, some, ℤ, arith, All, Any, inl, inr, ◌⊎◌,
  Option-cases,
}
use large_model_proxy.Config.{Config}
use large_model_proxy.Manager.{ResourceManager}
use large_model_proxy.Resources.{
  Requirements, handle_not_enough_resource, first_missing_static, Found, missing, pending,
  unpause_monitoring, check_measured, find_first_missing_resource,
}
use large_model_proxy.Resources.Missing.{
  SameAmounts, Fits, FitsStatic, LacksMeasured, FitsMeasured, first_missing_static-none,
  LacksStatic, first_missing_static-some, register_first_change-SameAmounts, Checked, Checked-skip,
  Checked-pending, check_measured-Round, check_measured-first, skipped, asked, failed,
}

handle_not_enough-SameAmounts :
    (q : String) (m : ResourceManager) → SameAmounts m (handle_not_enough_resource q m)
unfolding handle_not_enough_resource
handle_not_enough-SameAmounts q m = record {
  in_use = refl;
  reserved = refl;
  available = refl;
  running = refl;
}

pub check_measured-Checked :
    (c : Config) (requesting : String) (first : Bool) (reqs : Requirements) (m : ResourceManager)
    (r : ResourceManager × Found)
    → check_measured c requesting first reqs m ≡ some r
    → Checked c reqs m r
check_measured-Checked c requesting first [] m r h =
    let e : r ≡ (m, pending []) = unfold check_measured in cc in
    rw e (
      record { in_use = refl; reserved = refl; available = refl; running = refl },
      (λ _. tt),
      (λ s p. cc),
    )
check_measured-Checked c requesting first ((k, a) ∷ reqs) m r h =
    elim (check_measured-Round c requesting first k a reqs m r h) [
      | skipped i fits ↦
          Checked-skip c (k, a) reqs m r fits (check_measured-Checked c requesting first reqs m r i)
      | asked m' r' t i j p ↦ rw p (
          Checked-pending c (k, a) reqs m (unpause_monitoring k m') r'
            (register_first_change-SameAmounts k requesting m m' i)
            (λ s. check_measured-first c requesting reqs (unpause_monitoring k m') r' s j)
            (check_measured-Checked c requesting true reqs (unpause_monitoring k m') r' j).0)
      | failed p t lacks ↦ rw p (
        handle_not_enough-SameAmounts requesting m,
        (λ e. cc),
        (λ s e. inl (cc, lacks.1, lacks.2)),
      )
    ]

Any-map :
    {A : Type 0} (P Q : A → Type 0) (xs : List A) → ((a : A) → P a → Q a) → Any P xs → Any Q xs
Any-map P Q [] f h = h
Any-map P Q (x ∷ xs) f (inl h) = inl (f x h)
Any-map P Q (x ∷ xs) f (inr h) = inr (Any-map P Q xs f h)

All-zip :
    (c : Config) (m : ResourceManager) (reqs : Requirements)
    → All (FitsStatic c m) reqs
    → All (FitsMeasured c m) reqs
    → All (Fits c m) reqs
All-zip c m [] h k = tt
All-zip c m (e ∷ reqs) h k = ((h.0, k.0), All-zip c m reqs h.1 k.1)

abbrev pub Lacks : Config → ResourceManager → String → String × ℤ → Type 0
Lacks c m s e = LacksStatic c m s e ⊎ LacksMeasured c m s e

-- What the search returns: the manager but for its channels; nothing missing and nothing pending only
-- where every requirement fits; and a missing resource only where a requirement does not fit.
abbrev pub Searched : Config → Requirements → ResourceManager → ResourceManager × Found → Type 0
Searched c reqs m (m', f) =
    SameAmounts m m'
    × (f ≡ pending [] → All (Fits c m) reqs)
    × ((r : String) → f ≡ missing r → Any (Lacks c m r) reqs)

pub find_first_missing_resource-Searched :
    (c : Config) (reqs : Requirements) (requesting : String) (first : Bool) (m : ResourceManager)
    (r : ResourceManager × Found)
    → find_first_missing_resource c reqs requesting first m ≡ some r
    → Searched c reqs m r
find_first_missing_resource-Searched c reqs requesting first m r h =
    elim (Option-cases (first_missing_static c m reqs)) [
      | inl e ↦
          let (same, fits, lacks) =
            check_measured-Checked c requesting first reqs m r
              (unfold find_first_missing_resource in (ground (arith, e))) in
          (
            same,
            (λ p. All-zip c m reqs (first_missing_static-none c m reqs e) (fits p)),
            (λ s p. Any-map _ _ reqs (λ x l. inr l) (lacks s p)),
          )
      | inr (s, e) ↦
          let p : r ≡ (handle_not_enough_resource requesting m, missing s) =
            unfold find_first_missing_resource in ground (arith, e) in
          rw p (
            handle_not_enough-SameAmounts requesting m,
            (λ q. cc),
            (λ t q.
                Any-map _ _ reqs (λ x l. inl l)
                  (first_missing_static-some c m reqs t (let k : s ≡ t = cc in rw (← k) e))),
          )
    ]
