-- ===== src/Services/Live.antt =====
-- service.go and service_process.go: how the list of running services follows the instances.
use large_model_proxy.Base.{
  ℕ, zero, suc, ◌≡◌, ◌≢◌, refl, sym, ap, ◌∙◌, ◌↔◌, ◌⊎◌, inl, inr, String, true, false, List, [],
  ◌∷◌, ◌++◌, Dict, lookup, insert, lookup-insert, lookup-delete, none, some, get_elem?, length,
  ◌==◌, str_eq_self, str_eq_cases, arith, Bool-cases, Option-cases,
}
use large_model_proxy.Services.{Instance}
use large_model_proxy.Services.Heap.{set}
use large_model_proxy.Services.Listing.{Listing, without}

-- The instance `p` is one of the service and was not cleaned up.
abbrev pub IsLive : List Instance → String → ℕ → Type 0
IsLive is name p =
    (i : Instance) × (get_elem? is p ≡ some i)
    × (i.service.name ≡ name)
    × (i.running.resources_released ≡ false)

-- The list of running services has exactly the instances that were not cleaned up, under their names.
abbrev pub IsRegistry : Dict ℕ → List Instance → Type 0
IsRegistry listed is = (name : String) (p : ℕ) → (lookup name listed ≡ some p) ↔ IsLive is name p

get-set_same :
    (is : List Instance) (p : ℕ) (i j : Instance)
    → get_elem? is p ≡ some i
    → get_elem? (set is p j) p ≡ some j
get-set_same [] p i j h = ground (arith, h)
get-set_same (x ∷ is) zero i j h = refl
get-set_same (x ∷ is) (suc p) i j h = get-set_same is p i j h

get-set_other :
    (is : List Instance) (p q : ℕ) (j : Instance)
    → p ≢ q
    → get_elem? (set is p j) q ≡ get_elem? is q
get-set_other [] p q j n = refl
get-set_other (x ∷ is) zero zero j n = absurd (n refl)
get-set_other (x ∷ is) zero (suc q) j n = refl
get-set_other (x ∷ is) (suc p) zero j n = refl
get-set_other (x ∷ is) (suc p) (suc q) j n = get-set_other is p q j (λ e. n (ap suc e))

get-append_last :
    (is : List Instance) (i : Instance) → get_elem? (is ++ i ∷ []) (length is) ≡ some i
get-append_last [] i = refl
get-append_last (x ∷ is) i = get-append_last is i

get-append_cases :
    (is : List Instance) (i k : Instance) (q : ℕ)
    → get_elem? (is ++ i ∷ []) q ≡ some k
    → (get_elem? is q ≡ some k) ⊎ ((q ≡ length is) × (k ≡ i))
get-append_cases [] i k zero h = inr (refl, cc h)
get-append_cases [] i k (suc q) h = ground (arith, h)
get-append_cases (x ∷ is) i k zero h = inl h
get-append_cases (x ∷ is) i k (suc q) h = elim (get-append_cases is i k q h) [
  | inl e ↦ inl e
  | inr (e, f) ↦ inr (ap suc e, f)
]

get-append_first :
    (is : List Instance) (i k : Instance) (q : ℕ)
    → get_elem? is q ≡ some k
    → get_elem? (is ++ i ∷ []) q ≡ some k
get-append_first [] i k q h = ground (arith, h)
get-append_first (x ∷ is) i k zero h = h
get-append_first (x ∷ is) i k (suc q) h = get-append_first is i k q h

ℕ-cases : (p q : ℕ) → (p ≡ q) ⊎ (p ≢ q)
ℕ-cases p q = ground arith

-- A service of which no instance is listed gets one.
pub IsRegistry-begun :
    (listed : Dict ℕ) (is : List Instance) (i : Instance) (name : String)
    → IsRegistry listed is
    → i.service.name ≡ name
    → i.running.resources_released ≡ false
    → lookup name listed ≡ none
    → IsRegistry (insert name (length is) listed) (is ++ i ∷ [])
IsRegistry-begun listed is i name v n r free other q = elim (str_eq_cases name other) [
  | inl same ↦ (
    (λ h.
        let at_end : length is ≡ q = cc (rw (lookup-insert, same, str_eq_self) at h) in
        (i, rw (← at_end) (get-append_last is i), n ∙ same, r)),
    (λ (k, at_q, m, live). elim (get-append_cases is i k q at_q) [
      | inr (e, _) ↦ rw (lookup-insert, same, str_eq_self, e) refl
      | inl e ↦
          let here : lookup other listed ≡ some q = (v other q).1 (k, e, m, live) in
          let gone : lookup other listed ≡ none = rw same at free in ground (arith, here, gone)
    ]),
  )
  | inr (apart, e) ↦ (
    (λ h.
        let (k, at_q, m, live) = (v other q).0 (rw (lookup-insert, e) at h) in
        (k, get-append_first is i k q at_q, m, live)),
    (λ (k, at_q, m, live). elim (get-append_cases is i k q at_q) [
      | inl f ↦ rw (lookup-insert, e) ((v other q).1 (k, f, m, live))
      | inr (_, f) ↦ absurd (apart (sym n ∙ ap (λ x. x.service.name) (sym f) ∙ m))
    ]),
  )
]

-- What is left of the list without an instance: everything but its own entry.
lookup-without :
    (listed : Dict ℕ) (name other : String) (p q : ℕ)
    → (lookup other (without name p listed) ≡ some q)
      ↔ ((lookup other listed ≡ some q) × ¬ ((name ≡ other) × (p ≡ q)))
lookup-without listed name other p q = elim (Option-cases (lookup name listed)) [
  | inl e ↦ (
    (λ h.
        let kept : lookup other listed ≡ some q = rw e at h in
        (kept, (λ (same, _). ground (arith, kept, rw same at e)))),
    (λ (h, _). rw e h),
  )
  | inr (o, e) ↦ elim (Bool-cases (o == p)) [
    | inr f ↦ (
      (λ h.
          let kept : lookup other listed ≡ some q = rw (e, f) at h in
          (kept, (λ (same, is). ground (arith, kept, rw same at e, f)))),
      (λ (h, _). rw (e, f) h),
    )
    | inl f ↦ elim (str_eq_cases name other) [
      | inl same ↦ (
        (λ h. ground (arith, rw (e, f, lookup-delete, same, str_eq_self) at h)),
        (λ (h, never). absurd (never (same, ground (arith, h, rw same at e, f)))),
      )
      | inr (apart, g) ↦ (
        (λ h. (rw (e, f, lookup-delete, g) at h, (λ (same, _). apart same))),
        (λ (h, _). rw (e, f, lookup-delete, g) h),
      )
    ]
  ]
]

module _ (listed : Dict ℕ) (is : List Instance) (p : ℕ) (i j : Instance)
    (at_p : get_elem? is p ≡ some i) (same : j.service ≡ i.service) where
  is_new : (k : Instance) (q : ℕ) → p ≡ q → get_elem? (set is p j) q ≡ some k → k ≡ j
  is_new k q e h =
      let at_p' : get_elem? (set is p j) p ≡ some k = rw (← e) at h in
      let both : some k ≡ some j = sym at_p' ∙ get-set_same is p i j at_p in cc both

  is_old : (k : Instance) (q : ℕ) → p ≡ q → get_elem? is q ≡ some k → k ≡ i
  is_old k q e h =
      let at_p' : get_elem? is p ≡ some k = rw (← e) at h in
      let both : some k ≡ some i = sym at_p' ∙ at_p in cc both

  IsLive-other : (name : String) (q : ℕ) → p ≢ q → IsLive (set is p j) name q ↔ IsLive is name q
  IsLive-other name q n = (
    (λ (k, e, m, live). (k, sym (get-set_other is p q j n) ∙ e, m, live)),
    (λ (k, e, m, live). (k, get-set_other is p q j n ∙ e, m, live)),
  )

  IsLive-kept :
      j.running.resources_released ≡ i.running.resources_released
      → (name : String) (q : ℕ) → IsLive (set is p j) name q ↔ IsLive is name q
  IsLive-kept r name q = elim (ℕ-cases p q) [
    | inr n ↦ IsLive-other name q n
    | inl e ↦ (
      (λ (k, at_q, m, live).
          let new = is_new k q e at_q in
          (
            i,
            rw (← e) at_p,
            ap (λ s. s.name) (sym same) ∙ ap (λ x. x.service.name) (sym new) ∙ m,
            sym r ∙ ap (λ x. x.running.resources_released) (sym new) ∙ live,
          )),
      (λ (k, at_q, m, live).
          let old = is_old k q e at_q in
          (
            j,
            rw (← e) (get-set_same is p i j at_p),
            ap (λ s. s.name) same ∙ ap (λ x. x.service.name) (sym old) ∙ m,
            r ∙ ap (λ x. x.running.resources_released) (sym old) ∙ live,
          )),
    )
  ]

  pub IsRegistry-Listing :
      (listed' : Dict ℕ)
      → IsRegistry listed is
      → Listing p i j listed listed'
      → IsRegistry listed' (set is p j)
  IsRegistry-Listing listed' v (inl (r, e)) name q = (
    (λ h. (IsLive-kept r name q).1 ((v name q).0 (rw e at h))),
    (λ live. rw e ((v name q).1 ((IsLive-kept r name q).0 live))),
  )
  IsRegistry-Listing listed' v (inr (r, e)) name q =
      let left = lookup-without listed i.service.name name p q in
      elim (ℕ-cases p q) [
        | inr n ↦ (
          (λ h. (IsLive-other name q n).1 ((v name q).0 (left.0 (rw e at h)).0)),
          (λ live. rw e (left.1 ((v name q).1 ((IsLive-other name q n).0 live), (λ (_, f). n f)))),
        )
        | inl f ↦ (
          (λ h.
              let (kept, never) = left.0 (rw e at h) in
              let (k, at_q, m, live) = (v name q).0 kept in
              absurd (never (ap (λ x. x.service.name) (sym (is_old k q f at_q)) ∙ m, f))),
          (λ (k, at_q, m, live).
              let gone : k.running.resources_released ≡ true =
                ap (λ x. x.running.resources_released) (is_new k q f at_q) ∙ r in
              ground (arith, gone, live)),
        )
      ]
