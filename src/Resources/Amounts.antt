-- ===== src/Resources/Amounts.antt =====
-- resources.go, lines 41-44 and 350-364: what the += and -= loops do to each resource.
use large_model_proxy.Base.{
  +ℤ_assoc, -ℤ_-ℤ, +ℤ_cancel, add-IsInt, sub-IsInt, ◌⊎◌, ◌≢◌, ◌≡◌, refl, sym, ap, ◌∙◌, String,
  false, [], ◌∷◌, Dict, lookup_or, lookup_or-insert, insert, ℤ, pos, add, sub, wrap, IsInt,
  wrap-eq_of_IsInt, wrap_add_left, wrap_sub_left, ◌+ℤ◌, ◌-ℤ◌, int_laws, +ℤ_parts, -ℤ_parts,
  str_eq_cases, if◌then◌else◌, str_eq, inl, inr, str_eq_self,
}
use large_model_proxy.Resources.{Requirements, take_amounts, release_amounts}

-- What the entries for one resource add up to.
unfoldable pub amount_of : String → Requirements → ℤ
amount_of r [] = pos 0
amount_of r ((s, a) ∷ rs) = if str_eq s r then a +ℤ amount_of r rs else amount_of r rs

-- The amount of a resource that a map holds.
abbrev pub held : String → Dict ℤ → ℤ
held r m = lookup_or (pos 0) r m

added : (h a b : ℤ) → wrap (add h a +ℤ b) ≡ wrap (h +ℤ (a +ℤ b))
unfolding add
added h a b = wrap_add_left (h +ℤ a) b ∙ ap wrap (+ℤ_assoc h a b)

subtracted : (h a b : ℤ) → wrap (sub h a -ℤ b) ≡ wrap (h -ℤ (a +ℤ b))
unfolding sub
subtracted h a b = wrap_sub_left (h -ℤ a) b ∙ ap wrap (-ℤ_-ℤ h a b)

pub take_amounts-wrap :
    (r : String) (reqs : Requirements) (m : Dict ℤ)
    → wrap (held r (take_amounts reqs m)) ≡ wrap (held r m +ℤ amount_of r reqs)
unfolding take_amounts amount_of
take_amounts-wrap r [] m = ap wrap (omega (int_laws, +ℤ_parts (held r m) (pos 0)))
take_amounts-wrap r ((s, a) ∷ reqs) m = elim (str_eq_cases s r) [
  | inl e ↦
      take_amounts-wrap r reqs _
      ∙ rw (lookup_or-insert (pos 0) s r (add (held s m) a) m, e, str_eq_self r)
          (added (held r m) a (amount_of r reqs))
  | inr (_, e) ↦
      take_amounts-wrap r reqs _ ∙ rw (lookup_or-insert (pos 0) s r (add (held s m) a) m, e) refl
]

pub release_amounts-wrap :
    (r : String) (reqs : Requirements) (m : Dict ℤ)
    → wrap (held r (release_amounts reqs m)) ≡ wrap (held r m -ℤ amount_of r reqs)
unfolding release_amounts amount_of
release_amounts-wrap r [] m = ap wrap (omega (int_laws, -ℤ_parts (held r m) (pos 0)))
release_amounts-wrap r ((s, a) ∷ reqs) m = elim (str_eq_cases s r) [
  | inl e ↦
      release_amounts-wrap r reqs _
      ∙ rw (lookup_or-insert (pos 0) s r (sub (held s m) a) m, e, str_eq_self r)
          (subtracted (held r m) a (amount_of r reqs))
  | inr (_, e) ↦
      release_amounts-wrap r reqs _ ∙ rw (lookup_or-insert (pos 0) s r (sub (held s m) a) m, e) refl
]

take_amounts-IsInt :
    (r : String) (reqs : Requirements) (m : Dict ℤ)
    → IsInt (held r m)
    → IsInt (held r (take_amounts reqs m))
unfolding take_amounts
take_amounts-IsInt r [] m h = h
take_amounts-IsInt r ((s, a) ∷ reqs) m h = take_amounts-IsInt r reqs _ (stored (str_eq_cases s r))
  where
    stored :
        (s ≡ r) ⊎ ((s ≢ r) × (str_eq s r ≡ false)) → IsInt (held r (insert s (add (held s m) a) m))
    stored (inl e) =
        rw (lookup_or-insert (pos 0) s r (add (held s m) a) m, e, str_eq_self r)
          (add-IsInt (held r m) a)
    stored (inr (_, e)) = rw (lookup_or-insert (pos 0) s r (add (held s m) a) m, e) h

release_amounts-IsInt :
    (r : String) (reqs : Requirements) (m : Dict ℤ)
    → IsInt (held r m)
    → IsInt (held r (release_amounts reqs m))
unfolding release_amounts
release_amounts-IsInt r [] m h = h
release_amounts-IsInt r ((s, a) ∷ reqs) m h =
    release_amounts-IsInt r reqs _ (stored (str_eq_cases s r))
  where
    stored :
        (s ≡ r) ⊎ ((s ≢ r) × (str_eq s r ≡ false)) → IsInt (held r (insert s (sub (held s m) a) m))
    stored (inl e) =
        rw (lookup_or-insert (pos 0) s r (sub (held s m) a) m, e, str_eq_self r)
          (sub-IsInt (held r m) a)
    stored (inr (_, e)) = rw (lookup_or-insert (pos 0) s r (sub (held s m) a) m, e) h

-- The += loop adds to each resource what the entries for it add up to, as a 64-bit sum.
pub held-take_amounts :
    (r : String) (reqs : Requirements) (m : Dict ℤ)
    → IsInt (held r m)
    → held r (take_amounts reqs m) ≡ wrap (held r m +ℤ amount_of r reqs)
held-take_amounts r reqs m h =
    sym (wrap-eq_of_IsInt _ (take_amounts-IsInt r reqs m h)) ∙ take_amounts-wrap r reqs m

pub held-release_amounts :
    (r : String) (reqs : Requirements) (m : Dict ℤ)
    → IsInt (held r m)
    → held r (release_amounts reqs m) ≡ wrap (held r m -ℤ amount_of r reqs)
held-release_amounts r reqs m h =
    sym (wrap-eq_of_IsInt _ (release_amounts-IsInt r reqs m h)) ∙ release_amounts-wrap r reqs m

-- Giving back what was taken leaves every resource as it was, also where the sums wrapped.
pub release_amounts-take_amounts :
    (r : String) (reqs : Requirements) (m : Dict ℤ)
    → IsInt (held r m)
    → held r (release_amounts reqs (take_amounts reqs m)) ≡ held r m
release_amounts-take_amounts r reqs m h =
    held-release_amounts r reqs (take_amounts reqs m) (take_amounts-IsInt r reqs m h)
    ∙ ap (λ z. wrap (z -ℤ amount_of r reqs)) (held-take_amounts r reqs m h)
    ∙ wrap_sub_left (held r m +ℤ amount_of r reqs) (amount_of r reqs)
    ∙ ap wrap (+ℤ_cancel (held r m) (amount_of r reqs))
    ∙ wrap-eq_of_IsInt (held r m) h
