-- ===== src/Resources/Missing.antt =====
-- resources.go, lines 150-319: what a search for a missing resource finds, resource by resource.
use large_model_proxy.Base.{
  ◌≡◌, refl, sym, ap, ◌∙◌, String, Bool, true, false, [], ◌∷◌, none, some, ℤ, ltb_ℤ, sub, arith,
  All, Any, inl, inr, ◌≢◌, Bool-cases, Option-cases,
}
use large_model_proxy.Config.{Config, is_blank}
use large_model_proxy.Manager.{ResourceManager}
use large_model_proxy.Resources.{
  Requirements, resource_of, handle_not_enough_resource, first_missing_static, is_enough_resource,
  Found, missing, pending, unpause_monitoring, register_first_change, check_measured, with_pending,
}
use large_model_proxy.Resources.Amounts.{held}

-- All fields but the channels.
pub record SameAmounts (m m' : ResourceManager) : Type 0 where
  pub in_use : m'.resources_in_use ≡ m.resources_in_use
  pub reserved : m'.resources_reserved ≡ m.resources_reserved
  pub available : m'.resources_available ≡ m.resources_available
  pub running : m'.running_services ≡ m.running_services

-- Enough of a resource is free: by the books without a CheckCommand, by its last measurement with one.
abbrev pub Fits : Config → ResourceManager → String × ℤ → Type 0
Fits c m (r, required) =
    (is_blank (resource_of c r).check_command ≡ true
      → ltb_ℤ (sub (resource_of c r).amount (held r m.resources_in_use)) required ≡ false)
    × (is_blank (resource_of c r).check_command ≡ false → is_enough_resource m r required ≡ true)

abbrev pub FitsStatic : Config → ResourceManager → String × ℤ → Type 0
FitsStatic c m (r, required) =
    is_blank (resource_of c r).check_command ≡ true
    → ltb_ℤ (sub (resource_of c r).amount (held r m.resources_in_use)) required ≡ false

abbrev pub LacksMeasured : Config → ResourceManager → String → String × ℤ → Type 0
LacksMeasured c m s (r, required) =
    (r ≡ s)
    × (is_blank (resource_of c r).check_command ≡ false)
    × (is_enough_resource m r required ≡ false)

abbrev pub FitsMeasured : Config → ResourceManager → String × ℤ → Type 0
FitsMeasured c m (r, required) =
    is_blank (resource_of c r).check_command ≡ false → is_enough_resource m r required ≡ true

pub first_missing_static-none :
    (c : Config) (m : ResourceManager) (reqs : Requirements)
    → first_missing_static c m reqs ≡ none
    → All (FitsStatic c m) reqs
unfolding first_missing_static
first_missing_static-none c m [] h = tt
first_missing_static-none c m ((r, a) ∷ reqs) h = ground (arith, first_missing_static-none c m reqs)

abbrev pub LacksStatic : Config → ResourceManager → String → String × ℤ → Type 0
LacksStatic c m s (r, required) =
    (r ≡ s)
    × (is_blank (resource_of c r).check_command ≡ true)
    × (ltb_ℤ (sub (resource_of c r).amount (held r m.resources_in_use)) required ≡ true)

pub first_missing_static-some :
    (c : Config) (m : ResourceManager) (reqs : Requirements) (s : String)
    → first_missing_static c m reqs ≡ some s
    → Any (LacksStatic c m s) reqs
unfolding first_missing_static
first_missing_static-some c m [] s h = cc
first_missing_static-some c m ((r, a) ∷ reqs) s h =
    ground (arith, first_missing_static-some c m reqs s)

pub register_first_change-SameAmounts :
    (r requesting : String) (m m' : ResourceManager)
    → register_first_change r requesting m ≡ some m'
    → SameAmounts m (unpause_monitoring r m')
unfolding register_first_change unpause_monitoring
register_first_change-SameAmounts r requesting m m' h = ground arith

SameAmounts-trans :
    {m m' m'' : ResourceManager} → SameAmounts m m' → SameAmounts m' m'' → SameAmounts m m''
SameAmounts-trans h k = record {
  in_use = k.in_use ∙ h.in_use;
  reserved = k.reserved ∙ h.reserved;
  available = k.available ∙ h.available;
  running = k.running ∙ h.running;
}

-- What check_measured returns: the manager but for its channels; `pending []` only where every
-- measured requirement fits; and a missing resource only where a measured requirement does not fit.
abbrev pub Checked : Config → Requirements → ResourceManager → ResourceManager × Found → Type 0
Checked c reqs m (m', f) =
    SameAmounts m m'
    × (f ≡ pending [] → All (FitsMeasured c m) reqs)
    × ((r : String) → f ≡ missing r → Any (LacksMeasured c m r) reqs)

pub Checked-skip :
    (c : Config) (e : String × ℤ) (reqs : Requirements) (m : ResourceManager)
    (r : ResourceManager × Found)
    → FitsMeasured c m e
    → Checked c reqs m r
    → Checked c (e ∷ reqs) m r
Checked-skip c e reqs m r fits (same, all, lack) =
    (same, (λ p. (fits, all p)), (λ s p. inr (lack s p)))

pub Checked-pending :
    (c : Config) (e : String × ℤ) (reqs : Requirements) (m m' : ResourceManager)
    (r : ResourceManager × Found)
    → SameAmounts m m'
    → ((s : String) → r.1 ≢ missing s)
    → SameAmounts m' r.0
    → Checked c (e ∷ reqs) m (with_pending e.0 r)
Checked-pending c e reqs m m' (n, missing s) same never next = absurd (never s refl)
Checked-pending c e reqs m m' (n, pending rs) same never next =
    (SameAmounts-trans same next, (λ p. cc), (λ s p. cc))

-- How a round of check_measured comes to its result.
pub data Round (c : Config) (requesting : String) (first : Bool) (k : String) (a : ℤ)
    (reqs : Requirements) (m : ResourceManager) (r : ResourceManager × Found) : Type 0 where
  skipped :
      check_measured c requesting first reqs m ≡ some r
      → FitsMeasured c m (k, a)
      → Round c requesting first k a reqs m r
  asked :
      (m' : ResourceManager) (r' : ResourceManager × Found)
      → first ≡ true
      → register_first_change k requesting m ≡ some m'
      → check_measured c requesting true reqs (unpause_monitoring k m') ≡ some r'
      → r ≡ with_pending k r'
      → Round c requesting first k a reqs m r
  failed :
      r ≡ (handle_not_enough_resource requesting m, missing k)
      → first ≡ false
      → LacksMeasured c m k (k, a)
      → Round c requesting first k a reqs m r

module _ (c : Config) (requesting : String) (k : String) (a : ℤ) (reqs : Requirements)
    (m : ResourceManager) (r : ResourceManager × Found)
    (b : is_blank (resource_of c k).check_command ≡ false) where
  asked-Round :
      check_measured c requesting true ((k, a) ∷ reqs) m ≡ some r
      → Round c requesting true k a reqs m r
  unfolding check_measured
  asked-Round h = elim (Option-cases (register_first_change k requesting m)) [
    | inl e ↦ ground (arith, e)
    | inr (m', e) ↦
        elim (Option-cases (check_measured c requesting true reqs (unpause_monitoring k m'))) [
          | inl i ↦ ground (arith, e, i)
          | inr (r', i) ↦ asked m' r' refl e i (ground (arith, e, i))
        ]
  ]

  trusted-Round :
      check_measured c requesting false ((k, a) ∷ reqs) m ≡ some r
      → Round c requesting false k a reqs m r
  unfolding check_measured
  trusted-Round h = elim (Bool-cases (is_enough_resource m k a)) [
    | inl e ↦ skipped (ground arith) (λ _. e)
    | inr e ↦ failed (ground arith) refl (refl, b, e)
  ]

measured-Round :
    (c : Config) (requesting : String) (first : Bool) (k : String) (a : ℤ) (reqs : Requirements)
    (m : ResourceManager) (r : ResourceManager × Found)
    → is_blank (resource_of c k).check_command ≡ false
    → check_measured c requesting first ((k, a) ∷ reqs) m ≡ some r
    → Round c requesting first k a reqs m r
measured-Round c requesting true k a reqs m r b h = asked-Round c requesting k a reqs m r b h
measured-Round c requesting false k a reqs m r b h = trusted-Round c requesting k a reqs m r b h

pub check_measured-Round :
    (c : Config) (requesting : String) (first : Bool) (k : String) (a : ℤ) (reqs : Requirements)
    (m : ResourceManager) (r : ResourceManager × Found)
    → check_measured c requesting first ((k, a) ∷ reqs) m ≡ some r
    → Round c requesting first k a reqs m r
unfolding check_measured
check_measured-Round c requesting first k a reqs m r h =
    elim (Bool-cases (is_blank (resource_of c k).check_command)) [
      | inl b ↦ skipped (ground arith) (λ e. cc)
      | inr b ↦ measured-Round c requesting first k a reqs m r b h
    ]

-- A fresh measurement is asked for, so nothing is found missing yet.
with_pending-missing :
    (k s : String) (r : ResourceManager × Found)
    → (with_pending k r).1 ≡ missing s
    → r.1 ≡ missing s
with_pending-missing k s (m, missing t) h = h
with_pending-missing k s (m, pending rs) h = cc

pub check_measured-first :
    (c : Config) (requesting : String) (reqs : Requirements) (m : ResourceManager)
    (r : ResourceManager × Found) (s : String)
    → check_measured c requesting true reqs m ≡ some r
    → r.1 ≢ missing s
check_measured-first c requesting [] m r s h e = unfold check_measured in cc
check_measured-first c requesting ((k, a) ∷ reqs) m r s h e =
    elim (check_measured-Round c requesting true k a reqs m r h) [
      | skipped i fits ↦ check_measured-first c requesting reqs m r s i e
      | asked m' r' t i j p ↦
          check_measured-first c requesting reqs (unpause_monitoring k m') r' s j
            (with_pending-missing k s r' (ap (λ q. q.1) (sym p) ∙ e))
      | failed p t lacks ↦ cc
    ]
