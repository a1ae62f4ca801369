-- ===== src/Resources/Reserve.antt =====
-- resources.go, lines 32-49: one round of reserveResources, from the lock to the unlock.
use large_model_proxy.Base.{
  insert, ◌≡◌, refl, ap, subst, ◌∙◌, String, Bool, true, false, [], ◌∷◌, lookup, none, some, ℤ,
  arith, All, Any, inl, inr, ◌≢◌, Bool-cases, Option-cases, lookup-insert,
}
use large_model_proxy.Config.{Config, is_blank}
use large_model_proxy.Manager.{ResourceManager}
use large_model_proxy.Resources.{
  Requirements, resource_of, take_amounts, Found, missing, pending, find_first_missing_resource,
  Pass, reserved, waits_for_checks, lacks, deregister_change, take_resources, reserve_pass,
  decide_pass, check_measured, register_first_change, unpause_monitoring,
}
use large_model_proxy.Resources.Missing.{SameAmounts, Fits}
use large_model_proxy.Resources.Search.{Lacks, Searched, find_first_missing_resource-Searched}

deregister_change-SameAmounts :
    (q : String) (reqs : Requirements) (m : ResourceManager)
    → SameAmounts m (deregister_change q reqs m)
unfolding deregister_change
deregister_change-SameAmounts q [] m = record {
  in_use = refl;
  reserved = refl;
  available = refl;
  running = refl;
}
deregister_change-SameAmounts q ((r, a) ∷ reqs) m =
    let ih = deregister_change-SameAmounts q reqs _ in
    record {
      in_use = ih.in_use;
      reserved = ih.reserved;
      available = ih.available;
      running = ih.running;
    }

-- What a round promises by the way that it ends.
abbrev pub Outcome : Config → Requirements → ResourceManager → ResourceManager → Pass → Type 0
Outcome c reqs m m' reserved =
    All (Fits c m) reqs
    × (m'.resources_in_use ≡ take_amounts reqs m.resources_in_use)
    × (m'.resources_reserved ≡ take_amounts reqs m.resources_reserved)
    × (m'.resources_available ≡ m.resources_available)
    × (m'.running_services ≡ m.running_services)
Outcome c reqs m m' (waits_for_checks rs) = SameAmounts m m'
Outcome c reqs m m' (lacks r) = SameAmounts m m' × Any (Lacks c m r) reqs

decide_pass-Outcome :
    (c : Config) (reqs : Requirements) (q : String) (m : ResourceManager)
    (r : ResourceManager × Found)
    → Searched c reqs m r
    → Outcome c reqs m (decide_pass reqs q r).0 (decide_pass reqs q r).1
decide_pass-Outcome c reqs q m (n, missing s) (same, fits, lack) = (same, lack s refl)
decide_pass-Outcome c reqs q m (n, pending (r ∷ rs)) (same, fits, lack) = same
decide_pass-Outcome c reqs q m (n, pending []) (same, fits, lack) =
    let off = deregister_change-SameAmounts q reqs n in
    unfold take_resources in
    (
      fits refl,
      ap (take_amounts reqs) (off.in_use ∙ same.in_use),
      ap (take_amounts reqs) (off.reserved ∙ same.reserved),
      off.available ∙ same.available,
      off.running ∙ same.running,
    )

-- A round takes every amount, from the books of the running and of the starting services alike, only
-- where all of them fit; otherwise it takes none, and the resource that it names lacks.
pub reserve_pass-Outcome :
    (c : Config) (reqs : Requirements) (q : String) (recheck : Bool) (m m' : ResourceManager)
    (p : Pass)
    → reserve_pass c reqs q recheck m ≡ some (m', p)
    → Outcome c reqs m m' p
unfolding reserve_pass
reserve_pass-Outcome c reqs q recheck m m' p h =
    elim (Option-cases (find_first_missing_resource c reqs q recheck m)) [
      | inl e ↦ ground (arith, e)
      | inr (r, e) ↦
          let same : decide_pass reqs q r ≡ (m', p) = ground (arith, e) in
          subst (λ x. Outcome c reqs m x.0 x.1) same
            (decide_pass-Outcome c reqs q m r
              (find_first_missing_resource-Searched c reqs q recheck m r e))
    ]

-- A requirement that has a CheckCommand has its map of waiting services.
abbrev pub HasChannels : Config → ResourceManager → String × ℤ → Type 0
HasChannels c m (r, required) =
    is_blank (resource_of c r).check_command ≡ false
    → lookup r m.check_command_first_change_by_resource_chans ≢ none

register-HasChannels :
    (c : Config) (k q : String) (m m' : ResourceManager) (e : String × ℤ)
    → register_first_change k q m ≡ some m'
    → HasChannels c m e
    → HasChannels c (unpause_monitoring k m') e
unfolding register_first_change unpause_monitoring
register-HasChannels c k q m m' e h has b =
    let old = has b in
    elim (Option-cases (lookup k m.check_command_first_change_by_resource_chans)) [
      | inl i ↦ ground (arith, i)
      | inr (chans, i) ↦ ground (
        arith,
        i,
        old,
        lookup-insert k e.0 (insert q none chans) m.check_command_first_change_by_resource_chans,
      )
    ]

register-All :
    (c : Config) (k q : String) (m m' : ResourceManager) (reqs : Requirements)
    → register_first_change k q m ≡ some m'
    → All (HasChannels c m) reqs
    → All (HasChannels c (unpause_monitoring k m')) reqs
register-All c k q m m' [] h has = tt
register-All c k q m m' (e ∷ reqs) h has =
    (register-HasChannels c k q m m' e h has.0, register-All c k q m m' reqs h has.1)

register-none :
    (k q : String) (m : ResourceManager)
    → register_first_change k q m ≡ none
    → lookup k m.check_command_first_change_by_resource_chans ≡ none
unfolding register_first_change
register-none k q m h = ground arith

check_measured-total :
    (c : Config) (q : String) (first : Bool) (reqs : Requirements) (m : ResourceManager)
    → All (HasChannels c m) reqs
    → check_measured c q first reqs m ≢ none
unfolding check_measured
check_measured-total c q first [] m has e = cc
check_measured-total c q first ((k, a) ∷ reqs) m has e =
    let rest = check_measured-total c q first reqs m has.1 in
    elim (Bool-cases (is_blank (resource_of c k).check_command)) [
      | inl b ↦ ground (arith, b, rest)
      | inr b ↦ elim (Option-cases (register_first_change k q m)) [
        | inl i ↦ has.0 b (register-none k q m i)
        | inr (m', i) ↦ ground (
          arith,
          b,
          i,
          rest,
          check_measured-total c q true reqs (unpause_monitoring k m')
              (register-All c k q m m' reqs i has.1),
        )
      ]
    ]

-- A round never panics while each required resource that has a CheckCommand has its map of channels.
pub reserve_pass-total :
    (c : Config) (reqs : Requirements) (q : String) (recheck : Bool) (m : ResourceManager)
    → All (HasChannels c m) reqs
    → reserve_pass c reqs q recheck m ≢ none
unfolding reserve_pass find_first_missing_resource
reserve_pass-total c reqs q recheck m h e =
    let total = check_measured-total c q recheck reqs m h in ground (arith, total)
