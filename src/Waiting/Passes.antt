-- ===== src/Waiting/Passes.antt =====
-- resources.go: which registrations a pass of reserveResources makes and takes back.
use large_model_proxy.Base.{
  ◌≡◌, refl, sym, ap, value_or, delete, String, Bool, true, false, ◌&&◌, ◌||◌, [], ◌∷◌, lookup,
  Option-cases, inl, inr, some, str_eq, arith, if◌then◌else◌,
}
use large_model_proxy.Config.{Config}
use large_model_proxy.Manager.{ResourceManager, keys, adjust}
use large_model_proxy.Resources.{
  Requirements, Found, missing, pending, Pass, reserved, waits_for_checks, lacks,
  unpause_monitoring, register_first_change, handle_not_enough_resource, check_measured,
  with_pending, first_missing_static, find_first_missing_resource, deregister_change,
  take_resources, decide_pass, reserve_pass,
}
use large_model_proxy.Resources.Missing.{skipped, asked, failed, check_measured-Round}
use large_model_proxy.Waiting.Registered.{
  registered, registered-insert, registered-delete, registered-map, has,
}

-- The service is registered for the first measurement, or for a change, of the resource.
abbrev pub checks_for : String → String → ResourceManager → Bool
checks_for q k m = registered q k m.check_command_first_change_by_resource_chans

abbrev pub waits_for : String → String → ResourceManager → Bool
waits_for q k m = registered q k m.resource_change_by_resource_chans

abbrev pub then_found : String → Found → Bool → Bool
then_found q (missing r) b = false
then_found q (pending rs) b = has q rs || b

-- What a search for a missing resource in the name of n does to the registrations of any service.
abbrev Searches : String → ResourceManager → ResourceManager × Found → Type 0
Searches n m (m', f) =
    (q k : String)
    → (waits_for q k m' ≡ waits_for q k m)
      × (checks_for q k m'
          ≡ (if str_eq n k then then_found q f (checks_for q k m) else checks_for q k m))

result {ℓ} : {A : Type ℓ} {a : A} (b : A) → some a ≡ some b → b ≡ a
result b h = sym (ap (value_or b) h)

module _ (n : String) where
  asked-Searches :
      (r : String) (m m' : ResourceManager) (found : ResourceManager × Found)
      → register_first_change r n m ≡ some m'
      → Searches n (unpause_monitoring r m') found
      → Searches n m (with_pending r found)
  unfolding register_first_change unpause_monitoring
  asked-Searches r m m' found e h q k =
      elim (Option-cases (lookup r m.check_command_first_change_by_resource_chans)) [
        | inl i ↦ ground (arith, e, i)
        | inr (inner, i) ↦
            let put =
              registered-insert r n q k inner m.check_command_first_change_by_resource_chans i in
            ground (arith, e, i, put, h q k)
      ]

  failed-Searches :
      (r : String) (m : ResourceManager) → Searches n m (handle_not_enough_resource n m, missing r)
  unfolding handle_not_enough_resource
  failed-Searches r m q k =
      (refl, registered-map n q k m.check_command_first_change_by_resource_chans)

  nothing-Searches : (m : ResourceManager) → Searches n m (m, pending [])
  nothing-Searches m q k = (refl, ground arith)

  check_measured-Searches :
      (c : Config) (first : Bool) (reqs : Requirements) (m : ResourceManager)
      (found : ResourceManager × Found)
      → check_measured c n first reqs m ≡ some found
      → Searches n m found
  unfolding check_measured
  check_measured-Searches c first [] m found h = rw (result found h) (nothing-Searches m)
  check_measured-Searches c first ((r, a) ∷ reqs) m found h =
      elim (check_measured-Round c n first r a reqs m found h) [
        | skipped i fits ↦ check_measured-Searches c first reqs m found i
        | asked m' rest t i j p ↦ rw p (
            asked-Searches r m m' rest i
              (check_measured-Searches c true reqs (unpause_monitoring r m') rest j))
        | failed p t short ↦ rw p (failed-Searches r m)
      ]

  find_first_missing_resource-Searches :
      (c : Config) (first : Bool) (reqs : Requirements) (m : ResourceManager)
      (found : ResourceManager × Found)
      → find_first_missing_resource c reqs n first m ≡ some found
      → Searches n m found
  unfolding find_first_missing_resource
  find_first_missing_resource-Searches c first reqs m found h =
      elim (Option-cases (first_missing_static c m reqs)) [
        | inl e ↦
            check_measured-Searches c first reqs m found (rw (e, find_first_missing_resource) at h)
        | inr (r, e) ↦
            rw (result found (rw (e, find_first_missing_resource) at h)) (failed-Searches r m)
      ]

  deregister_change-waits_for :
      (reqs : Requirements) (m : ResourceManager) (q k : String)
      → waits_for q k (deregister_change n reqs m)
        ≡ (if str_eq n k && has q (keys reqs) then false else waits_for q k m)
  unfolding deregister_change
  deregister_change-waits_for [] m q k = ground arith
  deregister_change-waits_for ((r, a) ∷ reqs) m q k = ground (
    arith,
    deregister_change-waits_for reqs
        (record m {
          resource_change_by_resource_chans =
              adjust r (delete n) m.resource_change_by_resource_chans;
        })
        q k,
    registered-delete r n q k m.resource_change_by_resource_chans,
  )

  deregister_change-checks_for :
      (reqs : Requirements) (m : ResourceManager) (q k : String)
      → checks_for q k (deregister_change n reqs m) ≡ checks_for q k m
  unfolding deregister_change
  deregister_change-checks_for [] m q k = refl
  deregister_change-checks_for ((r, a) ∷ reqs) m q k = deregister_change-checks_for reqs _ q k

abbrev pub then_passed : String → Pass → Bool
then_passed q (waits_for_checks rs) = has q rs
then_passed q reserved = false
then_passed q (lacks r) = false

-- A pass of n leaves the registrations of the others as they are. A service that was registered nowhere
-- is registered behind it for the measurements which it waits for, and for nothing else.
abbrev pub Passed : String → ResourceManager → ResourceManager × Pass → Type 0
Passed n m (m', p) =
    (q k : String)
    → (str_eq n k ≡ false
        → (waits_for q k m' ≡ waits_for q k m) × (checks_for q k m' ≡ checks_for q k m))
      × (str_eq n k ≡ true
          → waits_for q k m ≡ false
          → checks_for q k m ≡ false
          → (waits_for q k m' ≡ false) × (checks_for q k m' ≡ then_passed q p))

decide_pass-Passed :
    (n : String) (reqs : Requirements) (m : ResourceManager) (found : ResourceManager × Found)
    → Searches n m found
    → Passed n m (decide_pass reqs n found)
unfolding take_resources
decide_pass-Passed n reqs m (m', missing r) h q k = ground (arith, h q k)
decide_pass-Passed n reqs m (m', pending []) h q k = ground (
  arith,
  h q k,
  deregister_change-waits_for n reqs m' q k,
  deregister_change-checks_for n reqs m' q k,
)
decide_pass-Passed n reqs m (m', pending (r ∷ rs)) h q k = ground (arith, h q k)

pub reserve_pass-Passed :
    (c : Config) (reqs : Requirements) (n : String) (recheck : Bool) (m : ResourceManager)
    (r : ResourceManager × Pass)
    → reserve_pass c reqs n recheck m ≡ some r
    → Passed n m r
unfolding reserve_pass
reserve_pass-Passed c reqs n recheck m r h =
    elim (Option-cases (find_first_missing_resource c reqs n recheck m)) [
      | inl e ↦ ground (arith, e, h)
      | inr (found, e) ↦ rw (result r (rw (e, reserve_pass) at h)) (
          decide_pass-Passed n reqs m found
            (find_first_missing_resource-Searches n c recheck reqs m found e))
    ]
