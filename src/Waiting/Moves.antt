-- ===== src/Waiting/Moves.antt =====
-- resources.go, reserveResources: where a waiting service is registered, step by step.
use large_model_proxy.Base.{
  ◌≡◌, refl, sym, ap, value_or, delete, lookup, String, Bool, true, false, ◌&&◌, List, [], ◌∷◌,
  Dict, Option, Option-cases, Bool-cases, inl, inr, none, some, str_eq, arith, if◌then◌else◌,
}
use large_model_proxy.Config.{Config, ServiceConfig}
use large_model_proxy.Manager.{ResourceManager, Channel, adjust}
use large_model_proxy.Resources.{
  Requirements, Pass, reserved, waits_for_checks, lacks, reserve_pass,
}
use large_model_proxy.Eviction.{find_earliest_last_used_service}
use large_model_proxy.Waiting.{
  Phase, idle, deciding, awaiting, lacking, stopping, listening, selecting, returned, panicked,
  Move, begins, passes, checks, stopped, listens, receives, times_out, client_leaves, finds,
  channel_of, cleanup_first_change_channels, receive_check, register_change, remove_change,
  receive_change, begin, after_pass, after_search, move,
}
use large_model_proxy.Waiting.Registered.{
  registered-insert, registered-delete, registered-empty, has,
}
use large_model_proxy.Waiting.Passes.{checks_for, waits_for, Passed, reserve_pass-Passed}

-- The resources for which a service in a phase is registered.
abbrev pub checks_in : Phase → String → Bool
checks_in (awaiting rs left) q = has q rs
checks_in _ q = false

abbrev pub waits_in : Phase → String → Bool
waits_in (selecting r) q = str_eq r q
waits_in _ q = false

-- What a step of the service n does to the registrations for a resource q: another service's stay, and
-- its own are those of its phase again.
abbrev pub Moved : String → Phase → ResourceManager → ResourceManager × Phase → Type 0
Moved n ph m (m', ph') =
    (q k : String)
    → (str_eq n k ≡ false
        → (waits_for q k m' ≡ waits_for q k m) × (checks_for q k m' ≡ checks_for q k m))
      × (str_eq n k ≡ true
          → waits_for q k m ≡ waits_in ph q
          → checks_for q k m ≡ checks_in ph q
          → (waits_for q k m' ≡ waits_in ph' q) × (checks_for q k m' ≡ checks_in ph' q))

result {ℓ} : {A : Type ℓ} {a : A} (b : A) → some a ≡ some b → b ≡ a
result b h = sym (ap (value_or b) h)

module _ (n : String) where
  cleanup-waits_for :
      (rs : List String) (m : ResourceManager) (q k : String)
      → waits_for q k (cleanup_first_change_channels rs n m) ≡ waits_for q k m
  unfolding cleanup_first_change_channels
  cleanup-waits_for [] m q k = refl
  cleanup-waits_for (r ∷ rs) m q k = cleanup-waits_for rs _ q k

  cleanup-checks_for :
      (rs : List String) (m : ResourceManager) (q k : String)
      → checks_for q k (cleanup_first_change_channels rs n m)
        ≡ (if str_eq n k && has q rs then false else checks_for q k m)
  unfolding cleanup_first_change_channels
  cleanup-checks_for [] m q k = ground arith
  cleanup-checks_for (r ∷ rs) m q k = ground (
    arith,
    cleanup-checks_for rs
        (record m {
          check_command_first_change_by_resource_chans =
              adjust r (delete n) m.check_command_first_change_by_resource_chans;
        })
        q k,
    registered-delete r n q k m.check_command_first_change_by_resource_chans,
  )

  cleanup-Moved :
      (rs left : List String) (m : ResourceManager) (ph : Phase)
      → ((q : String) → (waits_in ph q ≡ false) × (checks_in ph q ≡ false))
      → Moved n (awaiting rs left) m (cleanup_first_change_channels rs n m, ph)
  cleanup-Moved rs left m ph none_in q k =
      ground (arith, none_in q, cleanup-waits_for rs m q k, cleanup-checks_for rs m q k)

  remove-Moved :
      (r : String) (m : ResourceManager) (ph : Phase)
      → ((q : String) → (waits_in ph q ≡ false) × (checks_in ph q ≡ false))
      → Moved n (selecting r) m (remove_change r n m, ph)
  unfolding remove_change
  remove-Moved r m ph none_in q k =
      ground (arith, none_in q, registered-delete r n q k m.resource_change_by_resource_chans)

  register-Moved :
      (r : String) (m m' : ResourceManager)
      → register_change r n m ≡ some m'
      → Moved n (listening r) m (m', selecting r)
  unfolding register_change
  register-Moved r m m' e q k = elim (Option-cases (lookup r m.resource_change_by_resource_chans)) [
    | inl i ↦ ground (arith, e, i)
    | inr (inner, i) ↦
        ground (arith, e, i, registered-insert r n q k inner m.resource_change_by_resource_chans i)
  ]

  emptied-Moved :
      (r : String) (rs left : List String) (m m' : ResourceManager)
      → receive_check r n m ≡ some m'
      → Moved n (awaiting rs (r ∷ left)) m (m', awaiting rs left)
  unfolding receive_check
  emptied-Moved r rs left m m' e q k =
      elim (Option-cases (channel_of r n m.check_command_first_change_by_resource_chans)) [
        | inl i ↦ ground (arith, e, i)
        | inr (c, i) ↦ ground (
          arith,
          e,
          i,
          registered-empty r n q k c m.check_command_first_change_by_resource_chans i,
        )
      ]

  stayed-Moved :
      (m : ResourceManager) (ph ph' : Phase)
      → ((q : String) → (waits_in ph q ≡ waits_in ph' q) × (checks_in ph q ≡ checks_in ph' q))
      → Moved n ph m (m, ph')
  stayed-Moved m ph ph' same q k = ground (arith, same q)

  after_pass-Moved :
      (recheck : Bool) (m m' : ResourceManager) (p : Pass)
      → Passed n m (m', p)
      → Moved n (deciding recheck) m (m', after_pass p)
  after_pass-Moved recheck m m' reserved h q k = ground (arith, h q k)
  after_pass-Moved recheck m m' (waits_for_checks rs) h q k = ground (arith, h q k)
  after_pass-Moved recheck m m' (lacks r) h q k = ground (arith, h q k)

  begin-quiet :
      (reqs : Requirements) (q : String)
      → (waits_in (begin reqs) q ≡ false) × (checks_in (begin reqs) q ≡ false)
  begin-quiet [] q = (refl, refl)
  begin-quiet (_ ∷ _) q = (refl, refl)

  after_search-quiet :
      (r : String) (found : Option String) (q : String)
      → (waits_in (after_search r found) q ≡ false) × (checks_in (after_search r found) q ≡ false)
  after_search-quiet r none q = (refl, refl)
  after_search-quiet r (some name) q = elim (Bool-cases (str_eq name "")) [
    | inl e ↦ rw e (refl, refl)
    | inr e ↦ rw e (refl, refl)
  ]

  receive_change-removes :
      (r : String) (m : ResourceManager) (u : ResourceManager × Bool)
      → receive_change r n m ≡ some u
      → u.0 ≡ remove_change r n m
  unfolding receive_change
  receive_change-removes r m u e =
      received_from (channel_of r n m.resource_change_by_resource_chans) e
    where
      received_from :
          (c : Option (Channel Bool))
          → elim c [
            | none ↦ none
            | some none ↦ none
            | some (some b) ↦ some (remove_change r n m, b)
          ]
            ≡ some u
          → u.0 ≡ remove_change r n m
      received_from none i = ground (arith, i)
      received_from (some none) i = ground (arith, i)
      received_from (some (some b)) i = ap (λ p. p.0) (result u i)

  receive-Moved :
      (r : String) (m : ResourceManager) (u : ResourceManager × Bool)
      → receive_change r n m ≡ some u
      → Moved n (selecting r) m (u.0, deciding u.1)
  receive-Moved r m u e =
      rw (receive_change-removes r m u e) (remove-Moved r m (deciding u.1) (λ q. (refl, refl)))

  pub move-Moved :
      (c : Config) (configs : Dict ServiceConfig) (s : ServiceConfig) (ph : Phase) (a : Move)
      (m : ResourceManager) (u : ResourceManager × Phase)
      → s.name ≡ n
      → move c configs s ph a m ≡ some u
      → Moved n ph m u
  unfolding move
  move-Moved c configs s idle begins m u e h = rw (result u h) (
      stayed-Moved m idle (begin s.resource_requirements)
        (λ q. ground (arith, begin-quiet s.resource_requirements q)))
  move-Moved c configs s (returned b) begins m u e h = rw (result u h) (
      stayed-Moved m (returned b) (begin s.resource_requirements)
        (λ q. ground (arith, begin-quiet s.resource_requirements q)))
  move-Moved c configs s (deciding recheck) passes m u e h =
      elim (Option-cases (reserve_pass c s.resource_requirements s.name recheck m)) [
        | inl i ↦
            rw (result u (rw (i, move) at h))
              (stayed-Moved m (deciding recheck) panicked (λ q. (refl, refl)))
        | inr ((m', p), i) ↦ rw (result u (rw (i, move) at h)) (
            after_pass-Moved recheck m m' p
              (rw e at (reserve_pass-Passed c s.resource_requirements s.name recheck m (m', p) i)))
      ]
  move-Moved c configs s (awaiting rs []) checks m u e h =
      rw (result u h, e) (cleanup-Moved rs [] m (deciding false) (λ q. (refl, refl)))
  move-Moved c configs s (awaiting rs (r ∷ left)) times_out m u e h =
      rw (result u h, e) (cleanup-Moved rs (r ∷ left) m (returned false) (λ q. (refl, refl)))
  move-Moved c configs s (awaiting rs (r ∷ left)) client_leaves m u e h =
      rw (result u h, e) (cleanup-Moved rs (r ∷ left) m (returned false) (λ q. (refl, refl)))
  move-Moved c configs s (awaiting rs (r ∷ left)) checks m u e h =
      elim (Option-cases (receive_check r s.name m)) [
        | inl i ↦ ground (arith, h, i)
        | inr (m', i) ↦ rw (result u (rw (i, move) at h)) (emptied-Moved r rs left m m' (rw e at i))
      ]
  move-Moved c configs s (lacking r) (finds heap now) m u e h = rw (result u h) (
      stayed-Moved m (lacking r) _ (λ q.
        let (a, b) =
          after_search-quiet r
            (find_earliest_last_used_service
              (record { configs = configs; heap = heap; manager = m }) s.name r now)
            q in
        (sym a, sym b)))
  move-Moved c configs s (stopping name) stopped m u e h =
      rw (result u h) (stayed-Moved m (stopping name) (deciding true) (λ q. (refl, refl)))
  move-Moved c configs s (listening r) listens m u e h =
      elim (Option-cases (register_change r s.name m)) [
        | inl i ↦
            rw (result u (rw (i, move) at h))
              (stayed-Moved m (listening r) panicked (λ q. (refl, refl)))
        | inr (m', i) ↦ rw (result u (rw (i, move) at h)) (register-Moved r m m' (rw e at i))
      ]
  move-Moved c configs s (selecting r) receives m u e h =
      elim (Option-cases (receive_change r s.name m)) [
        | inl i ↦ ground (arith, h, i)
        | inr ((m', b), i) ↦
            rw (result u (rw (i, move) at h)) (receive-Moved r m (m', b) (rw e at i))
      ]
  move-Moved c configs s (selecting r) times_out m u e h =
      rw (result u h, e) (remove-Moved r m (returned false) (λ q. (refl, refl)))
  move-Moved c configs s (selecting r) client_leaves m u e h =
      rw (result u h, e) (remove-Moved r m (returned false) (λ q. (refl, refl)))
  move-Moved c configs s ph a m u e h = ground (arith, h)
