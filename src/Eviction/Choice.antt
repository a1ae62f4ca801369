-- ===== src/Eviction/Choice.antt =====
-- resources.go, findEarliestLastUsedServiceUsingResource: the service it names.
use large_model_proxy.Base.{
  ℕ, ◌≤◌, ◌<◌, ◌≡◌, refl, ap, ◌∙◌, String, true, false, [], ◌∷◌, Dict, lookup, lookup_or, some, pos,
  ltb, get_elem?, str_eq, arith, All, Any, inl, inr, ◌⊎◌, Bool-cases, Option-cases,
}
use large_model_proxy.Config.{ServiceConfig}
use large_model_proxy.Manager.{RunningService, is_zero, no_connections}
use large_model_proxy.Eviction.{
  Scene, Earliest, can_be_stopped, consider, earliest_of, find_earliest_last_used_service, weigh,
}

-- A service that may give way: another one than the asking one, which requires the resource, is not
-- being started or stopped, serves no connection, and was last used at the time `used`.
pub record IsCandidate (w : Scene) (requesting missing name : String) (p used : ℕ) : Type 0 where
  pub other : str_eq name requesting ≡ false
  pub config : ServiceConfig
  pub configured : lookup name w.configs ≡ some config
  pub requires : is_zero (lookup_or (pos 0) missing config.resource_requirements) ≡ false
  pub running : RunningService
  pub points : get_elem? w.heap p ≡ some running
  pub free : running.manage_mutex ≡ false
  pub unused : is_zero (lookup_or no_connections name w.manager.connection_stats).proxied ≡ true
  pub last : running.last_used ≡ some used

can_be_stopped-free :
    (w : Scene) (name : String) (running : RunningService)
    → can_be_stopped w.manager name running ≡ true
    → (running.manage_mutex ≡ false)
      × (is_zero (lookup_or no_connections name w.manager.connection_stats).proxied ≡ true)
unfolding can_be_stopped
can_be_stopped-free w name running h = (ground (arith, h), ground (arith, h))

pub can_be_stopped_if :
    (w : Scene) (name : String) (running : RunningService)
    → running.manage_mutex ≡ false
    → is_zero (lookup_or no_connections name w.manager.connection_stats).proxied ≡ true
    → can_be_stopped w.manager name running ≡ true
unfolding can_be_stopped
can_be_stopped_if w name running h k = ground (arith, h, k)

module _ (w : Scene) (requesting missing : String) where
  -- One entry: the best so far stays, or the entry is a candidate that was used before it.
  abbrev Considered : String → ℕ → Earliest → Earliest → Type 0
  Considered name p best next =
      ((used : ℕ) → IsCandidate w requesting missing name p used → next.0 ≤ used)
      × (next.0 ≤ best.0)
      × ((next ≡ best)
          ⊎ ((next.1 ≡ name) × IsCandidate w requesting missing name p next.0 × (next.0 < best.0)))

  stays :
      (name : String) (p : ℕ) (best next : Earliest)
      → next ≡ best
      → ((used : ℕ) → IsCandidate w requesting missing name p used → best.0 ≤ used)
      → Considered name p best next
  stays name p best next e h = ((λ used c. ground (arith, e, h used c)), ground (arith, e), inl e)

  -- The entry's instance and its config are found; the candidate is this one or there is none.
  weigh-Considered :
      (name : String) (p : ℕ) (best : Earliest) (s : ServiceConfig) (running : RunningService)
      → str_eq name requesting ≡ false
      → lookup name w.configs ≡ some s
      → is_zero (lookup_or (pos 0) missing s.resource_requirements) ≡ false
      → get_elem? w.heap p ≡ some running
      → Considered name p best (weigh w name running best)
  weigh-Considered name p best s running other configured requires points =
      elim (Bool-cases (can_be_stopped w.manager name running)) [
        | inr held ↦ rw held (
            stays name p best best refl (λ used c.
              (let q : c.running ≡ running = cc (c.points, points) in
                let t : can_be_stopped w.manager name running ≡ true =
                  can_be_stopped_if w name running (rw q at c.free) c.unused in
                ground (arith, t, held))))
        | inl able ↦ elim (Option-cases running.last_used) [
          | inl e ↦
              rw (able, e)
                (stays name p best best refl (λ used c.
                  (let q : c.running ≡ running = cc (c.points, points) in
                    let t : running.last_used ≡ some used = rw q at c.last in
                    ground (arith, t, e))))
          | inr (u, e) ↦ elim (Bool-cases (ltb u best.0)) [
            | inr late ↦
                rw (able, e, late)
                  (stays name p best best refl (λ used c.
                    (let q : c.running ≡ running = cc (c.points, points) in
                      let t : running.last_used ≡ some used = rw q at c.last in
                      ground (arith, t, e, late))))
            | inl early ↦
                rw (able, e, early)
                  (
                    (λ used c.
                        (let q : c.running ≡ running = cc (c.points, points) in
                          let t : running.last_used ≡ some used = rw q at c.last in
                          ground (arith, t, e))),
                    ground (arith, early),
                    inr (
                      refl,
                      record {
                        other = other;
                        config = s;
                        configured = configured;
                        requires = requires;
                        running = running;
                        points = points;
                        free = (can_be_stopped-free w name running able).0;
                        unused = (can_be_stopped-free w name running able).1;
                        last = e;
                      },
                      ground (arith, early),
                    ),
                  )
          ]
        ]
      ]

  consider-Considered :
      (name : String) (p : ℕ) (best next : Earliest)
      → consider w requesting missing name p best ≡ some next
      → Considered name p best next
  unfolding consider
  consider-Considered name p best next e = elim (Bool-cases (str_eq name requesting)) [
    | inl same ↦
        stays name p best next (ground (arith, e, same)) (λ used c. ground (arith, c.other, same))
    | inr other ↦ elim (Option-cases (lookup name w.configs)) [
      | inl gap ↦ ground (arith, e, other, gap)
      | inr (s, configured) ↦
          elim (Bool-cases (is_zero (lookup_or (pos 0) missing s.resource_requirements))) [
            | inl unused ↦
                stays name p best next (ground (arith, e, other, configured, unused)) (λ used c.
                  (let q : c.config ≡ s = cc (c.configured, configured) in
                    let t : is_zero (lookup_or (pos 0) missing s.resource_requirements) ≡ false =
                      rw q at c.requires in
                    ground (arith, t, unused)))
            | inr requires ↦ elim (Option-cases (get_elem? w.heap p)) [
              | inl gap ↦ ground (arith, e, other, configured, requires, gap)
              | inr (running, points) ↦
                  (let q : next ≡ weigh w name running best =
                      ground (arith, e, other, configured, requires, points) in
                    rw q (weigh-Considered name p best s running other configured requires points))
            ]
          ]
    ]
  ]

  -- No candidate among the entries was used before the time `t`.
  abbrev pub NoneBefore : ℕ → Dict ℕ → Type 0
  NoneBefore t = All (λ e. (used : ℕ) → IsCandidate w requesting missing e.0 e.1 used → t ≤ used)

  -- The service named is among the entries a candidate last used at the time `t`.
  abbrev pub Names : String → ℕ → Dict ℕ → Type 0
  Names name t = Any (λ e. (name ≡ e.0) × IsCandidate w requesting missing e.0 e.1 t)

  NoneBefore-earlier :
      (t u : ℕ) (entries : Dict ℕ) → t ≤ u → NoneBefore u entries → NoneBefore t entries
  NoneBefore-earlier t u [] h k = k
  NoneBefore-earlier t u (e ∷ entries) h (k, ks) =
      ((λ used c. ground (arith, h, k used c)), NoneBefore-earlier t u entries h ks)

  earliest_of-NoneBefore :
      (entries : Dict ℕ) (best final : Earliest)
      → earliest_of w requesting missing entries best ≡ some final
      → NoneBefore final.0 entries
        × (final.0 ≤ best.0)
        × ((final ≡ best) ⊎ (Names final.1 final.0 entries × (final.0 < best.0)))
  unfolding earliest_of
  earliest_of-NoneBefore [] best final e =
      let q : final ≡ best = cc e in (tt, ground (arith, q), inl q)
  earliest_of-NoneBefore ((name, p) ∷ entries) best final e =
      elim (Option-cases (consider w requesting missing name p best)) [
        | inl gap ↦ ground (arith, e, gap)
        | inr (next, f) ↦
            let (least, below, from) = consider-Considered name p best next f in
            let (rest, under, origin) =
              earliest_of-NoneBefore entries next final (ground (arith, e, f)) in
            (
              ((λ used c. ground (arith, under, least used c)), rest),
              ground (arith, below, under),
              (elim origin [
                | inl same ↦ elim from [
                  | inl kept ↦ inl (same ∙ kept)
                  | inr (n, c, lt) ↦
                      inr (inl (ap (λ b. b.1) same ∙ n, rw same c), ground (arith, same, lt))
                ]
                | inr (names, lt) ↦ inr (inr names, ground (arith, lt, below))
              ]),
            )
      ]

  -- The choice is right for every order in which Go visits the map: either no service is named and
  -- no candidate was used before now, or the service named is a candidate that was used before now,
  -- and no candidate was used before it.
  pub find_earliest_last_used_service-Names :
      (now : ℕ) (name : String)
      → find_earliest_last_used_service w requesting missing now ≡ some name
      → ((name ≡ "") × NoneBefore now w.manager.running_services)
        ⊎ ((t : ℕ) × Names name t w.manager.running_services
            × NoneBefore t w.manager.running_services
            × (t < now))
  unfolding find_earliest_last_used_service
  find_earliest_last_used_service-Names now name e =
      elim (Option-cases (earliest_of w requesting missing w.manager.running_services (now, ""))) [
        | inl gap ↦ ground (arith, e, gap)
        | inr (final, f) ↦
            let q : name ≡ final.1 = ground (arith, e, f) in
            let (least, below, origin) =
              earliest_of-NoneBefore w.manager.running_services (now, "") final f in
            elim origin [
              | inl same ↦ inl (q ∙ ap (λ b. b.1) same, rw (ap (λ b. b.0) same) at least)
              | inr (names, lt) ↦ inr (final.0, rw q names, least, lt)
            ]
      ]
