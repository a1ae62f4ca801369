-- ===== src/Connections/Schedule.antt =====
-- connection.go, handleConnection: the counts of connections over whole schedules.
use large_model_proxy.Base.{
  ℕ, ◌+◌, ◌≤◌, ◌<◌, ◌≡◌, refl, sym, ap, ◌∙◌, String, Bool, true, false, List, [], ◌∷◌, Dict,
  lookup_or, value_or, some, ℤ, pos, negsuc, get_elem?, length, length-append, arith, Option-cases,
  inl, inr,
}
use large_model_proxy.Config.{Config, ServiceConfig}
use large_model_proxy.Manager.{
  ResourceManager, RunningService, increment_connection, no_connections,
}
use large_model_proxy.Connections.{
  Phase, connecting, connected, proxying, leaving, closed, Connection, Traffic, Action, accepts,
  fails, connects, counts, write_fails, forwarded, leaves, others, accept, placed, move, at, step,
  run,
}
use large_model_proxy.Connections.Changes.{kept-IsCounted, joined-IsCounted, closed-IsCounted}
use large_model_proxy.Connections.Counts.{
  is_waiting, is_proxied, number_of, length-set, limit, IsCounted,
  increment_connection-connection_stats, delta, moved-IsCounted,
}

-- The traffic is counted, and has no more than the given number of connections.
abbrev pub Counted : Traffic → Type 0
Counted t = IsCounted t.manager.connection_stats t.connections

result : {v u : Traffic} → some v ≡ some u → u ≡ v
result {v} h = sym (ap (value_or v) h)

module _ (c : Config) (configs : Dict ServiceConfig) (t u : Traffic) (p : ℕ) (k : Connection)
    (e : get_elem? t.connections p ≡ some k) (few : length t.connections < limit) where
  placed-Counted :
      (old new : Phase) (a b : ℤ)
      → k.phase ≡ old
      → delta (is_proxied old) (is_proxied new) ≡ a
      → delta (is_waiting old) (is_waiting new) ≡ b
      → Counted t
      → Counted (placed t p k new (increment_connection configs t.manager k.service.name a b))
  placed-Counted old new a b q x y h =
      rw (increment_connection-connection_stats, ← x, ← y, ← q)
        (moved-IsCounted t.manager.connection_stats t.connections p k (record k { phase = new }) e
          refl few h)

  arrived :
      (v : Traffic) (new : Phase) (m : ResourceManager) (heap : List RunningService)
      → v ≡ record (placed t p k new m) { heap = heap }
      → Counted (placed t p k new m)
      → Counted v × (length v.connections ≡ length t.connections)
  arrived v new m heap q h = rw q (h, length-set t.connections p (record k { phase = new }))

  stayed-Counted :
      (old new : Phase)
      → k.phase ≡ old
      → is_proxied new ≡ is_proxied old
      → is_waiting new ≡ is_waiting old
      → Counted t
      → Counted (placed t p k new t.manager)
  stayed-Counted old new q x y h =
      kept-IsCounted t.manager.connection_stats t.connections p k (record k { phase = new }) e refl
        (x ∙ ap is_proxied (sym q)) (y ∙ ap is_waiting (sym q)) h

  move-Counted :
      (ph : Phase) (a : Action)
      → k.phase ≡ ph
      → move c configs t p k ph a ≡ some u
      → Counted t
      → Counted u × (length u.connections ≡ length t.connections)
  unfolding move
  move-Counted connecting (fails x) q s h =
      arrived u closed _ _ (result s)
        (placed-Counted connecting closed (pos 0) (negsuc 0) q refl refl h)
  move-Counted connected (counts x) q s h =
      arrived u proxying _ _ (result s)
        (placed-Counted connected proxying (pos 1) (negsuc 0) q refl refl h)
  move-Counted leaving (leaves x) q s h =
      arrived u closed _ _ (result s)
        (placed-Counted leaving closed (negsuc 0) (pos 0) q refl refl h)
  move-Counted connecting (connects x now) q s h =
      arrived u connected _ _ (result s) (stayed-Counted connecting connected q refl refl h)
  move-Counted proxying (write_fails x) q s h =
      arrived u leaving _ _ (result s) (stayed-Counted proxying leaving q refl refl h)
  move-Counted proxying (forwarded x now) q s h =
      arrived u leaving _ _ (result s) (stayed-Counted proxying leaving q refl refl h)
  move-Counted ph a q s h = ground (arith, s)

module _ (c : Config) (configs : Dict ServiceConfig) where
  at-Counted :
      (t u : Traffic) (p : ℕ) (a : Action)
      → length t.connections + 1 < limit
      → at t p (λ k. move c configs t p k k.phase a) ≡ some u
      → Counted t
      → Counted u × (length u.connections ≤ length t.connections + 1)
  at-Counted t u p a few s h = elim (Option-cases (get_elem? t.connections p)) [
    | inl e ↦ ground (arith, s, e)
    | inr (k, e) ↦
        let (now, same) =
          move-Counted c configs t u p k e (omega arith) k.phase a refl (rw (e, at) at s) h in
        (now, omega arith)
  ]

  accept-Counted :
      (t : Traffic) (s : ServiceConfig) (interrupted : Bool)
      → length t.connections + 1 < limit
      → Counted t
      → Counted (accept configs s interrupted t)
        × (length (accept configs s interrupted t).connections ≤ length t.connections + 1)
  unfolding accept
  accept-Counted t s true few h = (
    closed-IsCounted t.manager.connection_stats t.connections s h,
    omega (arith, length-append t.connections (record { service = s; phase = closed } ∷ [])),
  )
  accept-Counted t s false few h =
      let k : Connection = record { service = s; phase = connecting } in
      (
        rw increment_connection-connection_stats
            (joined-IsCounted t.manager.connection_stats t.connections k few h),
        omega (arith, length-append t.connections (k ∷ [])),
      )

  step-Counted :
      (t u : Traffic) (a : Action)
      → length t.connections + 1 < limit
      → step c configs t a ≡ some u
      → Counted t
      → Counted u × (length u.connections ≤ length t.connections + 1)
  unfolding step
  step-Counted t u (accepts s interrupted) few e h =
      rw (result e) (accept-Counted t s interrupted few h)
  step-Counted t u (others m heap) few e h = rw (result e) (h, omega arith)
  step-Counted t u (fails p) few s h = at-Counted t u p (fails p) few s h
  step-Counted t u (connects p now) few s h = at-Counted t u p (connects p now) few s h
  step-Counted t u (counts p) few s h = at-Counted t u p (counts p) few s h
  step-Counted t u (write_fails p) few s h = at-Counted t u p (write_fails p) few s h
  step-Counted t u (forwarded p now) few s h = at-Counted t u p (forwarded p now) few s h
  step-Counted t u (leaves p) few s h = at-Counted t u p (leaves p) few s h

  run-Counted :
      (t : Traffic) (schedule : List Action)
      → length t.connections + length schedule < limit
      → Counted t
      → Counted (run c configs t schedule)
  unfolding run
  run-Counted t [] few h = h
  run-Counted t (a ∷ rest) few h = elim (Option-cases (step c configs t a)) [
    | inl e ↦ rw (e, run) (run-Counted t rest (omega arith) h)
    | inr (u, e) ↦
        let (now, more) = step-Counted t u a (omega arith) e h in
        rw (e, run) (run-Counted u rest (omega arith) now)
  ]

-- After any schedule of the steps of any number of connections below 2^63, whatever the rest of the
-- program does in between, both counts of every service are exact: incrementConnection never clamps a
-- count, and no connection is counted twice or left behind.
pub run-IsCounted :
    (c : Config) (configs : Dict ServiceConfig) (t : Traffic) (schedule : List Action)
    → t.connections ≡ []
    → ((n : String) → lookup_or no_connections n t.manager.connection_stats ≡ no_connections)
    → length schedule < limit
    → let u = run c configs t schedule in IsCounted u.manager.connection_stats u.connections
run-IsCounted c configs t schedule none_yet clean few =
    run-Counted c configs t schedule (rw none_yet (omega (arith, few)))
      (rw none_yet (λ n. clean n ∙ unfold number_of in refl))
