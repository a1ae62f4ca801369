-- ===== src/Connections/Busy.antt =====
-- connection.go and resources.go: which connections keep a service from being stopped.
use large_model_proxy.Base.{
  ℕ, zero, suc, ◌≤◌, ◌<◌, ◌≡◌, String, Bool, true, false, List, [], ◌∷◌, Dict, lookup_or, some, pos,
  get_elem?, length, str_eq_self, arith, if◌then◌else◌,
}
use large_model_proxy.Config.{Config, ServiceConfig}
use large_model_proxy.Manager.{ResourceManager, RunningService, no_connections, is_zero}
use large_model_proxy.Eviction.{can_be_stopped}
use large_model_proxy.Connections.{Phase, connected, Connection, Traffic, Action, run}
use large_model_proxy.Connections.Counts.{is_proxied, weight, number_of, IsCounted, limit}
use large_model_proxy.Connections.Schedule.{run-IsCounted}

-- A connection in the list counts.
number_of-get :
    (f : Phase → Bool) (ks : List Connection) (p : ℕ) (k : Connection)
    → get_elem? ks p ≡ some k
    → f k.phase ≡ true
    → 1 ≤ number_of f k.service.name ks
unfolding number_of
number_of-get f [] p k h g = ground (arith, h)
number_of-get f (x ∷ ks) zero k h g =
    let e : x ≡ k = cc h in
    let w : weight f k.service.name x ≡ 1 = rw (e, str_eq_self, g) in omega (arith, w)
number_of-get f (x ∷ ks) (suc p) k h g = omega (arith, number_of-get f ks p k h g)

can_be_stopped-counted :
    (m : ResourceManager) (ks : List Connection) (name : String) (running : RunningService)
    → IsCounted m.connection_stats ks
    → can_be_stopped m name running
      ≡ (if running.manage_mutex then false else is_zero (pos (number_of is_proxied name ks)))
unfolding can_be_stopped
can_be_stopped-counted m ks name running h = rw (h name)

module _ (c : Config) (configs : Dict ServiceConfig) (t : Traffic) (schedule : List Action)
    (none_yet : t.connections ≡ [])
    (clean : (n : String) → lookup_or no_connections n t.manager.connection_stats ≡ no_connections)
    (few : length schedule < limit) where
  -- After any schedule of the steps of below 2^63 connections, a service that a connection is proxied
  -- to is not one that the idle timer or another service's start may stop, whatever its instance.
  pub proxied_is_spared :
      (p : ℕ) (k : Connection) (running : RunningService)
      → get_elem? (run c configs t schedule).connections p ≡ some k
      → is_proxied k.phase ≡ true
      → can_be_stopped (run c configs t schedule).manager k.service.name running ≡ false
  proxied_is_spared p k running at_p proxied =
      let u = run c configs t schedule in
      let some_proxied = number_of-get is_proxied u.connections p k at_p proxied in
      let e =
        can_be_stopped-counted u.manager u.connections k.service.name running
          (run-IsCounted c configs t schedule none_yet clean few) in
      rw e (ground (arith, some_proxied))

  -- A connection that is open to the service and not yet counted as proxied does not keep it: while no
  -- other connection is proxied to it and its mutex is free, the service may be stopped.
  pub connected_is_not_spared :
      (p : ℕ) (k : Connection) (running : RunningService)
      → get_elem? (run c configs t schedule).connections p ≡ some k
      → k.phase ≡ connected
      → number_of is_proxied k.service.name (run c configs t schedule).connections ≡ 0
      → running.manage_mutex ≡ false
      → can_be_stopped (run c configs t schedule).manager k.service.name running ≡ true
  connected_is_not_spared p k running at_p open_ only free =
      let u = run c configs t schedule in
      let e =
        can_be_stopped-counted u.manager u.connections k.service.name running
          (run-IsCounted c configs t schedule none_yet clean few) in
      rw (e, free, only)
