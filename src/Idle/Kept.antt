-- ===== src/Idle/Kept.antt =====
-- service.go and resources.go: no service is stopped under a connection that is proxied to it.
use large_model_proxy.Base.{
  ℕ, ◌<◌, ◌≡◌, ◌≢◌, String, Bool, true, false, List, [], ◌∷◌, Dict, lookup_or, Option-cases, some,
  get_elem?, length, arith, inl, inr,
}
use large_model_proxy.Config.{Config, ServiceConfig, is_blank}
use large_model_proxy.Manager.{ResourceManager, RunningService, no_connections}
use large_model_proxy.Eviction.{Scene, can_be_stopped, find_earliest_last_used_service}
use large_model_proxy.Eviction.Choice.{
  Names, can_be_stopped_if, find_earliest_last_used_service-Names,
}
use large_model_proxy.Connections.{Connection, Traffic, Action, run}
use large_model_proxy.Connections.Counts.{is_proxied, limit}
use large_model_proxy.Connections.Busy.{proxied_is_spared}
use large_model_proxy.Idle.{stops, idle_timer_fires, fire_set_timer}

-- With a connection that spares the service, the callback resets the timer or does nothing.
fires-spared :
    (c : Config) (s : ServiceConfig) (interrupted : Bool) (now : ℕ) (running : RunningService)
    (m : ResourceManager)
    → can_be_stopped m s.name running ≡ false
    → (idle_timer_fires c s interrupted now running m).1 ≢ stops
unfolding idle_timer_fires fire_set_timer
fires-spared c s interrupted now running m e h = elim (Option-cases running.idle_timer) [
  | inl i ↦ ground (arith, h, i)
  | inr (t, i) ↦ ground (arith, h, i, e)
]

not_named :
    (w : Scene) (requesting missing name : String) (t : ℕ) (entries : Dict ℕ)
    → ((running : RunningService) → can_be_stopped w.manager name running ≡ false)
    → ¬ Names w requesting missing name t entries
not_named w requesting missing name t [] spared n = n
not_named w requesting missing name t ((other, p) ∷ entries) spared (inl (same, c)) =
    let free = can_be_stopped_if w other c.running c.free c.unused in
    ground (arith, free, rw same at (spared c.running))
not_named w requesting missing name t (_ ∷ entries) spared (inr n) =
    not_named w requesting missing name t entries spared n

never_chosen :
    (w : Scene) (requesting missing name : String) (now : ℕ)
    → ((running : RunningService) → can_be_stopped w.manager name running ≡ false)
    → is_blank name ≡ false
    → find_earliest_last_used_service w requesting missing now ≢ some name
never_chosen w requesting missing name now spared named h =
    elim (find_earliest_last_used_service-Names w requesting missing now name h) [
      | inl (nobody, _) ↦ absurd (ground (arith, rw nobody at named))
      | inr (t, names, _, _) ↦
          not_named w requesting missing name t w.manager.running_services spared names
    ]

module _ (c : Config) (configs : Dict ServiceConfig) (t : Traffic) (schedule : List Action)
    (none_yet : t.connections ≡ [])
    (clean : (n : String) → lookup_or no_connections n t.manager.connection_stats ≡ no_connections)
    (few : length schedule < limit) where
  -- After any schedule of the steps of below 2^63 connections, a service whose name is not blank and that
  -- a connection is proxied to is not picked to be stopped: its idle timer's callback does not stop it,
  -- whatever its instance, and the search for a service to stop never names it, whichever service asks
  -- for whichever resource.
  pub proxied_is_kept :
      (p : ℕ) (k : Connection)
      → get_elem? (run c configs t schedule).connections p ≡ some k
      → is_proxied k.phase ≡ true
      → is_blank k.service.name ≡ false
      → let u = run c configs t schedule in
        ((interrupted : Bool) (now : ℕ) (running : RunningService)
          → (idle_timer_fires c k.service interrupted now running u.manager).1 ≢ stops)
        × ((requesting missing : String) (now : ℕ)
            → find_earliest_last_used_service
                (record { configs = configs; heap = u.heap; manager = u.manager })
                requesting
                missing
                now
              ≢ some k.service.name)
  proxied_is_kept p k at_p proxied named =
      let u = run c configs t schedule in
      let spared : (running : RunningService)
          → can_be_stopped u.manager k.service.name running ≡ false =
        λ running.
          proxied_is_spared c configs t schedule none_yet clean few p k running at_p proxied in
      (
        (λ interrupted now running.
            fires-spared c k.service interrupted now running u.manager (spared running)),
        (λ requesting missing now.
            never_chosen (record { configs = configs; heap = u.heap; manager = u.manager })
              requesting missing k.service.name now spared named),
      )
