-- ===== src/Manager.antt =====
-- main.go, lines 17-101: the shared state of the proxy, and the operations on it that several parts
-- use. A service mutex is held around each function here, so each is one atomic step.
mod Channels
pub mod Wakeups
mod Examples
unfoldable pub use Channels.*
use large_model_proxy.Base.{
  ℕ, ◌+◌, String, Bool, true, false, not, ◌&&◌, List, [], ◌∷◌, Dict, lookup, lookup_or, insert,
  delete, map, Option, none, some, ℤ, pos, ltb_ℤ, add, ◌==◌, if◌then◌else◌,
}
use large_model_proxy.Config.{Config, ServiceConfig}
use large_model_proxy.LogWriter.{Writer}

-- manageMutex is true while the mutex is held, and idleTimer holds the time at which it fires. The
-- field resourcesReleased, which the Go struct points to, has no second owner.
pub record RunningService : Type 0 where
  pub manage_mutex : Bool
  pub cmd : Option ℕ
  pub is_waiting_for_resources : Bool
  pub is_ready : Bool
  pub last_used : Option ℕ
  pub idle_timer : Option ℕ
  pub resources_released : Bool
  pub resources_reserved : Bool
  pub stdout_writer : Option Writer
  pub stderr_writer : Option Writer

pub record ServiceConnectionStats : Type 0 where
  pub proxied : ℤ
  pub waiting : ℤ

-- runningServices maps a name to the number of an instance; the instances are the Go heap.
pub record ResourceManager : Type 0 where
  pub resources_in_use : Dict ℤ
  pub running_services : Dict ℕ
  pub resources_reserved : Dict ℤ
  pub resources_available : Dict ℤ
  pub connection_stats : Dict ServiceConnectionStats
  pub monitor_unpause_chans : Dict (Channel (Unit {0}))
  pub check_command_first_change_by_resource_chans : Dict (Dict (Channel (Unit {0})))
  pub resource_change_by_resource_chans : Dict (Dict (Channel Bool))

unfoldable pub broadcast_resource_change : ResourceManager → String → Bool → ResourceManager
broadcast_resource_change m resource recheck_needed = record m {
  resource_change_by_resource_chans =
      adjust resource (send_signal_to_channels recheck_needed) m.resource_change_by_resource_chans;
}

unfoldable pub broadcast_resource_changes : ResourceManager → List String → Bool → ResourceManager
broadcast_resource_changes m [] recheck_needed = m
broadcast_resource_changes m (r ∷ rs) recheck_needed =
    broadcast_resource_changes (broadcast_resource_change m r recheck_needed) rs recheck_needed

unfoldable pub broadcast_first_change : ResourceManager → String → ResourceManager
broadcast_first_change m resource = record m {
  check_command_first_change_by_resource_chans =
      adjust resource (send_signal_to_channels tt) m.check_command_first_change_by_resource_chans;
}

abbrev pub clamp : ℤ → ℤ
clamp n = if ltb_ℤ n (pos 0) then pos 0 else n

abbrev pub no_connections : ServiceConnectionStats
no_connections = record { proxied = pos 0; waiting = pos 0 }

abbrev pub is_zero : ℤ → Bool
is_zero n = not (ltb_ℤ n (pos 0)) && not (ltb_ℤ (pos 0) n)

abbrev pub keys {ℓ} : {V : Type ℓ} → Dict V → List String
keys = map (λ e. e.0)

-- The service's config, if there is one, is what serviceConfigByName holds for the name.
abbrev pub changed_stats : ServiceConnectionStats → ℤ → ℤ → ServiceConnectionStats
changed_stats s proxied_change waiting_change = record {
  proxied = clamp (add s.proxied proxied_change);
  waiting = clamp (add s.waiting waiting_change);
}

unfoldable pub increment_connection :
    Dict ServiceConfig → ResourceManager → String → ℤ → ℤ → ResourceManager
unfolding broadcast_resource_changes
increment_connection configs m name proxied_change waiting_change =
    let stats =
      changed_stats (lookup_or no_connections name m.connection_stats) proxied_change
        waiting_change in
    let m' = record m { connection_stats = insert name stats m.connection_stats } in
    if is_zero stats.proxied && is_zero stats.waiting
    then elim (lookup name configs) [
      | none ↦ m'
      | some s ↦ broadcast_resource_changes m' (keys s.resource_requirements) true
    ]
    else m'
