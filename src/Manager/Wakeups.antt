-- ===== src/Manager/Wakeups.antt =====
-- main.go, incrementConnection, and monitor_resources.go, broadcastResourceChanges: the counts of a
-- service's connections, and who hears that the last of them is gone.
use large_model_proxy.Base.{
  ◌≡◌, refl, String, Bool, true, ◌&&◌, List, [], ◌∷◌, Dict, lookup, lookup_or, none, some, ℤ,
  str_eq, str_eq_self, Any, inl, inr, Bool-cases, eq_iff,
}
use large_model_proxy.Config.{ServiceConfig}
use large_model_proxy.Manager.{
  ResourceManager, Channel, try_send, send_signal_to_channels, lookup-adjust,
  lookup-send_signal_to_channels, broadcast_resource_change, broadcast_resource_changes,
  increment_connection, changed_stats, no_connections, is_zero, keys,
}

-- The service waits for changes of the resource: its channel is registered.
abbrev pub IsRegistered : String → String → ResourceManager → Type 0
IsRegistered r waiter m =
    (chans : Dict (Channel Bool)) × (lookup r m.resource_change_by_resource_chans ≡ some chans)
    × ((c : Channel Bool) × (lookup waiter chans ≡ some c))

-- Its channel holds a value, so the service wakes up.
abbrev pub IsWoken : String → String → ResourceManager → Type 0
IsWoken r waiter m =
    (chans : Dict (Channel Bool)) × (lookup r m.resource_change_by_resource_chans ≡ some chans)
    × ((v : Bool) × (lookup waiter chans ≡ some (some v)))

try_send-some : (v : Bool) (c : Channel Bool) → (w : Bool) × (try_send v c ≡ some w)
unfolding try_send
try_send-some v none = (v, refl)
try_send-some v (some w) = (w, refl)

try_send-full : (v w : Bool) → try_send v (some w) ≡ some w
unfolding try_send
try_send-full v w = refl

module _ (r waiter : String) where
  broadcast_resource_change-wakes :
      (recheck : Bool) (m : ResourceManager)
      → IsRegistered r waiter m
      → IsWoken r waiter (broadcast_resource_change m r recheck)
  unfolding broadcast_resource_change
  broadcast_resource_change-wakes recheck m (chans, h, (c, k)) =
      let (v, e) = try_send-some recheck c in
      (
        send_signal_to_channels recheck chans,
        rw (lookup-adjust, str_eq_self, h),
        (v, rw (lookup-send_signal_to_channels, k, e)),
      )

  broadcast_resource_change-IsRegistered :
      (q : String) (recheck : Bool) (m : ResourceManager)
      → IsRegistered r waiter m
      → IsRegistered r waiter (broadcast_resource_change m q recheck)
  unfolding broadcast_resource_change
  broadcast_resource_change-IsRegistered q recheck m (chans, h, (c, k)) =
      elim (Bool-cases (str_eq q r)) [
        | inl e ↦ (
          send_signal_to_channels recheck chans,
          rw (lookup-adjust, e, h),
          (try_send recheck c, rw (lookup-send_signal_to_channels, k)),
        )
        | inr e ↦ (chans, rw (lookup-adjust, e, h), (c, k))
      ]

  broadcast_resource_change-IsWoken :
      (q : String) (recheck : Bool) (m : ResourceManager)
      → IsWoken r waiter m
      → IsWoken r waiter (broadcast_resource_change m q recheck)
  unfolding broadcast_resource_change
  broadcast_resource_change-IsWoken q recheck m (chans, h, (v, k)) =
      elim (Bool-cases (str_eq q r)) [
        | inl e ↦ (
          send_signal_to_channels recheck chans,
          rw (lookup-adjust, e, h),
          (v, rw (lookup-send_signal_to_channels, k, try_send-full)),
        )
        | inr e ↦ (chans, rw (lookup-adjust, e, h), (v, k))
      ]

  broadcast_resource_changes-IsWoken :
      (rs : List String) (recheck : Bool) (m : ResourceManager)
      → IsWoken r waiter m
      → IsWoken r waiter (broadcast_resource_changes m rs recheck)
  unfolding broadcast_resource_changes
  broadcast_resource_changes-IsWoken [] recheck m h = h
  broadcast_resource_changes-IsWoken (q ∷ rs) recheck m h =
      broadcast_resource_changes-IsWoken rs recheck (broadcast_resource_change m q recheck)
        (broadcast_resource_change-IsWoken q recheck m h)

  broadcast_resource_changes-wakes :
      (rs : List String) (recheck : Bool) (m : ResourceManager)
      → Any (λ q. str_eq q r ≡ true) rs
      → IsRegistered r waiter m
      → IsWoken r waiter (broadcast_resource_changes m rs recheck)
  unfolding broadcast_resource_changes
  broadcast_resource_changes-wakes [] recheck m e h = absurd e
  broadcast_resource_changes-wakes (q ∷ rs) recheck m (inl e) h =
      broadcast_resource_changes-IsWoken rs recheck (broadcast_resource_change m q recheck)
        (rw ((eq_iff q r).0 e) (broadcast_resource_change-wakes recheck m h))
  broadcast_resource_changes-wakes (q ∷ rs) recheck m (inr e) h =
      broadcast_resource_changes-wakes rs recheck (broadcast_resource_change m q recheck) e
        (broadcast_resource_change-IsRegistered q recheck m h)

  -- When a change leaves a configured service without connections, every service that waits for a
  -- change of a resource which it requires finds a value in its channel, whatever the channels held.
  pub increment_connection-IsWoken :
      (configs : Dict ServiceConfig) (m : ResourceManager) (name : String) (proxied waiting : ℤ)
      (s : ServiceConfig)
      → let stats =
          changed_stats (lookup_or no_connections name m.connection_stats) proxied waiting in
        is_zero stats.proxied && is_zero stats.waiting ≡ true
        → lookup name configs ≡ some s
        → Any (λ q. str_eq q r ≡ true) (keys s.resource_requirements)
        → IsRegistered r waiter m
        → IsWoken r waiter (increment_connection configs m name proxied waiting)
  unfolding increment_connection
  increment_connection-IsWoken configs m name proxied waiting s idle found requires h =
      rw (idle, found)
        (broadcast_resource_changes-wakes (keys s.resource_requirements) true _ requires h)
