-- ===== src/Monitor/Waiters.antt =====
-- monitor_resources.go: who keeps a monitor polling, and who hears of a measurement.
use large_model_proxy.Base.{
  ◌≡◌, refl, ap, String, true, Dict, lookup, lookup_or, lookup_or-insert, none, some, ℤ, pos,
  negsuc, str_eq_self, arith, Bool-cases, inl, inr,
}
use large_model_proxy.Manager.{
  ResourceManager, Channel, try_send, send_signal_to_channels, lookup-adjust,
  lookup-send_signal_to_channels, broadcast_first_change, broadcast_resource_change,
}
use large_model_proxy.Monitor.{set_available, announce, check_resource_availability, eq_ℤ}

eq_ℤ-eq : (a b : ℤ) → eq_ℤ a b ≡ true → a ≡ b
eq_ℤ-eq (pos a) (pos b) h = ap pos (ground (arith, h))
eq_ℤ-eq (pos a) (negsuc b) h = ground (arith, h)
eq_ℤ-eq (negsuc a) (pos b) h = ground (arith, h)
eq_ℤ-eq (negsuc a) (negsuc b) h = ap negsuc (ground (arith, h))

try_send-tt : (c : Channel (Unit {0})) → try_send tt c ≡ some tt
unfolding try_send
try_send-tt none = refl
try_send-tt (some u) = refl

-- A measurement that succeeds is the resource's amount from then on, and it reaches every service that
-- waits for a first measurement of the resource: its channel holds a value.
pub check_resource_availability-heard :
    (r service : String) (amount : ℤ) (m : ResourceManager) (chans : Dict (Channel (Unit {0})))
    (c : Channel (Unit {0}))
    → lookup r m.check_command_first_change_by_resource_chans ≡ some chans
    → lookup service chans ≡ some c
    → let m' = (check_resource_availability r (some amount) m).0 in
      (lookup_or (pos 0) r m'.resources_available ≡ amount)
      × ((after : Dict (Channel (Unit {0}))) × (lookup r
              m'.check_command_first_change_by_resource_chans
            ≡ some after)
          × (lookup service after ≡ some (some tt)))
unfolding check_resource_availability announce set_available broadcast_first_change
    broadcast_resource_change
check_resource_availability-heard r service amount m chans c h k =
    let after = send_signal_to_channels tt chans in
    let heard : lookup service after ≡ some (some tt) =
      rw (lookup-send_signal_to_channels, k, try_send-tt c) in
    elim (Bool-cases (eq_ℤ (lookup_or (pos 0) r m.resources_available) amount)) [
      | inl e ↦ rw e (eq_ℤ-eq _ _ e, (after, rw (lookup-adjust, str_eq_self, h), heard))
      | inr e ↦
          rw e
            (rw (lookup_or-insert, str_eq_self), (after, rw (lookup-adjust, str_eq_self, h), heard))
    ]
