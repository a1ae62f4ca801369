-- ===== src/Monitor.antt =====
-- monitor_resources.go, lines 12-111: the goroutine that measures a resource with its CheckCommand.
-- A round of its loop is one step; the command's answer is an argument, `none` where it fails or
-- prints no number.
mod Waiters
mod Examples
use large_model_proxy.Base.{
  ℕ, String, Bool, true, false, not, ◌&&◌, ◌||◌, List, [], ◌∷◌, Dict, lookup, lookup_or, insert,
  Option, none, some, ℤ, pos, leb_ℤ, if◌then◌else◌,
}
use large_model_proxy.Manager.{
  ResourceManager, Channel, adjust, broadcast_first_change, broadcast_resource_change,
}

abbrev pub eq_ℤ : ℤ → ℤ → Bool
eq_ℤ a b = leb_ℤ a b && leb_ℤ b a

abbrev pub some_listener {ℓ} : {A : Type ℓ} → Option (Dict (Channel A)) → Bool
some_listener none = false
some_listener (some []) = false
some_listener (some (c ∷ cs)) = true

unfoldable pub resource_has_waiters : ResourceManager → String → Bool
resource_has_waiters m r =
    some_listener (lookup r m.resource_change_by_resource_chans)
    || some_listener (lookup r m.check_command_first_change_by_resource_chans)

unfoldable pub set_available : String → ℤ → ResourceManager → ResourceManager
set_available r amount m = record m { resources_available = insert r amount m.resources_available }

-- The changes of state behind a command that printed a number.
unfoldable pub announce : String → ℤ → ResourceManager → ResourceManager
unfolding set_available broadcast_first_change broadcast_resource_change
announce r amount m =
    if eq_ℤ (lookup_or (pos 0) r m.resources_available) amount
    then broadcast_first_change m r
    else broadcast_resource_change (broadcast_first_change (set_available r amount m) r) r false

-- checkResourceAvailabilityWithKnownCommand.
unfoldable pub check_resource_availability :
    String → Option ℤ → ResourceManager → ResourceManager × Bool
unfolding announce resource_has_waiters
check_resource_availability r none m = (m, resource_has_waiters m r)
check_resource_availability r (some amount) m =
    (announce r amount m, resource_has_waiters (announce r amount m) r)

-- What the select of the loop takes: the timer's tick, or a poke.
pub data Wake : Type 0 where
  tick poke : Wake

-- `armed` says that the timer runs or has a tick in its channel; a poke stops it.
pub record MonitorState : Type 0 where
  pub armed : Bool
  pub manager : ResourceManager

unfoldable pub round : String → Option ℤ → ResourceManager → MonitorState
unfolding check_resource_availability
round r answer m =
    let (m', had_listeners) = check_resource_availability r answer m in
    record { armed = had_listeners; manager = m' }

abbrev pub drained : String → ResourceManager → ResourceManager
drained r m = record m { monitor_unpause_chans = adjust r (λ c. none) m.monitor_unpause_chans }

abbrev pub poked : Option (Channel (Unit {0})) → Bool
poked none = false
poked (some none) = false
poked (some (some u)) = true

-- One pass of the loop of monitorResourceAvailability; `none` where the select blocks.
unfoldable pub monitor_step : String → Wake → Option ℤ → MonitorState → Option MonitorState
unfolding round
monitor_step r tick answer t = if t.armed then some (round r answer t.manager) else none
monitor_step r poke answer t =
    if poked (lookup r t.manager.monitor_unpause_chans)
    then some (round r answer (drained r t.manager))
    else none
