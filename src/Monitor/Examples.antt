-- ===== src/Monitor/Examples.antt =====
-- A monitor that two services wait for.
use large_model_proxy.Base.{◌≡◌, refl, true, [], ◌∷◌, Dict, lookup, lookup_or, none, some, pos}
use large_model_proxy.Manager.{ResourceManager, Channel}
use large_model_proxy.Monitor.{MonitorState, check_resource_availability, round}
use large_model_proxy.Monitor.Waiters.{check_resource_availability-heard}
use large_model_proxy.Samples.{idle}

abbrev waited_for : ResourceManager
waited_for = record idle {
  check_command_first_change_by_resource_chans = ("VRAM", ("text", none) ∷ []) ∷ [];
}

abbrev ticking : MonitorState
ticking = record { armed = true; manager = waited_for }

abbrev ticked : MonitorState
ticked = round "VRAM" (some (pos 4)) waited_for

check_resource_availability-heard_example :
    let m' = (check_resource_availability "VRAM" (some (pos 4)) waited_for).0 in
    (lookup_or (pos 0) "VRAM" m'.resources_available ≡ pos 4)
    × ((after : Dict (Channel (Unit {0}))) × (lookup "VRAM"
            m'.check_command_first_change_by_resource_chans
          ≡ some after)
        × (lookup "text" after ≡ some (some tt)))
unfolding lookup
check_resource_availability-heard_example =
    check_resource_availability-heard "VRAM" "text" (pos 4) waited_for (("text", none) ∷ []) none
      refl refl
