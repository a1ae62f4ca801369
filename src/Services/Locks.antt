-- ===== src/Services/Locks.antt =====
-- service.go and service_process.go: what the flags and the mutex of an instance say in each phase.
use large_model_proxy.Base.{
  ℕ, ◌≡◌, refl, ◌∙◌, String, Bool, true, false, not, ◌&&◌, ◌||◌, ◌⊎◌, List, [], ◌∷◌, none, arith,
  if◌then◌else◌,
}
use large_model_proxy.Config.{ServiceConfig}
use large_model_proxy.Manager.{
  ResourceManager, RunningService, broadcast_resource_changes, broadcast_resource_change, keys,
}
use large_model_proxy.Resources.{release_resources, release_amounts}
use large_model_proxy.Resources.Missing.{SameAmounts}
use large_model_proxy.Services.{
  Phase, waiting, taken, launching, starting, failing, ready, gone, Instance, clean_up,
  clean_up_manager,
}
use large_model_proxy.Services.Sums.{Change, kept, released}

abbrev pub is_taken : Phase → Bool
is_taken taken = true
is_taken _ = false

-- The instance's amounts stand in resourcesInUse.
abbrev pub holds_in_use : Instance → Bool
holds_in_use i =
    is_taken i.phase || (i.running.resources_reserved && not i.running.resources_released)

-- The instance's amounts stand in resourcesReserved.
abbrev pub holds_reserved_in : Phase → Bool
holds_reserved_in taken = true
holds_reserved_in launching = true
holds_reserved_in starting = true
holds_reserved_in failing = true
holds_reserved_in _ = false

abbrev pub holds_reserved : Instance → Bool
holds_reserved i = holds_reserved_in i.phase

-- startService holds the mutex up to its end or to an error path's unlock.
abbrev Starter : RunningService → Bool → Type 0
Starter rs stopping = (rs.manage_mutex ≡ true) × (stopping ≡ false)

abbrev Fresh : RunningService → Type 0
Fresh rs = (rs.resources_reserved ≡ false) × (rs.resources_released ≡ false) × (rs.cmd ≡ none)

abbrev pub SoundIn : Phase → RunningService → Bool → Type 0
SoundIn waiting rs stopping = Starter rs stopping × Fresh rs
SoundIn taken rs stopping = Starter rs stopping × Fresh rs
SoundIn launching rs stopping =
    Starter rs stopping
    × (rs.resources_reserved ≡ true)
    × (rs.resources_released ≡ false)
    × (rs.cmd ≡ none)
SoundIn starting rs stopping = Starter rs stopping × (rs.resources_reserved ≡ true)
SoundIn failing rs stopping = rs.resources_reserved ≡ true
SoundIn ready rs stopping = rs.resources_reserved ≡ true
SoundIn gone rs stopping = (rs.resources_reserved ≡ true) ⊎ (rs.resources_released ≡ true)

abbrev pub IsSound : Instance → Type 0
IsSound i =
    SoundIn i.phase i.running i.stopping × (i.stopping ≡ true → i.running.manage_mutex ≡ true)

pub broadcast-SameAmounts :
    (m : ResourceManager) (rs : List String) (b : Bool)
    → SameAmounts m (broadcast_resource_changes m rs b)
unfolding broadcast_resource_changes broadcast_resource_change
broadcast-SameAmounts m [] b = record {
  in_use = refl;
  reserved = refl;
  available = refl;
  running = refl;
}
broadcast-SameAmounts m (r ∷ rs) b =
    let ih = broadcast-SameAmounts (broadcast_resource_change m r b) rs b in
    record {
      in_use = ih.in_use;
      reserved = ih.reserved;
      available = ih.available;
      running = ih.running;
    }

-- A clean-up that releases takes the instance's amounts off resourcesInUse if they stand there.
pub clean_up_manager-in_use :
    (s : ServiceConfig) (p : ℕ) (rs : RunningService) (m : ResourceManager)
    → (clean_up_manager s p rs m).resources_in_use ≡ (
        if rs.resources_reserved
        then release_amounts s.resource_requirements m.resources_in_use
        else m.resources_in_use)
unfolding clean_up_manager release_resources
clean_up_manager-in_use s p rs m =
    (broadcast-SameAmounts _ (keys s.resource_requirements) true).in_use ∙ ground arith

pub clean_up_manager-reserved :
    (s : ServiceConfig) (p : ℕ) (rs : RunningService) (m : ResourceManager)
    → (clean_up_manager s p rs m).resources_reserved ≡ m.resources_reserved
unfolding clean_up_manager release_resources
clean_up_manager-reserved s p rs m =
    (broadcast-SameAmounts _ (keys s.resource_requirements) true).reserved ∙ ground arith

abbrev pub cleaned : Instance → RunningService → Instance
cleaned i rs = record i { running = rs }

-- An instance that is not between the two critical sections of its reservation is cleaned up at most
-- once: the amounts that stand in resourcesInUse for it leave, and later clean-ups do nothing.
module _ (i : Instance) (p : ℕ) (b : Bool) (m : ResourceManager)
    (n : is_taken i.phase ≡ false) where
  clean_up-Change_at :
      (r f : Bool)
      → i.running.resources_reserved ≡ r
      → (not b || i.running.resources_released) ≡ f
      → Change holds_in_use i
          (cleaned i (clean_up i.service p b i.running m).0)
          m.resources_in_use
          (clean_up i.service p b i.running m).1.resources_in_use
  unfolding clean_up
  clean_up-Change_at r true e h = rw (h, clean_up) (kept refl refl)
  clean_up-Change_at true false e h =
      rw (h, clean_up)
        (released (ground arith) (ground arith)
          (clean_up_manager-in_use i.service p i.running m ∙ rw e refl))
  clean_up-Change_at false false e h =
      rw (h, clean_up)
        (kept (ground arith) (clean_up_manager-in_use i.service p i.running m ∙ rw e refl))

  pub clean_up-Change :
      Change holds_in_use i
        (cleaned i (clean_up i.service p b i.running m).0)
        m.resources_in_use
        (clean_up i.service p b i.running m).1.resources_in_use
  clean_up-Change = clean_up-Change_at _ _ refl refl

pub clean_up-reserved :
    (s : ServiceConfig) (p : ℕ) (b : Bool) (rs : RunningService) (m : ResourceManager)
    → (clean_up s p b rs m).1.resources_reserved ≡ m.resources_reserved
unfolding clean_up
clean_up-reserved s p b rs m = ground (arith, clean_up_manager-reserved s p rs m)

-- The fields that a clean-up leaves alone, and the flag that it sets.
pub clean_up-flags :
    (s : ServiceConfig) (p : ℕ) (b : Bool) (rs : RunningService) (m : ResourceManager)
    → ((clean_up s p b rs m).0.resources_reserved ≡ rs.resources_reserved)
      × ((clean_up s p b rs m).0.manage_mutex ≡ rs.manage_mutex)
      × ((clean_up s p b rs m).0.cmd ≡ rs.cmd)
      × (rs.resources_released ≡ true → (clean_up s p b rs m).0.resources_released ≡ true)
      × (b ≡ true → (clean_up s p b rs m).0.resources_released ≡ true)
unfolding clean_up
clean_up-flags s p b rs m = ground arith
