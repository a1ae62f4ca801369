-- ===== src/Waiting.antt =====
-- resources.go: reserveResources (lines 10-116), waitForFirstCheckCommands (222-249) and
-- cleanupFirstChangeChannels (253-259), as the steps of any number of services that wait for resources
-- at once. A step is what the code does between two points where it may block or others may take the
-- locks; a receive and the deletion of the channel behind it are one step. The deadline's timer and the
-- client may end a select at any time. Log lines are left out.
pub mod Registered
pub mod Passes
pub mod Moves
pub mod Listeners
pub mod Wakes
mod Examples
use large_model_proxy.Base.{
  ℕ, String, Bool, true, false, List, [], ◌∷◌, Dict, lookup, insert, delete, Option, none, some,
  get_elem?, str_eq, if◌then◌else◌,
}
use large_model_proxy.Config.{Config, ServiceConfig}
use large_model_proxy.Manager.{
  ResourceManager, RunningService, Channel, adjust, broadcast_resource_change,
  broadcast_first_change,
}
use large_model_proxy.Resources.{
  Requirements, Pass, reserved, waits_for_checks, lacks, reserve_pass,
}
use large_model_proxy.Eviction.{find_earliest_last_used_service}
use large_model_proxy.Services.Heap.{set}

-- Where a call of reserveResources stands: at the top of its loop with recheckNeeded; in
-- waitForFirstCheckCommands, with the channels that the loop has not reached; behind a pass that lacks
-- a resource; in stopService; in front of the registration; in the select; or it has returned.
pub data Phase : Type 0 where
  idle : Phase
  deciding : Bool → Phase
  awaiting : List String → List String → Phase
  lacking stopping listening selecting : String → Phase
  returned : Bool → Phase
  panicked : Phase

pub record Waiter : Type 0 where
  pub service : ServiceConfig
  pub phase : Phase

pub record Hall : Type 0 where
  pub manager : ResourceManager
  pub waiters : List Waiter

pub data Move : Type 0 where
  begins passes checks stopped listens receives times_out client_leaves : Move
  -- the structs of the running services and the time that the search for one to stop reads
  finds : List RunningService → ℕ → Move

-- `others` is any other part of the program: it may change everything but the two maps of channels.
pub data Action : Type 0 where
  moves : ℕ → Move → Action
  announces : String → Bool → Action
  measures : String → Action
  others : ResourceManager → Action

-- The channel of a service in a map of channels by resource.
abbrev pub channel_of {ℓ} :
    {A : Type ℓ} → String → String → Dict (Dict (Channel A)) → Option (Channel A)
channel_of r name chans = elim (lookup r chans) [ none ↦ none | some inner ↦ lookup name inner ]

unfoldable pub cleanup_first_change_channels :
    List String → String → ResourceManager → ResourceManager
cleanup_first_change_channels [] name m = m
cleanup_first_change_channels (r ∷ rs) name m = cleanup_first_change_channels rs name (record m {
  check_command_first_change_by_resource_chans =
      adjust r (delete name) m.check_command_first_change_by_resource_chans;
})

abbrev pub emptied : String → String → ResourceManager → ResourceManager
emptied r name m = record m {
  check_command_first_change_by_resource_chans =
      adjust r (insert name none) m.check_command_first_change_by_resource_chans;
}

-- One round of the loop of waitForFirstCheckCommands; `none` blocks.
unfoldable pub receive_check : String → String → ResourceManager → Option ResourceManager
receive_check r name m = elim (channel_of r name m.check_command_first_change_by_resource_chans) [
  | none ↦ none
  | some none ↦ none
  | some (some _) ↦ some (emptied r name m)
]

-- The registration of a new channel. Go panics where the resource has no inner map.
unfoldable pub register_change : String → String → ResourceManager → Option ResourceManager
register_change r name m = elim (lookup r m.resource_change_by_resource_chans) [
  | none ↦ none
  | some chans ↦ some (record m {
    resource_change_by_resource_chans =
        insert r (insert name none chans) m.resource_change_by_resource_chans;
  })
]

unfoldable pub remove_change : String → String → ResourceManager → ResourceManager
remove_change r name m = record m {
  resource_change_by_resource_chans = adjust r (delete name) m.resource_change_by_resource_chans;
}

-- The case of the select that receives; `none` blocks.
unfoldable pub receive_change : String → String → ResourceManager → Option (ResourceManager × Bool)
unfolding remove_change
receive_change r name m = elim (channel_of r name m.resource_change_by_resource_chans) [
  | none ↦ none
  | some none ↦ none
  | some (some recheck_needed) ↦ some (remove_change r name m, recheck_needed)
]

abbrev pub begin : Requirements → Phase
begin [] = returned true
begin (_ ∷ _) = deciding true

abbrev pub after_pass : Pass → Phase
after_pass reserved = returned true
after_pass (waits_for_checks rs) = awaiting rs rs
after_pass (lacks r) = lacking r

abbrev pub after_search : String → Option String → Phase
after_search r none = panicked
after_search r (some name) = if str_eq name "" then listening r else stopping name

-- The step of one call; `none` is no step, or one that blocks.
unfoldable pub move :
    Config
    → Dict ServiceConfig
    → ServiceConfig
    → Phase
    → Move
    → ResourceManager
    → Option (ResourceManager × Phase)
unfolding cleanup_first_change_channels receive_check register_change remove_change receive_change
move c configs s idle begins m = some (m, begin s.resource_requirements)
move c configs s (returned _) begins m = some (m, begin s.resource_requirements)
move c configs s (deciding recheck_needed) passes m =
    elim (reserve_pass c s.resource_requirements s.name recheck_needed m) [
      | none ↦ some (m, panicked)
      | some (m', p) ↦ some (m', after_pass p)
    ]
move c configs s (awaiting rs []) checks m =
    some (cleanup_first_change_channels rs s.name m, deciding false)
move c configs s (awaiting rs (r ∷ left)) checks m = elim (receive_check r s.name m) [
  | none ↦ none
  | some m' ↦ some (m', awaiting rs left)
]
move c configs s (awaiting rs (r ∷ left)) times_out m =
    some (cleanup_first_change_channels rs s.name m, returned false)
move c configs s (awaiting rs (r ∷ left)) client_leaves m =
    some (cleanup_first_change_channels rs s.name m, returned false)
move c configs s (lacking r) (finds heap now) m = some (
  m,
  after_search r (
      find_earliest_last_used_service (record { configs = configs; heap = heap; manager = m })
        s.name r now),
)
move c configs s (stopping name) stopped m = some (m, deciding true)
move c configs s (listening r) listens m = elim (register_change r s.name m) [
  | none ↦ some (m, panicked)
  | some m' ↦ some (m', selecting r)
]
move c configs s (selecting r) receives m = elim (receive_change r s.name m) [
  | none ↦ none
  | some (m', recheck_needed) ↦ some (m', deciding recheck_needed)
]
move c configs s (selecting r) times_out m = some (remove_change r s.name m, returned false)
move c configs s (selecting r) client_leaves m = some (remove_change r s.name m, returned false)
move c configs s _ _ m = none

abbrev pub moved : Hall → ℕ → Waiter → Option (ResourceManager × Phase) → Hall
moved h i w none = h
moved h i w (some (m, phase)) = record {
  manager = m;
  waiters = set h.waiters i (record w { phase = phase });
}

-- A step that is not possible changes nothing.
unfoldable pub step : Config → Dict ServiceConfig → Hall → Action → Hall
unfolding move
step c configs h (moves i a) = elim (get_elem? h.waiters i) [
  | none ↦ h
  | some w ↦ moved h i w (move c configs w.service w.phase a h.manager)
]
step c configs h (announces r recheck_needed) = record h {
  manager = broadcast_resource_change h.manager r recheck_needed;
}
step c configs h (measures r) = record h { manager = broadcast_first_change h.manager r }
step c configs h (others m) = record h {
  manager = record m {
    check_command_first_change_by_resource_chans =
        h.manager.check_command_first_change_by_resource_chans;
    resource_change_by_resource_chans = h.manager.resource_change_by_resource_chans;
  };
}

unfoldable pub run : Config → Dict ServiceConfig → Hall → List Action → Hall
run c configs h [] = h
run c configs h (a ∷ rest) = run c configs (step c configs h a) rest
