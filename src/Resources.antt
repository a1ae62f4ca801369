-- ===== src/Resources.antt =====
-- resources.go: how a service takes the resources that it requires, and gives them back.
-- The parts of reserveResources that hold serviceMutex are one atomic step each.
pub mod Amounts
pub mod Missing
pub mod Search
pub mod Reserve
mod Examples
use large_model_proxy.Base.{
  ℕ, ◌+◌, String, Bool, true, false, not, ◌&&◌, List, [], ◌∷◌, Dict, lookup, lookup_or, insert,
  delete, map, Option, none, some, ℤ, pos, ltb_ℤ, leb_ℤ, add, sub, if◌then◌else◌,
}
use large_model_proxy.Config.{Config, ResourceAvailable, no_resource, is_blank}
use large_model_proxy.Manager.{ResourceManager, Channel, adjust, try_send}

abbrev pub Requirements : Type 0
Requirements = Dict ℤ

-- The loops `resources[resource] += amount` and `resources[resource] -= amount`.
unfoldable pub take_amounts : Requirements → Dict ℤ → Dict ℤ
take_amounts [] m = m
take_amounts ((r, a) ∷ rs) m = take_amounts rs (insert r (add (lookup_or (pos 0) r m) a) m)

unfoldable pub release_amounts : Requirements → Dict ℤ → Dict ℤ
release_amounts [] m = m
release_amounts ((r, a) ∷ rs) m = release_amounts rs (insert r (sub (lookup_or (pos 0) r m) a) m)

unfoldable pub release_resources : Requirements → ResourceManager → ResourceManager
release_resources used m = record m { resources_in_use = release_amounts used m.resources_in_use }

unfoldable pub release_reserved_resources : Requirements → ResourceManager → ResourceManager
release_reserved_resources reserved m = record m {
  resources_reserved = release_amounts reserved m.resources_reserved;
}

abbrev pub resource_of : Config → String → ResourceAvailable
resource_of c r = lookup_or no_resource r c.resources_available

-- handleNotEnoughResource without its log lines.
unfoldable pub handle_not_enough_resource : String → ResourceManager → ResourceManager
handle_not_enough_resource requesting m = record m {
  check_command_first_change_by_resource_chans =
      map (λ e. (e.0, delete requesting e.1)) m.check_command_first_change_by_resource_chans;
}

-- The first loop of findFirstMissingResourceWhenServiceMutexIsLocked: a resource without a
-- CheckCommand of which less than the required amount is free.
unfoldable pub first_missing_static : Config → ResourceManager → Requirements → Option String
first_missing_static c m [] = none
first_missing_static c m ((r, required) ∷ rs) =
    let rest = first_missing_static c m rs in
    if not (is_blank (resource_of c r).check_command)
    then rest
    else if ltb_ℤ (sub (resource_of c r).amount (lookup_or (pos 0) r m.resources_in_use)) required
    then some r
    else rest

unfoldable pub is_enough_resource : ResourceManager → String → ℤ → Bool
is_enough_resource m r required =
    leb_ℤ required
      (sub (lookup_or (pos 0) r m.resources_available) (lookup_or (pos 0) r m.resources_reserved))

-- UnpauseResourceAvailabilityMonitoring: a poke, unless one is outstanding.
unfoldable pub unpause_monitoring : String → ResourceManager → ResourceManager
unpause_monitoring r m = record m {
  monitor_unpause_chans = adjust r (try_send tt) m.monitor_unpause_chans;
}

-- The registration of a new channel. Go panics where the resource has no inner map.
unfoldable pub register_first_change : String → String → ResourceManager → Option ResourceManager
register_first_change r requesting m =
    elim (lookup r m.check_command_first_change_by_resource_chans) [
      | none ↦ none
      | some chans ↦ some (record m {
        check_command_first_change_by_resource_chans =
            insert r (insert requesting none chans) m.check_command_first_change_by_resource_chans;
      })
    ]

pub data Found : Type 0 where
  missing : String → Found
  pending : List String → Found

infixl 5 ◌>>=◌
abbrev pub ◌>>=◌ {ℓ κ} : {A : Type ℓ} {B : Type κ} → Option A → (A → Option B) → Option B
none >>= f = none
some a >>= f = f a

abbrev pub with_pending : String → ResourceManager × Found → ResourceManager × Found
with_pending r (m, missing s) = (m, missing s)
with_pending r (m, pending rs) = (m, pending (r ∷ rs))

-- The second loop: a fresh measurement of each resource with a CheckCommand is asked for, or the
-- last measurement is read. `none` is a panic.
unfoldable pub check_measured :
    Config → String → Bool → Requirements → ResourceManager → Option (ResourceManager × Found)
check_measured c requesting first_check_needed [] m = some (m, pending [])
check_measured c requesting first_check_needed ((r, required) ∷ rs) m =
    let skip = check_measured c requesting first_check_needed rs m in
    if is_blank (resource_of c r).check_command
    then skip
    else if first_check_needed
    then (do
      m' ← register_first_change r requesting m
      rest ← check_measured c requesting first_check_needed rs (unpause_monitoring r m')
      some (with_pending r rest))
    else if is_enough_resource m r required
    then skip
    else some (handle_not_enough_resource requesting m, missing r)

unfoldable pub find_first_missing_resource :
    Config → Requirements → String → Bool → ResourceManager → Option (ResourceManager × Found)
find_first_missing_resource c requirements requesting first_check_needed m =
    elim (first_missing_static c m requirements) [
      | some r ↦ some (handle_not_enough_resource requesting m, missing r)
      | none ↦ check_measured c requesting first_check_needed requirements m
    ]

unfoldable pub deregister_change : String → Requirements → ResourceManager → ResourceManager
deregister_change requesting [] m = m
deregister_change requesting ((r, a) ∷ rs) m = deregister_change requesting rs (record m {
  resource_change_by_resource_chans =
      adjust r (delete requesting) m.resource_change_by_resource_chans;
})

pub data Pass : Type 0 where
  reserved : Pass
  waits_for_checks : List String → Pass
  lacks : String → Pass

-- The branch of reserveResources in which the resources are there.
unfoldable pub take_resources : Requirements → String → ResourceManager → ResourceManager
take_resources requirements requesting m =
    let m' = deregister_change requesting requirements m in
    record m' {
      resources_in_use = take_amounts requirements m'.resources_in_use;
      resources_reserved = take_amounts requirements m'.resources_reserved;
    }

abbrev pub decide_pass : Requirements → String → ResourceManager × Found → ResourceManager × Pass
decide_pass requirements requesting (m, missing r) = (m, lacks r)
decide_pass requirements requesting (m, pending []) =
    (take_resources requirements requesting m, reserved)
decide_pass requirements requesting (m, pending (r ∷ rs)) = (m, waits_for_checks (r ∷ rs))

-- One round of the loop of reserveResources up to the end of its critical section.
unfoldable pub reserve_pass :
    Config → Requirements → String → Bool → ResourceManager → Option (ResourceManager × Pass)
reserve_pass c requirements requesting recheck_needed m =
    elim (find_first_missing_resource c requirements requesting recheck_needed m) [
      | none ↦ none
      | some found ↦ some (decide_pass requirements requesting found)
    ]
