-- ===== src/StartUp/Initial.antt =====
-- main.go: the proxy starts with nothing on its books, so what is proved of schedules from an empty
-- state holds of every run of the program.
use large_model_proxy.Base.{
  ◌≡◌, refl, String, true, List, [], ◌∷◌, Dict, lookup, lookup_or, lookup_or-insert, insert, ℤ, pos,
  arith, All, Bool-cases, inl, inr, ◌≤ℤ◌, IsInt,
}
use large_model_proxy.Config.{Config, ServiceConfig, ResourceAvailable, is_blank}
use large_model_proxy.Manager.{ResourceManager}
use large_model_proxy.Resources.{resource_of}
use large_model_proxy.Resources.Amounts.{held}
use large_model_proxy.Services.{System, Action, run}
use large_model_proxy.Services.Accounting.{IsInitial}
use large_model_proxy.Services.Capacity.{StartsPlausible, run_within_capacity}
use large_model_proxy.StartUp.{
  empty_manager, register_services, register_amounts, register_monitor, register_resource,
  register_resources, initial_manager,
}

-- Nothing of any resource is on the books.
abbrev IsBlank : ResourceManager → Type 0
IsBlank m =
    ((r : String) → held r m.resources_in_use ≡ pos 0)
    × ((r : String) → held r m.resources_reserved ≡ pos 0)

held-insert_zero :
    (q r : String) (books : Dict ℤ) → held r books ≡ pos 0 → held r (insert q (pos 0) books) ≡ pos 0
held-insert_zero q r books h = ground (arith, h, lookup_or-insert (pos 0) q r (pos 0) books)

register_services-IsBlank :
    (ss : List ServiceConfig) (m : ResourceManager) → IsBlank m → IsBlank (register_services ss m)
unfolding register_services
register_services-IsBlank [] m h = h
register_services-IsBlank (s ∷ ss) m h = register_services-IsBlank ss _ h

register_resource-IsBlank :
    (r : String) (a : ResourceAvailable) (m : ResourceManager)
    → IsBlank m
    → IsBlank (register_resource r a m)
unfolding register_resource register_amounts register_monitor
register_resource-IsBlank r a m (u, v) = elim (Bool-cases (is_blank a.check_command)) [
  | inl e ↦ rw e ((λ k. held-insert_zero r k _ (u k)), (λ k. held-insert_zero r k _ (v k)))
  | inr e ↦ rw e ((λ k. held-insert_zero r k _ (u k)), (λ k. held-insert_zero r k _ (v k)))
]

register_resources-IsBlank :
    (rs : Dict ResourceAvailable) (m : ResourceManager)
    → IsBlank m
    → IsBlank (register_resources rs m)
unfolding register_resources
register_resources-IsBlank [] m h = h
register_resources-IsBlank ((r, a) ∷ rs) m h =
    register_resources-IsBlank rs _ (register_resource-IsBlank r a m h)

-- The program before its first connection.
abbrev pub started : Config → System
started c = record { manager = initial_manager c; instances = [] }

pub started-IsInitial : (c : Config) → IsInitial (started c)
unfolding initial_manager lookup_or lookup
started-IsInitial c =
    let blank =
      register_resources-IsBlank c.resources_available (register_services c.services empty_manager)
        (register_services-IsBlank c.services empty_manager ((λ r. refl), (λ r. refl))) in
    (refl, blank.0, blank.1)

-- From the state that main builds, after any schedule of steps, a resource that has no CheckCommand is
-- never in use beyond its configured amount, nor below 0. The amount is not negative and one that Go's
-- int holds, and the services that the schedule starts have requirements that are not negative and
-- name each resource once.
pub started_within_capacity :
    (c : Config) (schedule : List Action) (r : String)
    → is_blank (resource_of c r).check_command ≡ true
    → IsInt (resource_of c r).amount
    → pos 0 ≤ℤ (resource_of c r).amount
    → All StartsPlausible schedule
    → let books = (run c (started c) schedule).manager.resources_in_use in
      (pos 0 ≤ℤ held r books) × (held r books ≤ℤ (resource_of c r).amount)
started_within_capacity c schedule r static fits nonneg plausible =
    run_within_capacity c (started c) schedule r static fits nonneg plausible (started-IsInitial c)
