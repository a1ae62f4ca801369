-- ===== src/Eviction.antt =====
-- resources.go, lines 118-148 and 321-348: which running service gives way to one that lacks a
-- resource, and how a use of a service is tracked. The heap of RunningService structs is a list, and
-- `none` is the panic of findServiceConfigByName (main.go, lines 204-209).
pub mod Choice
mod Examples
use large_model_proxy.Base.{
  ℕ, ◌+◌, String, Bool, true, false, not, ◌||◌, List, [], ◌∷◌, Dict, lookup, lookup_or, Option,
  none, some, ℤ, pos, ltb, if◌then◌else◌, get_elem?, str_eq,
}
use large_model_proxy.Config.{Config, ServiceConfig, get_idle_timeout}
use large_model_proxy.Manager.{ResourceManager, RunningService, is_zero, no_connections}
use large_model_proxy.Services.Heap.{set}

-- What the loop reads besides the map it runs over.
pub record Scene : Type 0 where
  pub configs : Dict ServiceConfig
  pub heap : List RunningService
  pub manager : ResourceManager

-- The mutex is taken and given back within the function, so a free one stays free.
unfoldable pub can_be_stopped : ResourceManager → String → RunningService → Bool
can_be_stopped m name running =
    if running.manage_mutex
    then false
    else is_zero (lookup_or no_connections name m.connection_stats).proxied

-- The earliest time of last use seen so far, and the service that it belongs to.
abbrev pub Earliest : Type 0
Earliest = ℕ × String

abbrev pub earlier : String → Option ℕ → Earliest → Earliest
earlier name none best = best
earlier name (some used) best = if ltb used best.0 then (used, name) else best

abbrev pub weigh : Scene → String → RunningService → Earliest → Earliest
weigh w name running best =
    if can_be_stopped w.manager name running then earlier name running.last_used best else best

unfoldable pub consider : Scene → String → String → String → ℕ → Earliest → Option Earliest
unfolding can_be_stopped lookup_or
consider w requesting missing name p best =
    if str_eq name requesting then some best else elim (lookup name w.configs) [
      | none ↦ none
      | some s ↦
          if is_zero (lookup_or (pos 0) missing s.resource_requirements)
          then some best
          else elim (get_elem? w.heap p) [
            | none ↦ none
            | some running ↦ some (weigh w name running best)
          ]
    ]

unfoldable pub earliest_of : Scene → String → String → Dict ℕ → Earliest → Option Earliest
earliest_of w requesting missing [] best = some best
earliest_of w requesting missing ((name, p) ∷ entries) best =
    elim (consider w requesting missing name p best) [
      | none ↦ none
      | some better ↦ earliest_of w requesting missing entries better
    ]

-- findEarliestLastUsedServiceUsingResource; the empty text is no service.
unfoldable pub find_earliest_last_used_service : Scene → String → String → ℕ → Option String
find_earliest_last_used_service w requesting missing now =
    elim (earliest_of w requesting missing w.manager.running_services (now, "")) [
      | none ↦ none
      | some best ↦ some best.1
    ]

-- Reset of a timer that exists.
abbrev pub reset_timer : ℕ → Option ℕ → Option ℕ
reset_timer at none = none
reset_timer at (some old) = some at

-- trackServiceLastUsed; the flag it is given only decides whether a miss is logged.
unfoldable pub track_service_last_used :
    Config → ServiceConfig → ℕ → ResourceManager → List RunningService → List RunningService
track_service_last_used c s now m heap = elim (lookup s.name m.running_services) [
  | none ↦ heap
  | some p ↦ elim (get_elem? heap p) [
    | none ↦ heap
    | some running ↦ set heap p (record running {
      last_used = some now;
      idle_timer = reset_timer (now + get_idle_timeout c s) running.idle_timer;
    })
  ]
]
