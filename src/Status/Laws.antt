-- ===== src/Status/Laws.antt =====
-- management_api.go, handleStatus: what the answer says of services and resources.
use large_model_proxy.Base.{
  ℕ, ◌≡◌, refl, ap, ◌∙◌, String, List, [], ◌∷◌, Dict, lookup, map, Option, pos, sub, lookup_or,
  true, false, if◌then◌else◌, none, some, ℤ, str_eq, arith, All, Bool-cases, Option-cases, inl, inr,
  ◌⊎◌, eq_iff,
}
use large_model_proxy.Config.{Config, ServiceConfig, ResourceAvailable, is_blank}
use large_model_proxy.Resources.{resource_of}
use large_model_proxy.Config.Url.{Library}
use large_model_proxy.Manager.{
  ResourceManager, RunningService, adjust, is_zero, map_value, lookup-adjust,
}
use large_model_proxy.Status.{
  ServiceState, stopped, waiting_for_resources, starting, running, ServiceStatus, ResourceUsage,
  StatusResponse, omit_empty, initial_usage, initial_resources, add_use, add_uses, state_of,
  stopped_status, add_status, add_statuses, handle_status, replies,
}

-- An entry without the amounts by service.
abbrev pub numbers : ResourceUsage → ResourceUsage
numbers u = record u { usage_by_service = [] }

numbers_of : String → Dict ResourceUsage → Option ResourceUsage
numbers_of r resources = map_value numbers (lookup r resources)

numbers_of-adjust :
    (r q name : String) (amount : ℤ) (resources : Dict ResourceUsage)
    → numbers_of r (adjust q (add_use name amount) resources) ≡ numbers_of r resources
unfolding numbers_of
numbers_of-adjust r q name amount resources = elim (Bool-cases (str_eq q r)) [
  | inr e ↦ rw (lookup-adjust, e)
  | inl e ↦ elim (Option-cases (lookup r resources)) [
    | inl f ↦ rw (lookup-adjust, e, f)
    | inr (u, f) ↦ rw (lookup-adjust, e, f)
  ]
]

numbers_of-add_uses :
    (r name : String) (reqs : Dict ℤ) (resources : Dict ResourceUsage)
    → numbers_of r (add_uses name reqs resources) ≡ numbers_of r resources
unfolding add_uses
numbers_of-add_uses r name [] resources = refl
numbers_of-add_uses r name ((q, amount) ∷ reqs) resources =
    numbers_of-add_uses r name reqs (adjust q (add_use name amount) resources)
    ∙ numbers_of-adjust r q name amount resources

numbers_of-add_status :
    (heap : ℕ → RunningService) (r : String) (s : ServiceConfig) (t : ServiceStatus) (p : Option ℕ)
    (resources : Dict ResourceUsage)
    → numbers_of r (add_status heap s t p resources).1 ≡ numbers_of r resources
unfolding add_status
numbers_of-add_status heap r s t none resources = refl
numbers_of-add_status heap r s t (some p) resources =
    numbers_of-add_uses r s.name s.resource_requirements resources

resource_of-some :
    (c : Config) (r : String) (a : ResourceAvailable)
    → lookup r c.resources_available ≡ some a
    → resource_of c r ≡ a
unfolding lookup_or
resource_of-some c r a h = rw h

module _ (lib : Library) (c : Config) (m : ResourceManager) (heap : ℕ → RunningService) where
  numbers_of-add_statuses :
      (r : String) (ss : List ServiceConfig) (resources : Dict ResourceUsage)
      → numbers_of r (add_statuses lib c m heap ss resources).resources ≡ numbers_of r resources
  unfolding add_statuses
  numbers_of-add_statuses r [] resources = refl
  numbers_of-add_statuses r (s ∷ ss) resources =
      numbers_of-add_statuses r ss _
      ∙ numbers_of-add_status heap r s (stopped_status lib c m s) (lookup s.name m.running_services)
          resources

  numbers_of-initial_resources :
      (r : String) (rs : Dict ResourceAvailable)
      → numbers_of r (initial_resources c m rs)
        ≡ elim (lookup r rs) [ none ↦ none | some a ↦ some (initial_usage c m r a) ]
  unfolding initial_resources initial_usage lookup numbers_of
  numbers_of-initial_resources r [] = refl
  numbers_of-initial_resources r ((q, a) ∷ rs) = elim (Bool-cases (str_eq q r)) [
    | inl e ↦
        let same : q ≡ r = (eq_iff q r).0 e in rw e (ap (λ z. some (initial_usage c m z a)) same)
    | inr e ↦ rw e (numbers_of-initial_resources r rs)
  ]

  -- What a state says of a registered service.
  abbrev IsStateOf : RunningService → ServiceState → Type 0
  IsStateOf rs stopped = ⊥
  IsStateOf rs waiting_for_resources = (rs.is_ready ≡ false) × (rs.is_waiting_for_resources ≡ true)
  IsStateOf rs starting = (rs.is_ready ≡ false) × (rs.is_waiting_for_resources ≡ false)
  IsStateOf rs running = rs.is_ready ≡ true

  abbrev pub IsTruthful : ServiceStatus → Type 0
  IsTruthful t =
      ((lookup t.name m.running_services ≡ none) × (t.status ≡ stopped))
      ⊎ ((p : ℕ) × (lookup t.name m.running_services ≡ some p)
          × IsStateOf (heap p) t.status
          × (t.last_used ≡ (heap p).last_used))

  state_of-IsStateOf : (rs : RunningService) → IsStateOf rs (state_of rs)
  unfolding state_of
  state_of-IsStateOf rs = elim (Bool-cases rs.is_ready) [
    | inl e ↦ rw e refl
    | inr e ↦ elim (Bool-cases rs.is_waiting_for_resources) [
      | inl f ↦ rw (e, f) (refl, refl)
      | inr f ↦ rw (e, f) (refl, refl)
    ]
  ]

  add_status-IsTruthful :
      (s : ServiceConfig) (resources : Dict ResourceUsage)
      → IsTruthful
          (add_status heap s
            (stopped_status lib c m s)
            (lookup s.name m.running_services)
            resources).0
  unfolding add_status stopped_status
  add_status-IsTruthful s resources = elim (Option-cases (lookup s.name m.running_services)) [
    | inl e ↦ rw e (inl (e, refl))
    | inr (p, e) ↦ rw e (inr (p, e, state_of-IsStateOf (heap p), refl))
  ]

  add_status-name :
      (s : ServiceConfig) (p : Option ℕ) (resources : Dict ResourceUsage)
      → (add_status heap s (stopped_status lib c m s) p resources).0.name ≡ s.name
  unfolding add_status stopped_status
  add_status-name s none resources = refl
  add_status-name s (some p) resources = refl

  add_statuses-IsTruthful :
      (ss : List ServiceConfig) (resources : Dict ResourceUsage)
      → (map (λ t. t.name) (add_statuses lib c m heap ss resources).services ≡ map (λ s. s.name) ss)
        × All IsTruthful (add_statuses lib c m heap ss resources).services
  unfolding add_statuses
  add_statuses-IsTruthful [] resources = (refl, tt)
  add_statuses-IsTruthful (s ∷ ss) resources =
      let p = lookup s.name m.running_services in
      let changed = (add_status heap s (stopped_status lib c m s) p resources).1 in
      let (names, rest) = add_statuses-IsTruthful ss changed in
      (cc (add_status-name s p resources, names), (add_status-IsTruthful s resources, rest))

  -- The answer lists the services in the order of the configuration, each once, and its status is
  -- right: stopped exactly if no instance is registered for the name; otherwise running if that
  -- instance is ready, waiting_for_resources if it is not ready and waits for resources, and starting
  -- if neither, with the instance's last use.
  pub handle_status-IsTruthful :
      (services : List ServiceConfig) (answer : StatusResponse)
      → handle_status lib c m heap "GET" services ≡ replies answer
      → (map (λ t. t.name) answer.services ≡ map (λ s. s.name) services)
        × All IsTruthful answer.services
  unfolding handle_status
  handle_status-IsTruthful services answer h =
      let initial = initial_resources c m c.resources_available in
      let q : answer ≡ add_statuses lib c m heap services initial = cc h in
      rw q (add_statuses-IsTruthful services initial)

  -- Each configured resource has an entry, and whatever the services add to it, its total is the
  -- configured amount, left out if that is zero, its reserved and used amounts are those of the books, and its free amount is
  -- the total less the used amount, or the last measurement if the resource has a CheckCommand.
  pub handle_status-numbers :
      (r : String) (a : ResourceAvailable) (services : List ServiceConfig) (answer : StatusResponse)
      → handle_status lib c m heap "GET" services ≡ replies answer
      → lookup r c.resources_available ≡ some a
      → (u : ResourceUsage) × (lookup r answer.resources ≡ some u)
        × (u.total ≡ (if is_zero a.amount then none else some a.amount))
        × (u.reserved_by_starting_services ≡ lookup_or (pos 0) r m.resources_reserved)
        × (u.in_use ≡ lookup_or (pos 0) r m.resources_in_use)
        × (u.free ≡ (
            if is_blank a.check_command
            then sub a.amount (lookup_or (pos 0) r m.resources_in_use)
            else lookup_or (pos 0) r m.resources_available))
  unfolding handle_status numbers_of initial_usage
  handle_status-numbers r a services answer h k =
      let initial = initial_resources c m c.resources_available in
      let q : answer ≡ add_statuses lib c m heap services initial = cc h in
      let same : map_value numbers (lookup r answer.resources) ≡ some (initial_usage c m r a) =
        rw q (
          numbers_of-add_statuses r services initial
          ∙ numbers_of-initial_resources r c.resources_available
          ∙ ap (λ o. elim o [ none ↦ none | some b ↦ some (initial_usage c m r b) ]) k) in
      let configured : resource_of c r ≡ a = resource_of-some c r a k in
      elim (Option-cases (lookup r answer.resources)) [
        | inl e ↦ ground (arith, same, e)
        | inr (u, e) ↦
            let known : numbers u ≡ initial_usage c m r a = cc (rw e at same) in
            (
              u,
              e,
              ap (λ n. n.total) known ∙ ap (λ x. omit_empty x.amount) configured,
              ap (λ n. n.reserved_by_starting_services) known,
              ap (λ n. n.in_use) known,
              ap (λ n. n.free) known
                  ∙ ap
                      (λ x.
                        if is_blank a.check_command
                        then sub x.amount (lookup_or (pos 0) r m.resources_in_use)
                        else lookup_or (pos 0) r m.resources_available)
                      configured,
            )
      ]
