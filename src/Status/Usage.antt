-- ===== src/Status/Usage.antt =====
-- management_api.go, handleStatus: which service uses how much of a resource.
use large_model_proxy.Base.{
  ℕ, ◌≡◌, refl, ap, ◌∙◌, String, true, false, ◌&&◌, List, [], ◌∷◌, Dict, lookup, lookup-insert, map,
  Option, none, some, ℤ, pos, sub, lookup_or, if◌then◌else◌, str_eq, eq_iff, arith, All, Bool-cases,
  Option-cases, inl, inr,
}
use large_model_proxy.Config.{Config, ServiceConfig, ResourceAvailable, is_blank}
use large_model_proxy.Config.Url.{Library}
use large_model_proxy.Config.Validation.Sound.{Distinct}
use large_model_proxy.Manager.{ResourceManager, RunningService, adjust, is_zero, lookup-adjust}
use large_model_proxy.Status.{
  ServiceStatus, ResourceUsage, StatusResponse, initial_usage, initial_resources, add_use, add_uses,
  stopped_status, add_status, add_statuses, handle_status, replies,
}
use large_model_proxy.Status.Laws.{handle_status-numbers}

-- A Go map has each key once.
abbrev pub IsMap : Dict ℤ → Type 0
IsMap [] = Unit
IsMap ((k, v) ∷ m) = (lookup k m ≡ none) × IsMap m

abbrev pub owner : String → List ServiceConfig → Option ServiceConfig
owner n [] = none
owner n (s ∷ ss) = let later = owner n ss in if str_eq s.name n then some s else later

-- What the answer should say under the name: what the service of that name requires, if an instance of it is
-- registered.
abbrev pub use_of : String → Option ServiceConfig → Option ℕ → Option ℤ
use_of r none p = none
use_of r (some s) none = none
use_of r (some s) (some p) = lookup r s.resource_requirements

abbrev used_in : String → Option ResourceUsage → Option (Option ℤ)
used_in n none = none
used_in n (some u) = some (lookup n u.usage_by_service)

-- The amount that the answer has under the name so far, if the resource has an entry.
abbrev used : String → String → Dict ResourceUsage → Option (Option ℤ)
used n r resources = used_in n (lookup r resources)

abbrev override : Option ℤ → Option ℤ → Option ℤ
override v none = v
override v (some x) = some x

override-none : (o : Option ℤ) → override none o ≡ o
override-none none = refl
override-none (some x) = refl

module _ (n r : String) where
  used-adjust :
      (q name : String) (x : ℤ) (resources : Dict ResourceUsage) (v : Option ℤ)
      → used n r resources ≡ some v
      → used n r (adjust q (add_use name x) resources)
        ≡ some (if str_eq q r && str_eq name n then some x else v)
  used-adjust q name x resources v h = elim (Bool-cases (str_eq q r)) [
    | inr e ↦ rw (lookup-adjust, e) h
    | inl e ↦ elim (Option-cases (lookup r resources)) [
      | inl f ↦ ground (arith, h, f)
      | inr (u, f) ↦
          let known : lookup n u.usage_by_service ≡ v = cc (rw f at h) in
          rw (lookup-adjust, e, f, lookup-insert, known)
    ]
  ]

  used-add_uses_other :
      (name : String) (reqs : Dict ℤ) (resources : Dict ResourceUsage) (v : Option ℤ)
      → str_eq name n ≡ false
      → used n r resources ≡ some v
      → used n r (add_uses name reqs resources) ≡ some v
  unfolding add_uses
  used-add_uses_other name [] resources v e h = h
  used-add_uses_other name ((q, x) ∷ reqs) resources v e h =
      used-add_uses_other name reqs (adjust q (add_use name x) resources) v e
        (ground (arith, used-adjust q name x resources v h, e))

  used-add_uses :
      (name : String) (reqs : Dict ℤ) (resources : Dict ResourceUsage) (v : Option ℤ)
      → str_eq name n ≡ true
      → IsMap reqs
      → used n r resources ≡ some v
      → used n r (add_uses name reqs resources) ≡ some (override v (lookup r reqs))
  unfolding add_uses lookup
  used-add_uses name [] resources v e once h = h
  used-add_uses name ((q, x) ∷ reqs) resources v e (new, once) h =
      let put = used-adjust q name x resources v h in
      elim (Bool-cases (str_eq q r)) [
        | inr f ↦
            let kept : used n r (adjust q (add_use name x) resources) ≡ some v = rw f at put in
            rw f (used-add_uses name reqs (adjust q (add_use name x) resources) v e once kept)
        | inl f ↦
            let same : q ≡ r = (eq_iff q r).0 f in
            let set_ : used n r (adjust q (add_use name x) resources) ≡ some (some x) =
              rw (f, e) at put in
            let gone : lookup r reqs ≡ none = rw same at new in
            rw f (
              used-add_uses name reqs (adjust q (add_use name x) resources) (some x) e once set_
              ∙ rw gone refl)
      ]

module _ (lib : Library) (c : Config) (m : ResourceManager) (heap : ℕ → RunningService)
    (n r : String) where
  used-add_status :
      (s : ServiceConfig) (t : ServiceStatus) (p : Option ℕ) (resources : Dict ResourceUsage)
      (v : Option ℤ)
      → IsMap s.resource_requirements
      → used n r resources ≡ some v
      → used n r (add_status heap s t p resources).1
        ≡ some (if str_eq s.name n then override v (use_of r (some s) p) else v)
  unfolding add_status
  used-add_status s t none resources v once h = ground (arith, h)
  used-add_status s t (some p) resources v once h = elim (Bool-cases (str_eq s.name n)) [
    | inl e ↦ rw e (used-add_uses n r s.name s.resource_requirements resources v e once h)
    | inr e ↦ rw e (used-add_uses_other n r s.name s.resource_requirements resources v e h)
  ]

  owner-absent :
      (name : String) (ss : List ServiceConfig)
      → All (λ k. str_eq name k ≡ false) (map (λ s. s.name) ss)
      → str_eq name n ≡ true
      → owner n ss ≡ none
  owner-absent name [] h e = refl
  owner-absent name (s ∷ ss) (d, h) e =
      let same : name ≡ n = (eq_iff name n).0 e in
      let other : str_eq s.name n ≡ false =
        ground (arith, d, eq_iff s.name n, eq_iff name s.name, same) in
      rw (owner-absent name ss h e, other)

  used-add_statuses :
      (ss : List ServiceConfig) (resources : Dict ResourceUsage) (v : Option ℤ)
      → Distinct (map (λ s. s.name) ss)
      → All (λ s. IsMap s.resource_requirements) ss
      → used n r resources ≡ some v
      → used n r (add_statuses lib c m heap ss resources).resources
        ≡ some (override v (use_of r (owner n ss) (lookup n m.running_services)))
  unfolding add_statuses
  used-add_statuses [] resources v d once h = h
  used-add_statuses (s ∷ ss) resources v (new, d) (one, once) h =
      let p = lookup s.name m.running_services in
      let t = stopped_status lib c m s in
      let changed = used-add_status s t p resources v one h in
      elim (Bool-cases (str_eq s.name n)) [
        | inr e ↦
            rw e
              (used-add_statuses ss (add_status heap s t p resources).1 v d once (rw e at changed))
        | inl e ↦
            let same : s.name ≡ n = (eq_iff s.name n).0 e in
            let at_n : lookup s.name m.running_services ≡ lookup n m.running_services =
              ap (λ k. lookup k m.running_services) same in
            rw (e, ← at_n)
              (used-add_statuses ss (add_status heap s t p resources).1
                  (override v (use_of r (some s) p)) d once (rw e at changed)
                ∙ rw (owner-absent s.name ss new e) refl)
      ]

  used-initial_resources :
      (rs : Dict ResourceAvailable) (a : ResourceAvailable)
      → lookup r rs ≡ some a
      → used n r (initial_resources c m rs) ≡ some none
  unfolding initial_resources initial_usage lookup
  used-initial_resources [] a h = ground (arith, h)
  used-initial_resources ((q, b) ∷ rs) a h = elim (Bool-cases (str_eq q r)) [
    | inl e ↦ rw e refl
    | inr e ↦ rw e (used-initial_resources rs a (rw e at h))
  ]

-- In the answer for a configuration with different names, each configured resource, with a CheckCommand
-- or without one, has an entry whose total is the configured Amount, left out exactly if that is
-- zero; whose reserved and used amounts are those of the books; whose free amount is the Amount less
-- the used amount, or the last measurement if the resource has a CheckCommand; and which has under a
-- name exactly what the service of that name requires of the resource, if an instance of it is
-- registered, be it running, starting or still waiting for its resources. (README.md leaves the total
-- out wherever there is a CheckCommand, and calls the amounts by service those reserved or in use.)
pub handle_status-usage :
    (lib : Library) (c : Config) (m : ResourceManager) (heap : ℕ → RunningService) (n r : String)
    (a : ResourceAvailable) (services : List ServiceConfig) (answer : StatusResponse)
    → handle_status lib c m heap "GET" services ≡ replies answer
    → lookup r c.resources_available ≡ some a
    → Distinct (map (λ s. s.name) services)
    → All (λ s. IsMap s.resource_requirements) services
    → (u : ResourceUsage) × (lookup r answer.resources ≡ some u)
      × (u.total ≡ (if is_zero a.amount then none else some a.amount))
      × (u.reserved_by_starting_services ≡ lookup_or (pos 0) r m.resources_reserved)
      × (u.in_use ≡ lookup_or (pos 0) r m.resources_in_use)
      × (u.free ≡ (
          if is_blank a.check_command
          then sub a.amount (lookup_or (pos 0) r m.resources_in_use)
          else lookup_or (pos 0) r m.resources_available))
      × (lookup n u.usage_by_service ≡ use_of r (owner n services) (lookup n m.running_services))
unfolding handle_status
handle_status-usage lib c m heap n r a services answer h k d once =
    let (u, e, total, reserved, in_use, free) =
      handle_status-numbers lib c m heap r a services answer h k in
    let initial = initial_resources c m c.resources_available in
    let q : answer ≡ add_statuses lib c m heap services initial = cc h in
    let uses : used n r answer.resources
        ≡ some (override none (use_of r (owner n services) (lookup n m.running_services))) =
      rw q (
        used-add_statuses lib c m heap n r services initial none d once
          (used-initial_resources lib c m heap n r c.resources_available a k)) in
    let wanted = use_of r (owner n services) (lookup n m.running_services) in
    let known : some (lookup n u.usage_by_service) ≡ some (override none wanted) = rw e at uses in
    let last : lookup n u.usage_by_service ≡ override none wanted = cc known in
    (u, e, total, reserved, in_use, free, last ∙ override-none wanted)
