-- ===== src/StartUp/Ready.antt =====
-- main.go: what the rest of the program looks up without a test is there from the start.
use large_model_proxy.Base.{
  ◌≡◌, ◌≢◌, refl, String, Bool, false, List, [], ◌∷◌, Dict, lookup, lookup_or, lookup-insert,
  insert, none, some, ℤ, str_eq, str_eq_self, arith, All, Bool-cases, Option-cases, inl, inr, map,
  eq_iff, ◌∙◌,
}
use large_model_proxy.Config.{Config, ServiceConfig, ResourceAvailable, is_blank}
use large_model_proxy.Config.Url.{Library}
use large_model_proxy.Config.Validation.{validate_config}
use large_model_proxy.Config.Validation.Sound.{Distinct, validate_config-IsValid}
use large_model_proxy.Manager.{ResourceManager}
use large_model_proxy.Resources.{reserve_pass}
use large_model_proxy.Resources.Reserve.{HasChannels, reserve_pass-total}
use large_model_proxy.StartUp.{
  register_amounts, register_monitor, register_resource, register_resources, initial_manager,
  service_configs_from, service_config_by_name,
}

service_configs_from-other :
    (n : String) (ss : List ServiceConfig) (configs : Dict ServiceConfig)
    → All (λ m. str_eq n m ≡ false) (map (λ s. s.name) ss)
    → lookup n (service_configs_from ss configs) ≡ lookup n configs
unfolding service_configs_from
service_configs_from-other n [] configs h = refl
service_configs_from-other n (s ∷ ss) configs h = ground (
  arith,
  service_configs_from-other n ss (insert s.name s configs) h.1,
  lookup-insert s.name n s configs,
  h.0,
  eq_iff n s.name,
  eq_iff s.name n,
)

service_configs_from-All :
    (ss : List ServiceConfig) (configs : Dict ServiceConfig)
    → Distinct (map (λ s. s.name) ss)
    → All (λ s. lookup s.name (service_configs_from ss configs) ≡ some s) ss
unfolding service_configs_from
service_configs_from-All [] configs h = tt
service_configs_from-All (s ∷ ss) configs (others, rest) = (
  service_configs_from-other s.name ss (insert s.name s configs) others
      ∙ rw (lookup-insert, str_eq_self),
  service_configs_from-All ss (insert s.name s configs) rest,
)

-- The resource has its map of services that wait for a first measurement.
abbrev Registered : String → ResourceManager → Type 0
Registered r m = lookup r m.check_command_first_change_by_resource_chans ≢ none

register_resource-keeps :
    (r q : String) (a : ResourceAvailable) (m : ResourceManager)
    → Registered r m
    → Registered r (register_resource q a m)
unfolding register_resource register_amounts register_monitor
register_resource-keeps r q a m h = elim (Bool-cases (is_blank a.check_command)) [
  | inl e ↦ rw e h
  | inr e ↦ rw e (λ gone.
      ground (arith, h, gone, lookup-insert q r [] m.check_command_first_change_by_resource_chans))
]

register_resource-adds :
    (r : String) (a : ResourceAvailable) (m : ResourceManager)
    → is_blank a.check_command ≡ false
    → Registered r (register_resource r a m)
unfolding register_resource register_amounts register_monitor
register_resource-adds r a m h = rw h (λ gone. ground (
  arith,
  gone,
  lookup-insert r r [] m.check_command_first_change_by_resource_chans,
  str_eq_self r,
))

register_resources-keeps :
    (r : String) (rs : Dict ResourceAvailable) (m : ResourceManager)
    → Registered r m
    → Registered r (register_resources rs m)
unfolding register_resources
register_resources-keeps r [] m h = h
register_resources-keeps r ((q, a) ∷ rs) m h =
    register_resources-keeps r rs (register_resource q a m) (register_resource-keeps r q a m h)

register_resources-adds :
    (r : String) (a : ResourceAvailable) (rs : Dict ResourceAvailable) (m : ResourceManager)
    → lookup r rs ≡ some a
    → is_blank a.check_command ≡ false
    → Registered r (register_resources rs m)
unfolding register_resources lookup
register_resources-adds r a [] m e h = ground (arith, e)
register_resources-adds r a ((q, b) ∷ rs) m e h = elim (Bool-cases (str_eq q r)) [
  | inl same ↦
      let b_is_a : b ≡ a = cc (rw same at e) in
      let q_is_r : q ≡ r = (eq_iff q r).0 same in
      rw (b_is_a, q_is_r)
        (register_resources-keeps r rs (register_resource r a m) (register_resource-adds r a m h))
  | inr other ↦ register_resources-adds r a rs (register_resource q b m) (rw other at e) h
]

initial_manager-HasChannels : (c : Config) (e : String × ℤ) → HasChannels c (initial_manager c) e
unfolding initial_manager lookup_or
initial_manager-HasChannels c (r, required) h =
    elim (Option-cases (lookup r c.resources_available)) [
      | inl e ↦ ground (arith, rw e at h)
      | inr (a, e) ↦ register_resources-adds r a c.resources_available _ e (rw e at h)
    ]

All-of : {A : Type 0} (P : A → Type 0) (xs : List A) → ((x : A) → P x) → All P xs
All-of P [] f = tt
All-of P (x ∷ xs) f = (f x, All-of P xs f)

All-both :
    {A : Type 0} (P Q : A → Type 0) (xs : List A)
    → All P xs
    → ((x : A) → Q x)
    → All (λ x. P x × Q x) xs
All-both P Q [] h f = tt
All-both P Q (x ∷ xs) (h, hs) f = ((h, f x), All-both P Q xs hs f)

-- In a configuration that validation lets through, the name of each service finds its own
-- configuration, and no service's first round of reserveResources panics, with or without a demand for
-- fresh measurements.
pub started-IsReady :
    (lib : Library) (c : Config)
    → validate_config lib c ≡ []
    → All
        (λ s.
          (lookup s.name (service_config_by_name c) ≡ some s)
          × ((recheck : Bool)
              → reserve_pass c s.resource_requirements s.name recheck (initial_manager c) ≢ none))
        c.services
unfolding service_config_by_name
started-IsReady lib c h =
    All-both _ _ c.services
      (service_configs_from-All c.services [] (validate_config-IsValid lib c h).distinct)
      (λ s recheck.
        reserve_pass-total c s.resource_requirements s.name recheck (initial_manager c) (
          All-of (HasChannels c (initial_manager c)) s.resource_requirements
            (initial_manager-HasChannels c)))
