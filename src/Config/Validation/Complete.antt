-- ===== src/Config/Validation/Complete.antt =====
-- config.go, validateConfig: the configurations that it accepts.
use large_model_proxy.Base.{
  ◌≡◌, ◌≢◌, refl, true, false, List, [], ◌∷◌, Option, none, some, arith, Option-cases, Bool-cases,
  inl, inr, ◌⊎◌, ◌↔◌, All, String,
}
use large_model_proxy.Config.{Config, is_blank}
use large_model_proxy.Config.Url.{Library}
use large_model_proxy.Config.Validation.{
  Issue, contains, default_url_issues, top_port_issues, validate_config,
}
use large_model_proxy.Config.Validation.Quiet.{validate_config-IsQuiet, IsQuiet-validate_config}
use large_model_proxy.Config.Validation.Shared.{port_set-few}
use large_model_proxy.Config.Validation.Passes.{
  each_service-quiet, listen_port_issues-quiet, resource_issues-quiet, healthcheck_issues-quiet,
  reach_issues-quiet, command_issues-quiet, url_issues-quiet, name_issues-quiet,
}
use large_model_proxy.Config.Validation.Sound.{IsPort, IsValid, validate_config-IsValid}

-- The default URL template is not given, is empty, or parses.
abbrev pub DefaultParses : Library → Option String → Type 0
DefaultParses lib none = Unit
DefaultParses lib (some t) = (is_blank t ≡ true) ⊎ (lib.parse t ≢ none)

-- An API is switched off, or has a port.
abbrev pub IsOffOrPort : Library → String → Type 0
IsOffOrPort lib port = (is_blank port ≡ true) ⊎ IsPort lib port

-- All that validateConfig asks of a configuration.
pub record IsAccepted (lib : Library) (c : Config) : Type 0 where
  pub valid : IsValid lib c
  pub default_url : DefaultParses lib c.default_service_url
  pub open_ai_port : IsOffOrPort lib c.open_ai_api_listen_port
  pub management_port : IsOffOrPort lib c.management_api_listen_port

default_url_issues_iff :
    (lib : Library) (t : Option String) → (default_url_issues lib t ≡ []) ↔ DefaultParses lib t
unfolding default_url_issues
default_url_issues_iff lib none = ((λ h. tt), (λ h. refl))
default_url_issues_iff lib (some t) = elim (Bool-cases (is_blank t)) [
  | inl e ↦ ((λ h. inl e), (λ h. rw e))
  | inr e ↦ elim (Option-cases (lib.parse t)) [
    | inl f ↦ ((λ h. ground (arith, h, e, f)), (λ h. ground (arith, h, e, f)))
    | inr (u, f) ↦ ((λ h. inr (λ g. ground (arith, f, g))), (λ h. ground (arith, e, f)))
  ]
]

top_port_issues_iff :
    (lib : Library) (port : String) (issue : Issue)
    → (top_port_issues lib port issue ≡ []) ↔ IsOffOrPort lib port
unfolding top_port_issues
top_port_issues_iff lib port issue = elim (Bool-cases (is_blank port)) [
  | inl e ↦ ((λ h. inl e), (λ h. rw e))
  | inr e ↦ elim (Option-cases (lib.atoi port)) [
    | inl f ↦ ((λ h. ground (arith, h, e, f)), (λ h. ground (arith, h, e, f)))
    | inr (v, f) ↦ (
      (λ h. inr (e, v, f, ground (arith, h, e, f), ground (arith, h, e, f))),
      (λ h. ground (arith, h, e, f)),
    )
  ]
]

unseen_all : (ns : List String) → All (λ n. contains n [] ≡ false) ns
unseen_all [] = tt
unseen_all (n ∷ ns) = (refl, unseen_all ns)

-- validateConfig finds no issue exactly in the configurations that have what it asks for: the default
-- URL template parses unless it is empty or missing; the services have names, all different; a port
-- has at most one listener among the services and both APIs; each service has a listen port from 1 to
-- 65535, or none and is open to the OpenAI API, requires only resources that are provided, has a
-- health check command if it has an interval for it, has a command, and has a URL template that
-- parses, if any; and each API that has a port has one from 1 to 65535.
pub validate_config-IsAccepted :
    (lib : Library) (c : Config) → (validate_config lib c ≡ []) ↔ IsAccepted lib c
validate_config-IsAccepted lib c = (
  (λ h.
      let quiet = validate_config-IsQuiet lib c h in
      record {
        valid = validate_config-IsValid lib c h;
        default_url = (default_url_issues_iff lib c.default_service_url).0 quiet.default_url;
        open_ai_port = (top_port_issues_iff lib c.open_ai_api_listen_port _).0 quiet.open_ai_port;
        management_port =
            (top_port_issues_iff lib c.management_api_listen_port _).0 quiet.management_port;
      }),
  (λ h. IsQuiet-validate_config lib c (record {
    default_url = (default_url_issues_iff lib c.default_service_url).1 h.default_url;
    names = name_issues-quiet 0 [] c.services h.valid.filled (unseen_all _) h.valid.distinct;
    ports = port_set-few c h.valid.ports;
    listen = each_service-quiet _ _ (listen_port_issues-quiet lib c) 0 c.services h.valid.servable;
    resources = each_service-quiet _ _ (resource_issues-quiet lib c) 0 c.services h.valid.servable;
    health = each_service-quiet _ _ (healthcheck_issues-quiet lib c) 0 c.services h.valid.servable;
    reach = each_service-quiet _ _ (reach_issues-quiet lib c) 0 c.services h.valid.servable;
    commands = each_service-quiet _ _ (command_issues-quiet lib c) 0 c.services h.valid.servable;
    urls = each_service-quiet _ _ (url_issues-quiet lib c) 0 c.services h.valid.servable;
    open_ai_port = (top_port_issues_iff lib c.open_ai_api_listen_port _).1 h.open_ai_port;
    management_port = (top_port_issues_iff lib c.management_api_listen_port _).1 h.management_port;
  })),
)
