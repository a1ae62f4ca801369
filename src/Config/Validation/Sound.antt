-- ===== src/Config/Validation/Sound.antt =====
-- config.go, validateConfig: what is known of a configuration that it lets through.
use large_model_proxy.Base.{
  ℕ, suc, ◌≤◌, ◌≡◌, ◌≢◌, String, true, false, not, ◌&&◌, ◌||◌, List, [], ◌∷◌, Dict, lookup, none,
  some, ℤ, pos, ◌<ℤ◌, ◌≤ℤ◌, arith, str_eq, if◌then◌else◌, All, Bool-cases, Option-cases, inl, inr,
  ◌⊎◌, map,
}
use large_model_proxy.Config.{Config, ServiceConfig, is_blank}
use large_model_proxy.Config.Url.{Library, invalid_url, get_service_url_template}
use large_model_proxy.Config.Validation.{
  Label, issue_if, contains, name_issues, empty_name, listen_port_issues, resource_issues,
  requirement_issues, is_none, healthcheck_issues, command_issues, url_issues, validate_config,
}
use large_model_proxy.Config.Validation.Quiet.{validate_config-IsQuiet}
use large_model_proxy.Config.Validation.Lists.{append-nil_inv, issue_if-nil, each_service-nil}
use large_model_proxy.Config.Validation.Ports.{listeners, port_issues-listeners}

abbrev pub Distinct : List String → Type 0
Distinct [] = Unit
Distinct (n ∷ ns) = All (λ m. str_eq n m ≡ false) ns × Distinct ns

-- The text is not empty and a number from 1 to 65535.
abbrev pub IsPort : Library → String → Type 0
IsPort lib t =
    (is_blank t ≡ false) × (v : ℤ) × (lib.atoi t ≡ some v) × (pos 0 <ℤ v) × (v ≤ℤ pos 65535)

-- A service that the proxy can start and a client can reach.
pub record IsServable (lib : Library) (c : Config) (s : ServiceConfig) : Type 0 where
  pub listens :
      ((is_blank s.listen_port ≡ true) × (s.open_ai_api ≡ true)) ⊎ IsPort lib s.listen_port
  pub provided : All (λ r. lookup r.0 c.resources_available ≢ none) s.resource_requirements
  pub checked : (s.healthcheck_interval_milliseconds ≡ 0) ⊎ (is_blank s.healthcheck_command ≡ false)
  pub runs : is_blank s.command ≡ false
  pub url_parses : get_service_url_template lib s.service_url c.default_service_url ≢ invalid_url

listen_port_issues-IsPort :
    (lib : Library) (i : ℕ) (s : ServiceConfig)
    → listen_port_issues lib i s ≡ []
    → ((is_blank s.listen_port ≡ true) × (s.open_ai_api ≡ true)) ⊎ IsPort lib s.listen_port
unfolding listen_port_issues
listen_port_issues-IsPort lib i s h = elim (Bool-cases (is_blank s.listen_port)) [
  | inl e ↦ inl (e, ground (arith, h, e))
  | inr e ↦ elim (Option-cases (lib.atoi s.listen_port)) [
    | inl gap ↦ ground (arith, h, e, gap)
    | inr (v, f) ↦ inr (e, v, f, ground (arith, h, e, f), ground (arith, h, e, f))
  ]
]

requirement_issues-provided :
    (c : Config) (label : Label) (rs : Dict ℤ)
    → requirement_issues c label rs ≡ []
    → All (λ r. lookup r.0 c.resources_available ≢ none) rs
unfolding requirement_issues
requirement_issues-provided c label [] h = tt
requirement_issues-provided c label ((r, a) ∷ rs) h =
    let (here, there) = append-nil_inv _ (requirement_issues c label rs) h in
    let found = issue_if-nil (is_none (lookup r c.resources_available)) _ here in
    ((λ gone. ground (arith, gone, found)), requirement_issues-provided c label rs there)

resource_issues-provided :
    (c : Config) (i : ℕ) (s : ServiceConfig)
    → resource_issues c i s ≡ []
    → All (λ r. lookup r.0 c.resources_available ≢ none) s.resource_requirements
unfolding resource_issues
resource_issues-provided c i s h = requirement_issues-provided c _ s.resource_requirements h

healthcheck_issues-checked :
    (i : ℕ) (s : ServiceConfig)
    → healthcheck_issues i s ≡ []
    → (s.healthcheck_interval_milliseconds ≡ 0) ⊎ (is_blank s.healthcheck_command ≡ false)
unfolding healthcheck_issues
healthcheck_issues-checked i s h = elim (Bool-cases (is_blank s.healthcheck_command)) [
  | inl e ↦ inl (ground (arith, issue_if-nil _ _ h, e))
  | inr e ↦ inr e
]

url_issues-parses :
    (lib : Library) (c : Config) (i : ℕ) (s : ServiceConfig)
    → url_issues lib c i s ≡ []
    → get_service_url_template lib s.service_url c.default_service_url ≢ invalid_url
unfolding url_issues
url_issues-parses lib c i s h bad = ground (arith, issue_if-nil _ _ h, bad)

command_issues-runs :
    (i : ℕ) (s : ServiceConfig) → command_issues i s ≡ [] → is_blank s.command ≡ false
unfolding command_issues
command_issues-runs i s h = issue_if-nil _ _ h

unseen :
    (m : String) (seen ns : List String)
    → All (λ n. contains n (m ∷ seen) ≡ false) ns
    → All (λ n. str_eq m n ≡ false) ns × All (λ n. contains n seen ≡ false) ns
unseen m seen [] h = (tt, tt)
unseen m seen (n ∷ ns) (h, hs) =
    let (new, rest) = unseen m seen ns hs in
    elim (Bool-cases (str_eq m n)) [
      | inl e ↦ ground (arith, h, e)
      | inr e ↦ ((e, new), (ground (arith, h, e), rest))
    ]

name_issues-Distinct :
    (i : ℕ) (seen : List String) (ss : List ServiceConfig)
    → name_issues i seen ss ≡ []
    → All (λ s. is_blank s.name ≡ false) ss
      × All (λ n. contains n seen ≡ false) (map (λ s. s.name) ss)
      × Distinct (map (λ s. s.name) ss)
unfolding name_issues
name_issues-Distinct i seen [] h = (tt, tt, tt)
name_issues-Distinct i seen (s ∷ ss) h =
    let blank = is_blank s.name in
    let known = contains s.name seen in
    let (h₁₂, h₃) =
      append-nil_inv _ (name_issues (suc i) (if blank || known then seen else s.name ∷ seen) ss)
        h in
    let (h₁, h₂) =
      append-nil_inv (issue_if blank (empty_name i)) (issue_if (not blank && known) _) h₁₂ in
    let filled : is_blank s.name ≡ false = issue_if-nil _ _ h₁ in
    let new : contains s.name seen ≡ false = ground (arith, filled, issue_if-nil _ _ h₂) in
    let (names, apart, distinct) =
      name_issues-Distinct (suc i) (s.name ∷ seen) ss (rw (filled, new) at h₃) in
    let (others, still) = unseen s.name seen (map (λ x. x.name) ss) apart in
    ((filled, names), (new, still), (others, distinct))

All-IsServable :
    (lib : Library) (c : Config) (ss : List ServiceConfig)
    → All
        (λ s.
          (((is_blank s.listen_port ≡ true) × (s.open_ai_api ≡ true)) ⊎ IsPort lib s.listen_port))
        ss
    → All (λ s. All (λ r. lookup r.0 c.resources_available ≢ none) s.resource_requirements) ss
    → All
        (λ s. (s.healthcheck_interval_milliseconds ≡ 0) ⊎ (is_blank s.healthcheck_command ≡ false))
        ss
    → All (λ s. is_blank s.command ≡ false) ss
    → All (λ s. get_service_url_template lib s.service_url c.default_service_url ≢ invalid_url) ss
    → All (IsServable lib c) ss
All-IsServable lib c [] h₁ h₂ h₃ h₄ h₅ = tt
All-IsServable lib c (s ∷ ss) h₁ h₂ h₃ h₄ h₅ = (
  record { listens = h₁.0; provided = h₂.0; checked = h₃.0; runs = h₄.0; url_parses = h₅.0 },
  All-IsServable lib c ss h₁.1 h₂.1 h₃.1 h₄.1 h₅.1,
)

-- What a configuration should be: names are there and differ, no port has two
-- listeners, the APIs included, and every service can be started and reached.
pub record IsValid (lib : Library) (c : Config) : Type 0 where
  pub filled : All (λ s. is_blank s.name ≡ false) c.services
  pub distinct : Distinct (map (λ s. s.name) c.services)
  pub ports : (p : String) → is_blank p ≡ false → listeners p c ≤ 1
  pub servable : All (IsServable lib c) c.services

-- A configuration in which validateConfig finds no issue is one whose services have names, all
-- different, in which every port has at most one listener among the services and both APIs, and each
-- of whose services has a listen port from 1 to 65535, or none and is open to the OpenAI API, requires
-- only resources that are provided, has a health check command if it has an interval for it, has a
-- command, and has a URL template that parses, if any.
pub validate_config-IsValid :
    (lib : Library) (c : Config) → validate_config lib c ≡ [] → IsValid lib c
unfolding validate_config
validate_config-IsValid lib c h =
    let quiet = validate_config-IsQuiet lib c h in
    let (filled, _, distinct) = name_issues-Distinct 0 [] c.services quiet.names in
    record {
      filled = filled;
      distinct = distinct;
      ports = (λ p e. port_issues-listeners p c e quiet.ports);
      servable =
          All-IsServable lib c c.services
            (each_service-nil _ _ (listen_port_issues-IsPort lib) 0 c.services quiet.listen)
            (each_service-nil _ _ (resource_issues-provided c) 0 c.services quiet.resources)
            (each_service-nil _ _ healthcheck_issues-checked 0 c.services quiet.health)
            (each_service-nil _ _ command_issues-runs 0 c.services quiet.commands)
            (each_service-nil _ _ (url_issues-parses lib c) 0 c.services quiet.urls);
    }
