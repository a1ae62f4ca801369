-- ===== src/Config/Validation.antt =====
-- config.go, lines 272-441: the validation of a configuration and the defaults it gets. The error is
-- the list of the issues in the order of the code's passes; an issue holds what its message prints.
mod Lists
pub mod Ports
mod Shared
mod Passes
mod Quiet
pub mod Sound
pub mod Complete
pub mod Load
mod Examples
use large_model_proxy.Base.{
  ℕ, suc, String, Bool, true, false, not, ◌&&◌, ◌||◌, List, [], ◌∷◌, ◌++◌, Dict, lookup, lookup_or,
  insert, Option, none, some, ℤ, pos, ltb_ℤ, leb_ℤ, ltb, length, if◌then◌else◌, str_eq,
}
use large_model_proxy.Config.{Config, ServiceConfig, LogLevel, unset, debug, normal, is_blank}
use large_model_proxy.Config.Url.{
  Library, UrlTemplate, no_url, invalid_url, url, get_service_url_template,
}

pub data Label : Type 0 where
  at_index : ℕ → Label
  named : String → Label

unfoldable pub service_name_or_index : String → ℕ → Label
service_name_or_index name i = if is_blank name then at_index i else named name

pub data Issue : Type 0 where
  invalid_default_url invalid_open_ai_port invalid_management_port : Issue
  empty_name : ℕ → Issue
  duplicate_name : String → Issue
  shared_port : String → List String → Issue
  no_listen_port invalid_listen_port idle_healthcheck unreachable no_command invalid_service_url :
      Label → Issue
  unknown_resource : Label → String → Issue

abbrev pub issue_if : Bool → Issue → List Issue
issue_if true i = i ∷ []
issue_if false i = []

abbrev pub contains : String → List String → Bool
contains n [] = false
contains n (m ∷ ms) = if str_eq m n then true else contains n ms

abbrev pub parse_fails : Library → String → Bool
parse_fails lib t = elim (lib.parse t) [ none ↦ true | some u ↦ false ]

abbrev pub is_port : Library → String → Bool
is_port lib t = elim (lib.atoi t) [ none ↦ false | some v ↦ ltb_ℤ (pos 0) v && leb_ℤ v (pos 65535) ]

unfoldable pub default_url_issues : Library → Option String → List Issue
default_url_issues lib none = []
default_url_issues lib (some t) =
    issue_if (not (is_blank t) && parse_fails lib t) invalid_default_url

-- `seen` is nameSet.
unfoldable pub name_issues : ℕ → List String → List ServiceConfig → List Issue
name_issues i seen [] = []
name_issues i seen (s ∷ ss) =
    let blank = is_blank s.name in
    let known = contains s.name seen in
    issue_if blank (empty_name i)
    ++ issue_if (not blank && known) (duplicate_name s.name)
    ++ name_issues (suc i) (if blank || known then seen else s.name ∷ seen) ss

abbrev pub add_port : String → String → Dict (List String) → Dict (List String)
add_port port name ports =
    if is_blank port then ports else insert port (lookup_or [] port ports ++ name ∷ []) ports

unfoldable pub service_ports : List ServiceConfig → Dict (List String) → Dict (List String)
service_ports [] ports = ports
service_ports (s ∷ ss) ports = service_ports ss (add_port s.listen_port s.name ports)

unfoldable pub port_set : Config → Dict (List String)
unfolding service_ports
port_set c =
    add_port c.management_api_listen_port "Management API"
      (add_port c.open_ai_api_listen_port "Open AI API" (service_ports c.services []))

unfoldable pub port_issues : Dict (List String) → List Issue
port_issues [] = []
port_issues ((port, names) ∷ ports) =
    issue_if (ltb 1 (length names)) (shared_port port names) ++ port_issues ports

-- The loops over the services with their indices.
abbrev pub each_service : (ℕ → ServiceConfig → List Issue) → ℕ → List ServiceConfig → List Issue
each_service check i [] = []
each_service check i (s ∷ ss) = check i s ++ each_service check (suc i) ss

unfoldable pub listen_port_issues : Library → ℕ → ServiceConfig → List Issue
unfolding service_name_or_index
listen_port_issues lib i s =
    let label = service_name_or_index s.name i in
    if is_blank s.listen_port
    then issue_if (not s.open_ai_api) (no_listen_port label)
    else issue_if (not (is_port lib s.listen_port)) (invalid_listen_port label)

abbrev pub is_none {ℓ} : {A : Type ℓ} → Option A → Bool
is_none none = true
is_none (some a) = false

unfoldable pub requirement_issues : Config → Label → Dict ℤ → List Issue
requirement_issues c label [] = []
requirement_issues c label ((r, a) ∷ rs) =
    issue_if (is_none (lookup r c.resources_available)) (unknown_resource label r)
    ++ requirement_issues c label rs

unfoldable pub resource_issues : Config → ℕ → ServiceConfig → List Issue
unfolding service_name_or_index requirement_issues
resource_issues c i s =
    requirement_issues c (service_name_or_index s.name i) s.resource_requirements

unfoldable pub healthcheck_issues : ℕ → ServiceConfig → List Issue
unfolding service_name_or_index
healthcheck_issues i s =
    issue_if (ltb 0 s.healthcheck_interval_milliseconds && is_blank s.healthcheck_command)
      (idle_healthcheck (service_name_or_index s.name i))

unfoldable pub reach_issues : ℕ → ServiceConfig → List Issue
unfolding service_name_or_index
reach_issues i s =
    issue_if (not s.open_ai_api && is_blank s.listen_port)
      (unreachable (service_name_or_index s.name i))

unfoldable pub command_issues : ℕ → ServiceConfig → List Issue
unfolding service_name_or_index
command_issues i s = issue_if (is_blank s.command) (no_command (service_name_or_index s.name i))

abbrev pub is_invalid : {T : Type 0} → UrlTemplate T → Bool
is_invalid no_url = false
is_invalid (url t) = false
is_invalid invalid_url = true

unfoldable pub url_issues : Library → Config → ℕ → ServiceConfig → List Issue
unfolding service_name_or_index get_service_url_template
url_issues lib c i s =
    issue_if (is_invalid (get_service_url_template lib s.service_url c.default_service_url))
      (invalid_service_url (service_name_or_index s.name i))

unfoldable pub top_port_issues : Library → String → Issue → List Issue
top_port_issues lib port issue = issue_if (not (is_blank port) && not (is_port lib port)) issue

unfoldable pub validate_config : Library → Config → List Issue
unfolding default_url_issues name_issues port_issues port_set listen_port_issues resource_issues
    healthcheck_issues reach_issues command_issues url_issues top_port_issues
validate_config lib c =
    default_url_issues lib c.default_service_url
    ++ name_issues 0 [] c.services
    ++ port_issues (port_set c)
    ++ each_service (listen_port_issues lib) 0 c.services
    ++ each_service (resource_issues c) 0 c.services
    ++ each_service healthcheck_issues 0 c.services
    ++ each_service reach_issues 0 c.services
    ++ each_service command_issues 0 c.services
    ++ each_service (url_issues lib c) 0 c.services
    ++ top_port_issues lib c.open_ai_api_listen_port invalid_open_ai_port
    ++ top_port_issues lib c.management_api_listen_port invalid_management_port

-- loadConfigFromReader behind the decoders.
abbrev pub or_normal : LogLevel → LogLevel
or_normal unset = normal
or_normal debug = debug
or_normal normal = normal

abbrev pub or_true : Option Bool → Option Bool
or_true none = some true
or_true (some b) = some b

unfoldable pub with_defaults : List ServiceConfig → List ServiceConfig
with_defaults [] = []
with_defaults (s ∷ ss) =
    record s { consider_stopped_on_process_exit = or_true s.consider_stopped_on_process_exit }
    ∷ with_defaults ss

pub data Loaded : Type 0 where
  loaded : Config → Loaded
  refused : Config → List Issue → Loaded

-- The end of loadConfigFromReader, behind validateConfig.
abbrev pub finish : Config → List Issue → Loaded
finish c [] = loaded (record c {
  output_service_logs = or_true c.output_service_logs;
  services = with_defaults c.services;
})
finish c (i ∷ issues) = refused c (i ∷ issues)

abbrev pub with_log_level : Config → Config
with_log_level c = record c { log_level = or_normal c.log_level }

unfoldable pub load_config : Library → Config → Loaded
unfolding validate_config
load_config lib decoded =
    finish (with_log_level decoded) (validate_config lib (with_log_level decoded))
