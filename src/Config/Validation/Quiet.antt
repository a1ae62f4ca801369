-- ===== src/Config/Validation/Quiet.antt =====
-- config.go, validateConfig: an empty list of issues is one of which every pass found nothing.
use large_model_proxy.Base.{◌≡◌, []}
use large_model_proxy.Config.{Config}
use large_model_proxy.Config.Url.{Library}
use large_model_proxy.Config.Validation.{
  default_url_issues, name_issues, port_issues, port_set, each_service, listen_port_issues,
  resource_issues, healthcheck_issues, reach_issues, command_issues, url_issues, top_port_issues,
  validate_config, invalid_open_ai_port, invalid_management_port,
}
use large_model_proxy.Config.Validation.Lists.{append-nil_inv}

-- Every pass found nothing.
pub record IsQuiet (lib : Library) (c : Config) : Type 0 where
  pub default_url : default_url_issues lib c.default_service_url ≡ []
  pub names : name_issues 0 [] c.services ≡ []
  pub ports : port_issues (port_set c) ≡ []
  pub listen : each_service (listen_port_issues lib) 0 c.services ≡ []
  pub resources : each_service (resource_issues c) 0 c.services ≡ []
  pub health : each_service healthcheck_issues 0 c.services ≡ []
  pub reach : each_service reach_issues 0 c.services ≡ []
  pub commands : each_service command_issues 0 c.services ≡ []
  pub urls : each_service (url_issues lib c) 0 c.services ≡ []
  pub open_ai_port : top_port_issues lib c.open_ai_api_listen_port invalid_open_ai_port ≡ []
  pub management_port :
      top_port_issues lib c.management_api_listen_port invalid_management_port ≡ []

pub validate_config-IsQuiet :
    (lib : Library) (c : Config) → validate_config lib c ≡ [] → IsQuiet lib c
unfolding validate_config
validate_config-IsQuiet lib c h =
    let (h₁, management) =
      append-nil_inv _ (top_port_issues lib c.management_api_listen_port _) h in
    let (h₂, open_ai) = append-nil_inv _ (top_port_issues lib c.open_ai_api_listen_port _) h₁ in
    let (h₃, urls) = append-nil_inv _ (each_service (url_issues lib c) 0 c.services) h₂ in
    let (h₄, commands) = append-nil_inv _ (each_service command_issues 0 c.services) h₃ in
    let (h₅, reach) = append-nil_inv _ (each_service reach_issues 0 c.services) h₄ in
    let (h₆, health) = append-nil_inv _ (each_service healthcheck_issues 0 c.services) h₅ in
    let (h₇, resources) = append-nil_inv _ (each_service (resource_issues c) 0 c.services) h₆ in
    let (h₈, listen) = append-nil_inv _ (each_service (listen_port_issues lib) 0 c.services) h₇ in
    let (h₉, ports) = append-nil_inv _ (port_issues (port_set c)) h₈ in
    let (default_url, names) = append-nil_inv _ (name_issues 0 [] c.services) h₉ in
    record {
      default_url = default_url;
      names = names;
      ports = ports;
      listen = listen;
      resources = resources;
      health = health;
      reach = reach;
      commands = commands;
      urls = urls;
      open_ai_port = open_ai;
      management_port = management;
    }

pub IsQuiet-validate_config :
    (lib : Library) (c : Config) → IsQuiet lib c → validate_config lib c ≡ []
unfolding validate_config
IsQuiet-validate_config lib c h = simp (
  h.default_url, h.names, h.ports, h.listen, h.resources, h.health, h.reach, h.commands, h.urls,
  h.open_ai_port, h.management_port,
)
