-- ===== src/Config/Validation/Examples.antt =====
-- A configuration with two services on two ports, and decimal ports read by a small table.
use large_model_proxy.Base.{
  ◌≡◌, ◌↔◌, refl, String, [], ◌∷◌, Option, none, some, ℤ, pos, if◌then◌else◌, str_eq, lookup,
  lookup_or, insert, delete,
}
use large_model_proxy.Config.{Config}
use large_model_proxy.Config.Url.{Library, get_service_url_template}
use large_model_proxy.Config.Validation.{
  validate_config, load_config, loaded, service_ports, port_set, port_issues, name_issues,
  listen_port_issues, resource_issues, requirement_issues, healthcheck_issues, reach_issues,
  command_issues, url_issues, top_port_issues, with_defaults, default_url_issues,
  service_name_or_index, shared_port,
}
use large_model_proxy.Config.Validation.Complete.{IsAccepted, validate_config-IsAccepted}
use large_model_proxy.Samples.{gpu, text_model, image_model}

abbrev two_ports : String → Option ℤ
two_ports t =
    if str_eq t "8080" then some (pos 8080) else if str_eq t "8081" then some (pos 8081) else none

abbrev plain : Library
plain = record {
  Template = String;
  parse = (λ t. some t);
  execute = (λ t port. some port);
  atoi = two_ports;
}

abbrev two_services : Config
two_services = record gpu {
  services = text_model ∷ record image_model { listen_port = "8081" } ∷ [];
}

no_issues : validate_config plain two_services ≡ []
unfolding validate_config default_url_issues name_issues port_issues port_set service_ports
    listen_port_issues resource_issues requirement_issues healthcheck_issues reach_issues
    command_issues url_issues top_port_issues get_service_url_template lookup_or lookup insert
    delete service_name_or_index
no_issues = refl

-- Both services of the sample listen on one port.
shared : validate_config plain gpu ≡ shared_port "8080" ("text" ∷ "image" ∷ []) ∷ []
unfolding validate_config default_url_issues name_issues port_issues port_set service_ports
    listen_port_issues resource_issues requirement_issues healthcheck_issues reach_issues
    command_issues url_issues top_port_issues get_service_url_template lookup_or lookup insert
    delete service_name_or_index
shared = refl

validate_config-IsAccepted_example :
    (validate_config plain two_services ≡ []) ↔ IsAccepted plain two_services
validate_config-IsAccepted_example = validate_config-IsAccepted plain two_services

loads : load_config plain two_services ≡ loaded two_services
unfolding load_config with_defaults
loads = rw no_issues
