-- ===== src/StartUp/Examples.antt =====
-- The program started with a card of ten and two services.
use large_model_proxy.Base.{
  ◌≡◌, ◌≢◌, refl, Bool, true, String, [], ◌∷◌, List, All, none, some, pos, ◌≤ℤ◌, arith, lookup,
  lookup_or, if◌then◌else◌, str_eq, insert, delete,
}
use large_model_proxy.Config.{Config}
use large_model_proxy.Config.Url.{Library, get_service_url_template}
use large_model_proxy.Config.Validation.{
  validate_config, service_ports, port_set, port_issues, name_issues, listen_port_issues,
  resource_issues, requirement_issues, healthcheck_issues, reach_issues, command_issues, url_issues,
  top_port_issues, default_url_issues, service_name_or_index,
}
use large_model_proxy.Resources.{reserve_pass}
use large_model_proxy.Resources.Amounts.{held}
use large_model_proxy.Services.{Action, begin, reserve, run}
use large_model_proxy.StartUp.{service_config_by_name, initial_manager}
use large_model_proxy.StartUp.Initial.{started, started_within_capacity}
use large_model_proxy.StartUp.Ready.{started-IsReady}
use large_model_proxy.StartUp.Program.{
  goroutines, monitors_of, proxies_of, config_file_path, fprintf_error, sigint, signal_to_string,
}
use large_model_proxy.StartUp.Program.Ports.{ports}
use large_model_proxy.Samples.{gpu, text_model, image_model}

abbrev schedule : List Action
schedule = begin text_model 0 ∷ reserve 0 true ∷ begin image_model 1 ∷ reserve 1 true ∷ []

started_within_capacity_example :
    let books = (run gpu (started gpu) schedule).manager.resources_in_use in
    (pos 0 ≤ℤ held "VRAM" books) × (held "VRAM" books ≤ℤ pos 10)
unfolding lookup_or lookup
started_within_capacity_example =
    started_within_capacity gpu schedule "VRAM" refl (omega arith) (omega arith) (omega arith)

abbrev plain : Library
plain = record {
  Template = String;
  parse = λ t. some t;
  execute = λ t port. some port;
  atoi = λ t. if str_eq t "8080" then some (pos 8080) else some (pos 8081);
}

-- Atoi of a library that reads two spellings of one port.
abbrev lenient : Library
lenient = record plain { atoi = λ t. some (pos 8080) }

abbrev one_port_twice : Config
one_port_twice = record gpu {
  services = text_model ∷ record image_model { listen_port = "08080" } ∷ [];
}

-- Two services on one port pass the validation if the texts of their ports differ.
spellings_pass : validate_config lenient one_port_twice ≡ []
unfolding validate_config default_url_issues name_issues port_issues port_set service_ports
    listen_port_issues resource_issues requirement_issues healthcheck_issues reach_issues
    command_issues url_issues top_port_issues get_service_url_template lookup_or lookup insert
    delete service_name_or_index
spellings_pass = refl

spellings_listen : ports (goroutines one_port_twice) ≡ "8080" ∷ "08080" ∷ []
unfolding goroutines monitors_of proxies_of
spellings_listen = refl

abbrev two_services : Config
two_services = record gpu {
  services = text_model ∷ record image_model { listen_port = "8081" } ∷ [];
}

no_issues : validate_config plain two_services ≡ []
unfolding validate_config default_url_issues name_issues port_issues port_set service_ports
    listen_port_issues resource_issues requirement_issues healthcheck_issues reach_issues
    command_issues url_issues top_port_issues get_service_url_template lookup_or lookup insert
    delete service_name_or_index
no_issues = refl

started-IsReady_example :
    All
      (λ s.
        (lookup s.name (service_config_by_name two_services) ≡ some s)
        × ((recheck : Bool)
            → reserve_pass two_services s.resource_requirements s.name recheck
                (initial_manager two_services)
              ≢ none))
      two_services.services
started-IsReady_example = started-IsReady plain two_services no_issues

two_listeners : ports (goroutines two_services) ≡ "8080" ∷ "8081" ∷ []
unfolding goroutines monitors_of proxies_of
two_listeners = refl

falls_back : config_file_path (λ f. str_eq f "config.jsonc") "" ≡ some "config.jsonc"
unfolding config_file_path
falls_back = refl

in_red : fprintf_error true "no" ≡ "\u{1b}[1;31mno\u{1b}[0m"
unfolding fprintf_error
in_red = refl

interrupt_name : signal_to_string sigint ≡ "SIGINT"
unfolding signal_to_string
interrupt_name = refl
