-- ===== src/Samples.antt =====
-- A configuration with one resource and two services, for the tests of several modules.
use large_model_proxy.Base.{String, true, false, [], ◌∷◌, Dict, none, some, ℤ, pos}
use large_model_proxy.Config.{Config, ServiceConfig, normal}
use large_model_proxy.Manager.{ResourceManager}

abbrev pub service : String → Dict ℤ → ServiceConfig
service name requirements = record {
  name = name;
  listen_port = "8080";
  proxy_target_host = "localhost";
  proxy_target_port = "18080";
  command = "serve";
  args = "";
  kill_command = none;
  log_file_path = "";
  workdir = "";
  healthcheck_command = "";
  startup_timeout_milliseconds = none;
  healthcheck_interval_milliseconds = 0;
  shut_down_after_inactivity_seconds = 0;
  restart_on_connection_failure = false;
  consider_stopped_on_process_exit = some true;
  open_ai_api = false;
  open_ai_api_models = [];
  service_url = none;
  resource_requirements = requirements;
}

abbrev pub text_model : ServiceConfig
text_model = service "text" (("VRAM", pos 6) ∷ [])

abbrev pub image_model : ServiceConfig
image_model = service "image" (("VRAM", pos 5) ∷ [])

abbrev pub gpu : Config
gpu = record {
  shut_down_after_inactivity_seconds = 120;
  max_time_to_wait_seconds = none;
  output_service_logs = some true;
  client_request_buffer_limit_bytes = none;
  log_level = normal;
  default_service_url = none;
  services = text_model ∷ image_model ∷ [];
  resources_available =
      (
        "VRAM",
        record {
          amount = pos 10;
          check_command = "";
          check_when_not_enough_interval_milliseconds = 0;
        },
      )
      ∷ [];
  open_ai_api_listen_port = "";
  management_api_listen_port = "";
}

abbrev pub idle : ResourceManager
idle = record {
  resources_in_use = ("VRAM", pos 0) ∷ [];
  running_services = [];
  resources_reserved = ("VRAM", pos 0) ∷ [];
  resources_available = ("VRAM", pos 0) ∷ [];
  connection_stats = [];
  monitor_unpause_chans = [];
  check_command_first_change_by_resource_chans = [];
  resource_change_by_resource_chans = ("VRAM", []) ∷ [];
}
