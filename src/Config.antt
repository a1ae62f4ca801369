-- ===== src/Config.antt =====
-- config.go: the configuration's data, and the helpers that read it.
pub mod Url
pub mod Validation
use large_model_proxy.Base.{
  ℕ, ◌*◌, String, Bool, List, Dict, Option, ℤ, pos, ◌==◌, if◌then◌else◌, str_eq,
}

-- A JSON field that is absent, null, or a text.
pub record ServiceUrlOption : Type 0 where
  pub value : Option String
  pub is_set : Bool

pub data LogLevel : Type 0 where
  unset debug normal : LogLevel

pub record ResourceAvailable : Type 0 where
  pub amount : ℤ
  pub check_command : String
  pub check_when_not_enough_interval_milliseconds : ℕ

pub record ServiceConfig : Type 0 where
  pub name : String
  pub listen_port : String
  pub proxy_target_host : String
  pub proxy_target_port : String
  pub command : String
  pub args : String
  pub kill_command : Option String
  pub log_file_path : String
  pub workdir : String
  pub healthcheck_command : String
  pub startup_timeout_milliseconds : Option ℕ
  pub healthcheck_interval_milliseconds : ℕ
  pub shut_down_after_inactivity_seconds : ℕ
  pub restart_on_connection_failure : Bool
  pub consider_stopped_on_process_exit : Option Bool
  pub open_ai_api : Bool
  pub open_ai_api_models : List String
  pub service_url : Option ServiceUrlOption
  pub resource_requirements : Dict ℤ

pub record Config : Type 0 where
  pub shut_down_after_inactivity_seconds : ℕ
  pub max_time_to_wait_seconds : Option ℕ
  pub output_service_logs : Option Bool
  pub client_request_buffer_limit_bytes : Option ℕ
  pub log_level : LogLevel
  pub default_service_url : Option String
  pub services : List ServiceConfig
  pub resources_available : Dict ResourceAvailable
  pub open_ai_api_listen_port : String
  pub management_api_listen_port : String

-- The zero value that Go reads for a missing key of ResourcesAvailable.
abbrev pub no_resource : ResourceAvailable
no_resource = record {
  amount = pos 0;
  check_command = "";
  check_when_not_enough_interval_milliseconds = 0;
}

abbrev pub second : ℕ
second = 1_000_000_000

abbrev pub is_blank : String → Bool
is_blank s = str_eq s ""

-- service.go, getIdleTimeout, in nanoseconds; 64-bit products stay below the modulus for the
-- timeouts of about 292 years and less that a time.Duration holds.
unfoldable pub get_idle_timeout : Config → ServiceConfig → ℕ
get_idle_timeout c s =
    let own = s.shut_down_after_inactivity_seconds in
    let idle = if own == 0 then c.shut_down_after_inactivity_seconds else own in
    (if idle == 0 then 2 * 60 else idle) * second
