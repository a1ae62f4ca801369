-- ===== src/StartUp.antt =====
-- main.go, lines 110-203: the state that main builds from the configuration before anything runs.
-- The maps are filled entry by entry as the loops do. Flags, listeners and goroutines are not state.
pub mod Initial
pub mod Ready
pub mod Program
mod Examples
use large_model_proxy.Base.{
  String, Bool, true, false, List, [], ◌∷◌, Dict, insert, Option, none, some, pos, if◌then◌else◌,
}
use large_model_proxy.Config.{Config, ServiceConfig, ResourceAvailable, is_blank}
use large_model_proxy.Manager.{ResourceManager, no_connections}

abbrev pub empty_manager : ResourceManager
empty_manager = record {
  resources_in_use = [];
  running_services = [];
  resources_reserved = [];
  resources_available = [];
  connection_stats = [];
  monitor_unpause_chans = [];
  check_command_first_change_by_resource_chans = [];
  resource_change_by_resource_chans = [];
}

-- serviceConfigByName; a later service of one name would take the place of an earlier one.
unfoldable pub service_configs_from : List ServiceConfig → Dict ServiceConfig → Dict ServiceConfig
service_configs_from [] configs = configs
service_configs_from (s ∷ ss) configs = service_configs_from ss (insert s.name s configs)

unfoldable pub service_config_by_name : Config → Dict ServiceConfig
unfolding service_configs_from
service_config_by_name c = service_configs_from c.services []

unfoldable pub register_services : List ServiceConfig → ResourceManager → ResourceManager
register_services [] m = m
register_services (s ∷ ss) m =
    register_services ss
      (record m { connection_stats = insert s.name no_connections m.connection_stats })

-- The amounts and the listeners of one resource.
unfoldable pub register_amounts : String → ResourceManager → ResourceManager
register_amounts r m = record m {
  resources_available = insert r (pos 0) m.resources_available;
  resources_in_use = insert r (pos 0) m.resources_in_use;
  resources_reserved = insert r (pos 0) m.resources_reserved;
  resource_change_by_resource_chans = insert r [] m.resource_change_by_resource_chans;
}

-- What a resource with a CheckCommand has besides.
unfoldable pub register_monitor : String → ResourceManager → ResourceManager
register_monitor r m = record m {
  monitor_unpause_chans = insert r none m.monitor_unpause_chans;
  check_command_first_change_by_resource_chans =
      insert r [] m.check_command_first_change_by_resource_chans;
}

unfoldable pub register_resource : String → ResourceAvailable → ResourceManager → ResourceManager
unfolding register_amounts register_monitor
register_resource r a m =
    if is_blank a.check_command
    then register_amounts r m
    else register_monitor r (register_amounts r m)

unfoldable pub register_resources : Dict ResourceAvailable → ResourceManager → ResourceManager
unfolding register_resource
register_resources [] m = m
register_resources ((r, a) ∷ rs) m = register_resources rs (register_resource r a m)

unfoldable pub initial_manager : Config → ResourceManager
unfolding register_services register_resources
initial_manager c =
    register_resources c.resources_available (register_services c.services empty_manager)
