-- ===== src/Status.antt =====
-- management_api.go, lines 11-193: the answer of the management API's /status. The mutexes are held
-- around what is read, so a request is one step on a snapshot; the heap gives the RunningService
-- behind each pointer. The encoding of the answer as JSON is left out, but for a total of zero, which
-- it omits.
mod Laws
mod Usage
mod Examples
use large_model_proxy.Base.{
  ℕ, String, Bool, true, false, List, [], ◌∷◌, Dict, lookup, lookup_or, insert, map, Option, none,
  some, ℤ, pos, sub, if◌then◌else◌, str_eq,
}
use large_model_proxy.Config.{Config, ServiceConfig, ResourceAvailable, is_blank}
use large_model_proxy.Config.Url.{
  Library, UrlTemplate, no_url, invalid_url, url, get_service_url_template,
}
use large_model_proxy.Manager.{
  ResourceManager, RunningService, ServiceConnectionStats, no_connections, adjust, is_zero,
}
use large_model_proxy.Resources.{resource_of}

pub data ServiceState : Type 0 where
  stopped waiting_for_resources starting running : ServiceState

pub record ServiceStatus : Type 0 where
  pub name : String
  pub listen_port : String
  pub status : ServiceState
  pub waiting_connections : ℤ
  pub proxied_connections : ℤ
  pub last_used : Option ℕ
  pub service_url : Option String
  pub resource_requirements : Dict ℤ

pub record ResourceUsage : Type 0 where
  -- omitempty: an amount of zero is left out of the answer
  pub total : Option ℤ
  pub reserved_by_starting_services : ℤ
  pub in_use : ℤ
  pub free : ℤ
  pub usage_by_service : Dict ℤ

pub record StatusResponse : Type 0 where
  pub services : List ServiceStatus
  pub resources : Dict ResourceUsage

-- encoding/json's omitempty for an int.
abbrev pub omit_empty : ℤ → Option ℤ
omit_empty n = if is_zero n then none else some n

unfoldable pub initial_usage : Config → ResourceManager → String → ResourceAvailable → ResourceUsage
unfolding lookup_or
initial_usage c m r a = record {
  total = omit_empty (resource_of c r).amount;
  reserved_by_starting_services = lookup_or (pos 0) r m.resources_reserved;
  in_use = lookup_or (pos 0) r m.resources_in_use;
  free =
      if is_blank a.check_command
      then sub (resource_of c r).amount (lookup_or (pos 0) r m.resources_in_use)
      else lookup_or (pos 0) r m.resources_available;
  usage_by_service = [];
}

-- The keys of the map that the loop runs over differ, so each assignment makes one entry.
unfoldable pub initial_resources :
    Config → ResourceManager → Dict ResourceAvailable → Dict ResourceUsage
unfolding initial_usage
initial_resources c m [] = []
initial_resources c m ((r, a) ∷ rs) = (r, initial_usage c m r a) ∷ initial_resources c m rs

abbrev pub add_use : String → ℤ → ResourceUsage → ResourceUsage
add_use name amount u = record u { usage_by_service = insert name amount u.usage_by_service }

unfoldable pub add_uses : String → Dict ℤ → Dict ResourceUsage → Dict ResourceUsage
add_uses name [] resources = resources
add_uses name ((r, amount) ∷ rs) resources =
    add_uses name rs (adjust r (add_use name amount) resources)

unfoldable pub state_of : RunningService → ServiceState
state_of rs =
    if rs.is_ready
    then running
    else if rs.is_waiting_for_resources
    then waiting_for_resources
    else starting

unfoldable pub rendered_url : Library → Config → ServiceConfig → Option String
unfolding get_service_url_template
rendered_url lib c s = elim (get_service_url_template lib s.service_url c.default_service_url) [
  | no_url ↦ none
  | invalid_url ↦ none
  | url t ↦ if is_blank s.listen_port then none else lib.execute t s.listen_port
]

unfoldable pub stopped_status : Library → Config → ResourceManager → ServiceConfig → ServiceStatus
unfolding rendered_url lookup_or
stopped_status lib c m s =
    let stats = lookup_or no_connections s.name m.connection_stats in
    record {
      name = s.name;
      listen_port = s.listen_port;
      status = stopped;
      waiting_connections = stats.waiting;
      proxied_connections = stats.proxied;
      last_used = none;
      service_url = rendered_url lib c s;
      resource_requirements = s.resource_requirements;
    }

-- The body of the loop over the services, given the pointer that runningServices holds for the name.
unfoldable pub add_status :
    (ℕ → RunningService)
    → ServiceConfig
    → ServiceStatus
    → Option ℕ
    → Dict ResourceUsage
    → ServiceStatus × Dict ResourceUsage
unfolding state_of add_uses
add_status heap s status none resources = (status, resources)
add_status heap s status (some p) resources = (
  record status { status = state_of (heap p); last_used = (heap p).last_used },
  add_uses s.name s.resource_requirements resources,
)

unfoldable pub add_statuses :
    Library
    → Config
    → ResourceManager
    → (ℕ → RunningService)
    → List ServiceConfig
    → Dict ResourceUsage
    → StatusResponse
unfolding add_status stopped_status
add_statuses lib c m heap [] resources = record { services = []; resources = resources }
add_statuses lib c m heap (s ∷ ss) resources =
    let (status, changed) =
      add_status heap s (stopped_status lib c m s) (lookup s.name m.running_services) resources in
    let rest = add_statuses lib c m heap ss changed in
    record rest { services = status ∷ rest.services }

pub data Reply : Type 0 where
  method_not_allowed : Reply
  replies : StatusResponse → Reply

unfoldable pub handle_status :
    Library → Config → ResourceManager → (ℕ → RunningService) → String → List ServiceConfig → Reply
unfolding add_statuses initial_resources
handle_status lib c m heap method services =
    if str_eq method "GET"
    then replies (add_statuses lib c m heap services (initial_resources c m c.resources_available))
    else method_not_allowed

-- startManagementApi: the handlers of its two patterns, the second of which is for all other paths.
pub data Page : Type 0 where
  status_page : Reply → Page
  index_page not_found : Page

unfoldable pub serve_management_api :
    Library
    → Config
    → ResourceManager
    → (ℕ → RunningService)
    → List ServiceConfig
    → String
    → String
    → Page
unfolding handle_status
serve_management_api lib c m heap services method path =
    if str_eq path "/status"
    then status_page (handle_status lib c m heap method services)
    else if str_eq path "/"
    then index_page
    else not_found
