-- ===== src/Config/Url.antt =====
-- config.go, lines 16-101, 142-210 and 212-238: the values that the configuration reads by hand from
-- JSON, and the URL template that a service uses.
mod Laws
mod Examples
use large_model_proxy.Base.{
  ℕ, String, Bool, true, false, not, ◌&&◌, Option, none, some, ℤ, pos, ◌==◌, str_eq, if◌then◌else◌,
}
use large_model_proxy.Config.{
  ServiceUrlOption, ServiceConfig, ResourceAvailable, LogLevel, debug, normal, no_resource,
  is_blank,
}
use large_model_proxy.Manager.{is_zero}

-- Go's standard library as far as the configuration uses it: Parse and Execute of text/template,
-- the latter with a value for PORT, and strconv.Atoi. `none` is an error.
pub record Library : Type 1 where
  pub Template : Type 0
  pub parse : String → Option Template
  pub execute : Template → String → Option String
  pub atoi : String → Option ℤ

unfoldable pub is_null : ServiceUrlOption → Bool
is_null s = s.is_set && elim s.value [ none ↦ true | some v ↦ false ]

unfoldable pub value : ServiceUrlOption → String
value s = elim s.value [ none ↦ "" | some v ↦ v ]

unfoldable pub is_empty : ServiceUrlOption → Bool
is_empty s = not s.is_set

-- encoding/json as far as these conversions use it, on JSON in its written form: Marshal of a string,
-- and Unmarshal into a string variable, where `none` is an error.
pub record Json : Type 0 where
  pub marshal : String → String
  pub unmarshal : String → Option String

unfoldable pub unmarshal_url : Json → String → Option ServiceUrlOption
unmarshal_url json raw =
    if str_eq raw "null"
    then some (record { value = none; is_set = true })
    else elim (json.unmarshal raw) [
      | none ↦ none
      | some t ↦ some (record { value = some t; is_set = true })
    ]

unfoldable pub marshal_url : Json → ServiceUrlOption → String
marshal_url json s =
    if not s.is_set then "null" else elim s.value [ none ↦ "null" | some t ↦ json.marshal t ]

-- ServiceConfig.UnmarshalJSON of what the strict decoder makes of the other fields, if it takes them, and
-- of the raw ServiceUrl, if there is one.
unfoldable pub unmarshal_service :
    Json → Option ServiceConfig → Option String → Option ServiceConfig
unfolding unmarshal_url
unmarshal_service json none raw = none
unmarshal_service json (some s) none = some (record s { service_url = none })
unmarshal_service json (some s) (some raw) = elim (unmarshal_url json raw) [
  | none ↦ none
  | some u ↦ some (record s { service_url = some u })
]

abbrev pub log_level_of : String → Option LogLevel
log_level_of t =
    if str_eq t "Debug" then some debug else if str_eq t "Normal" then some normal else none

unfoldable pub unmarshal_log_level : Json → String → Option LogLevel
unmarshal_log_level json raw = elim (json.unmarshal raw) [ none ↦ none | some t ↦ log_level_of t ]

-- An entry of ResourcesAvailable: null, a number, an object without unknown fields (an absent field
-- is zero), or what neither decoder takes.
pub data RawResource : Type 0 where
  resource_null resource_refused : RawResource
  resource_number : ℤ → RawResource
  resource_object : ℤ → String → ℕ → RawResource

unfoldable pub unmarshal_resource : RawResource → Option ResourceAvailable
unmarshal_resource resource_null = some no_resource
unmarshal_resource (resource_number n) = some (record no_resource { amount = n })
unmarshal_resource (resource_object amount command interval) =
    if is_zero amount && is_blank command
    then none
    else some (record {
      amount = amount;
      check_command = command;
      check_when_not_enough_interval_milliseconds = if interval == 0 then 1000 else interval;
    })
unmarshal_resource resource_refused = none

pub data UrlTemplate (T : Type 0) : Type 0 where
  no_url invalid_url : UrlTemplate T
  url : T → UrlTemplate T

abbrev pub parsed : {T : Type 0} → Option T → UrlTemplate T
parsed none = invalid_url
parsed (some t) = url t

abbrev pub default_template : (lib : Library) → Option String → UrlTemplate lib.Template
default_template lib none = no_url
default_template lib (some t) = parsed (lib.parse t)

-- GetServiceUrlTemplate of a ServiceUrl pointer and the default.
unfoldable pub get_service_url_template :
    (lib : Library) → Option ServiceUrlOption → Option String → UrlTemplate lib.Template
unfolding is_null value
get_service_url_template lib none default = default_template lib default
get_service_url_template lib (some s) default =
    if s.is_set
    then (if is_null s then no_url else parsed (lib.parse (value s)))
    else default_template lib default
