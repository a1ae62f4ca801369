-- ===== src/Config/Url/Examples.antt =====
-- A URL that is set to null, and a resource with a command and no interval.
use large_model_proxy.Base.{
  String, ◌≤◌, ◌⊎◌, ◌≡◌, refl, true, none, some, pos, ◌↔◌, str_eq, if◌then◌else◌, ◌-◌, arith,
}
use Prim.Native.String.{◌++◌, slice, len}
use large_model_proxy.Config.{ServiceUrlOption, ResourceAvailable, debug, is_blank}
use large_model_proxy.Config.Url.{
  unmarshal_url, marshal_url, unmarshal_resource, resource_object, unmarshal_service,
  unmarshal_log_level, Json,
}
use large_model_proxy.Samples.{text_model}
use large_model_proxy.Config.Url.Laws.{
  unmarshal_url-marshal_url, unmarshal_resource-interval, IsRead,
}

abbrev null_url : ServiceUrlOption
null_url = record { value = none; is_set = true }

-- Texts in which nothing has to be escaped.
abbrev plain_json : Json
plain_json = record {
  marshal = (λ t. "\"" ++ (t ++ "\""));
  unmarshal = (λ raw. if str_eq raw "null" then some "" else some (slice raw 1 (len raw - 1)));
}

abbrev null_text : String
null_text = "null"

-- The text null, not JSON's null.
abbrev text_null : ServiceUrlOption
text_null = record { value = some null_text; is_set = true }

unmarshal_url-marshal_url_example :
    (unmarshal_url plain_json (marshal_url plain_json text_null) ≡ some text_null)
    × ((marshal_url plain_json text_null ≡ "null") ↔ (some null_text ≡ none))
unmarshal_url-marshal_url_example =
    unmarshal_url-marshal_url plain_json text_null refl
      (λ t e. let same : null_text ≡ t = ground (arith, e) in rw (← same) refl)
      (λ t e. let same : null_text ≡ t = ground (arith, e) in rw (← same) refl)

abbrev measured : ResourceAvailable
measured = record {
  amount = pos 0;
  check_command = "free_vram";
  check_when_not_enough_interval_milliseconds = 1000;
}

is_measured : unmarshal_resource (resource_object (pos 0) "free_vram" 0) ≡ some measured
unfolding unmarshal_resource
is_measured = refl

unmarshal_resource-interval_example :
    ((is_blank measured.check_command ≡ true)
      ⊎ (1 ≤ measured.check_when_not_enough_interval_milliseconds))
    × IsRead (resource_object (pos 0) "free_vram" 0) measured
unmarshal_resource-interval_example =
    unmarshal_resource-interval (resource_object (pos 0) "free_vram" 0) measured is_measured

-- An object whose amount is zero and which has no command is refused, as if both were missing.
zero_is_refused : unmarshal_resource (resource_object (pos 0) "" 0) ≡ none
unfolding unmarshal_resource
zero_is_refused = refl

-- A service whose ServiceUrl is null has one that is set, and one without the field has none.
null_is_set :
    unmarshal_service plain_json (some text_model) (some "null")
    ≡ some (record text_model { service_url = some null_url })
unfolding unmarshal_service unmarshal_url
null_is_set = refl

absent_is_unset : unmarshal_service plain_json (some text_model) none ≡ some text_model
unfolding unmarshal_service
absent_is_unset = refl

levels_are_exact :
    (unmarshal_log_level plain_json "\"Debug\"" ≡ some debug)
    × (unmarshal_log_level plain_json "\"debug\"" ≡ none)
    × (unmarshal_log_level plain_json "null" ≡ none)
unfolding unmarshal_log_level
levels_are_exact = (refl, refl, refl)
