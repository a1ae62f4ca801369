-- ===== src/OpenAi.antt =====
-- openai_api.go, lines 18-116 and 208-284: the models of the OpenAI API, the capture of a connection's
-- bytes, and which service a completions request goes to.
pub mod Models
pub mod Capture
mod Examples
use large_model_proxy.Base.{
  ℕ, String, Bool, true, false, not, List, [], ◌∷◌, ◌++◌, Dict, lookup, insert, map, Option, none,
  some, if◌then◌else◌, str_eq,
}
use large_model_proxy.Config.{ServiceConfig}

pub record OpenAiApiModel : Type 0 where
  pub id : String
  pub object : String
  pub owned_by : String
  pub created : ℕ

unfoldable pub create_open_ai_api_model : String → ℕ → OpenAiApiModel
create_open_ai_api_model name created_time = record {
  id = name;
  object = "model";
  owned_by = "large-model-proxy";
  created = created_time;
}

-- modelToServiceMap and models.
pub record Catalogue : Type 0 where
  pub model_to_service_map : Dict ServiceConfig
  pub models : List OpenAiApiModel

unfoldable pub add_models : ServiceConfig → ℕ → List String → Catalogue → Catalogue
unfolding create_open_ai_api_model
add_models s now [] t = t
add_models s now (model ∷ rest) t = add_models s now rest (record {
  model_to_service_map = insert model s t.model_to_service_map;
  models = t.models ++ create_open_ai_api_model model now ∷ [];
})

-- A service without model names is a model under its own name.
abbrev pub offered : ServiceConfig → List String
offered s = elim s.open_ai_api_models [ [] ↦ s.name ∷ [] | m ∷ ms ↦ m ∷ ms ]

unfoldable pub add_service : ServiceConfig → ℕ → Catalogue → Catalogue
unfolding add_models
add_service s now t = if not s.open_ai_api then t else add_models s now (offered s) t

unfoldable pub add_services : ℕ → List ServiceConfig → Catalogue → Catalogue
unfolding add_service
add_services now [] t = t
add_services now (s ∷ ss) t = add_services now ss (add_service s now t)

unfoldable pub catalogue : ℕ → List ServiceConfig → Catalogue
unfolding add_services
catalogue now services =
    add_services now services (record { model_to_service_map = []; models = [] })

-- GET /v1/models/{model}: the first model with the name, or 404.
unfoldable pub find_model : String → List OpenAiApiModel → Option OpenAiApiModel
find_model name [] = none
find_model name (m ∷ ms) = if str_eq m.id name then some m else find_model name ms

-- rawCaptureConnection: the captured bytes, and whether reads are captured.
pub record RawCaptureConnection : Type 0 where
  pub buffer : List ℕ
  pub capture : Bool

unfoldable pub capture_read : List ℕ → RawCaptureConnection → RawCaptureConnection
capture_read bytes r = if r.capture then record r { buffer = r.buffer ++ bytes } else r

unfoldable pub stop_buffering : RawCaptureConnection → RawCaptureConnection
stop_buffering r = record { buffer = []; capture = false }

unfoldable pub reset_connection_buffer : RawCaptureConnection → RawCaptureConnection
reset_connection_buffer r = record { buffer = []; capture = true }

-- What a request to a completions endpoint meets: the body that could be read, the model that
-- encoding/json finds in it, and whether the server hands the connection over.
pub record Request : Type 0 where
  pub method : String
  pub body_read : Bool
  pub model : Option String
  pub hijackable : Bool
  pub hijacked : Bool

pub data Outcome : Type 0 where
  only_post body_unread unparsed unhijackable hijack_failed : Outcome
  unknown_model : String → Outcome
  proxied : ServiceConfig → List ℕ → Outcome

abbrev pub forwarded : ServiceConfig → Request → List ℕ → Outcome
forwarded s q raw =
    if not q.hijackable
    then unhijackable
    else if not q.hijacked
    then hijack_failed
    else proxied s raw

abbrev pub answer_parsed : Dict ServiceConfig → Request → List ℕ → Option String → Outcome
answer_parsed services q raw none = unparsed
answer_parsed services q raw (some model) = elim (lookup model services) [
  | none ↦ unknown_model model
  | some s ↦ forwarded s q raw
]

unfoldable pub handle_completions : Dict ServiceConfig → Request → List ℕ → Outcome
handle_completions services q raw =
    if not (str_eq q.method "POST")
    then only_post
    else if not q.body_read
    then body_unread
    else answer_parsed services q raw q.model

-- The endpoint: the connection's capture goes on from an empty buffer behind every HTTP error.
abbrev pub connection_after : Outcome → RawCaptureConnection → RawCaptureConnection
connection_after (proxied s raw) r = stop_buffering r
connection_after _ r = reset_connection_buffer r

unfoldable pub completions :
    Dict ServiceConfig → Request → RawCaptureConnection → Outcome × RawCaptureConnection
unfolding handle_completions
completions services q r =
    let outcome = handle_completions services q r.buffer in (outcome, connection_after outcome r)
