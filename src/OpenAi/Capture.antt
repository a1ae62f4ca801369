-- ===== src/OpenAi/Capture.antt =====
-- openai_api.go, lines 41-85, 115-175 and 207-274: a connection of the OpenAI API from its start on: the
-- bytes that net/http reads from it, the requests that the handlers answer in between, and what is read
-- behind the hand-over. The HTTP server decides how far it reads ahead and when a handler runs.
pub mod Handover
pub mod Service
use large_model_proxy.Base.{
  ℕ, String, Bool, true, false, List, [], ◌∷◌, ◌++◌, Option, none, some, ◌||◌, if◌then◌else◌,
  str_eq,
}
use large_model_proxy.Config.{ServiceConfig}
use large_model_proxy.OpenAi.{
  OpenAiApiModel, Catalogue, find_model, RawCaptureConnection, capture_read,
  reset_connection_buffer, Request, Outcome, proxied, completions as complete,
}

-- The patterns of the ServeMux that a path may match.
pub data Target : Type 0 where
  model : String → Target
  models completions chat_completions elsewhere : Target

pub data Answer : Type 0 where
  found : OpenAiApiModel → Answer
  model_not_found : String → Answer
  lists : List OpenAiApiModel → Answer
  completed : Outcome → Answer
  unsupported : Answer

abbrev pub answer_model : String → Option OpenAiApiModel → Answer
answer_model name none = model_not_found name
answer_model name (some m) = found m

abbrev pub with_completed : Outcome × RawCaptureConnection → Answer × RawCaptureConnection
with_completed (outcome, r) = (completed outcome, r)

-- The handlers of startOpenAiApi. A pattern with the method GET is one for HEAD, too; a request for a model by
-- another method meets the handler of all other paths.
unfoldable pub serve :
    Catalogue → Target → Request → RawCaptureConnection → Answer × RawCaptureConnection
serve t (model name) q r =
    if str_eq q.method "GET" || str_eq q.method "HEAD"
    then (answer_model name (find_model name t.models), reset_connection_buffer r)
    else (unsupported, reset_connection_buffer r)
serve t models q r = (lists t.models, reset_connection_buffer r)
serve t completions q r = with_completed (complete t.model_to_service_map q r)
serve t chat_completions q r = with_completed (complete t.model_to_service_map q r)
serve t elsewhere q r = (unsupported, reset_connection_buffer r)

-- What a handler hands to handleConnection.
abbrev pub handed_over : Answer → Option (ServiceConfig × List ℕ)
handed_over (completed (proxied s raw)) = some (s, raw)
handed_over _ = none

-- A connection, what it was handed over with, and the bytes that were read from it since.
pub record ApiConnection : Type 0 where
  pub raw : RawCaptureConnection
  pub handed : Option (ServiceConfig × List ℕ)
  pub later : List ℕ

-- rawCaptureListener.Accept.
unfoldable pub accept : ApiConnection
accept = record { raw = record { buffer = []; capture = true }; handed = none; later = [] }

pub data Event : Type 0 where
  reads : List ℕ → Event
  asks : Target → Request → Event

abbrev pub read_from : List ℕ → ApiConnection → Option (ServiceConfig × List ℕ) → ApiConnection
read_from bytes k none = record k { raw = capture_read bytes k.raw }
read_from bytes k (some h) = record k { raw = capture_read bytes k.raw; later = k.later ++ bytes }

abbrev pub answered : ApiConnection → Answer × RawCaptureConnection → ApiConnection
answered k result = record k { raw = result.1; handed = handed_over result.0 }

abbrev pub ask :
    Catalogue → Target → Request → ApiConnection → Option (ServiceConfig × List ℕ) → ApiConnection
ask t target q k none = answered k (serve t target q k.raw)
ask t target q k (some h) = k

-- Behind the hand-over the HTTP server has no more requests of the connection.
unfoldable pub step : Catalogue → ApiConnection → Event → ApiConnection
unfolding serve
step t k (reads bytes) = read_from bytes k k.handed
step t k (asks target q) = ask t target q k k.handed

unfoldable pub run : Catalogue → ApiConnection → List Event → ApiConnection
unfolding step
run t k [] = k
run t k (e ∷ events) = run t (step t k e) events
