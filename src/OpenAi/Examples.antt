-- ===== src/OpenAi/Examples.antt =====
-- Two services open to the API, one of which has a model name.
use large_model_proxy.Base.{
  ℕ, ◌≡◌, refl, String, true, false, List, [], ◌∷◌, ◌++◌, none, lookup, insert, delete, some,
  str_eq,
}
use large_model_proxy.Config.{ServiceConfig}
use large_model_proxy.OpenAi.{
  Request, proxied, handle_completions, catalogue, add_services, add_service, add_models,
  find_model, capture_read, reset_connection_buffer, stop_buffering, completions as complete,
}
use large_model_proxy.OpenAi.Capture.{
  Event, reads, asks as requests, models, completions, accept, serve, step, run,
}
use large_model_proxy.OpenAi.Capture.Handover.{IsHandedOver, all_read}
use large_model_proxy.OpenAi.Capture.Service.{sent_to_service, served_in_order}
use large_model_proxy.Pipe.{Pipe, write, read, is_full}
use large_model_proxy.Forwarding.{
  Action, monitor_reads, up_copies, new_forward, run as forward, step as forward_step,
}
use large_model_proxy.OpenAi.Models.{is_some, IsOffer, handle_completions-IsOffer}
use large_model_proxy.Samples.{text_model, image_model}

abbrev llama : ServiceConfig
llama = record text_model { open_ai_api = true; open_ai_api_models = "llama" ∷ [] }

abbrev both : List ServiceConfig
both = llama ∷ record image_model { open_ai_api = true } ∷ []

abbrev asks : Request
asks = record {
  method = "POST";
  body_read = true;
  model = some "llama";
  hijackable = true;
  hijacked = true;
}

asked :
    handle_completions (catalogue 0 both).model_to_service_map asks (80 ∷ [])
    ≡ proxied llama (80 ∷ [])
unfolding handle_completions catalogue add_services add_service add_models lookup insert delete
asked = refl

handle_completions-IsOffer_example :
    (str_eq asks.method "POST" ≡ true)
    × (asks.body_read ≡ true)
    × (◌≡◌ {A = List ℕ} (80 ∷ []) (80 ∷ []))
    × ((model : String) × (asks.model ≡ some model)
        × (is_some (find_model model (catalogue 0 both).models) ≡ true)
        × IsOffer both llama model)
handle_completions-IsOffer_example =
    handle_completions-IsOffer 0 both asks (80 ∷ []) (80 ∷ []) llama asked

abbrev asks_models : Request
asks_models = record {
  method = "GET";
  body_read = true;
  model = none;
  hijackable = true;
  hijacked = true;
}

-- The list of the models, and then a completion whose body comes in two parts, the second one later.
abbrev keeps_alive : List Event
keeps_alive =
    reads (71 ∷ [])
    ∷ requests models asks_models
    ∷ reads (80 ∷ 79 ∷ [])
    ∷ reads (83 ∷ [])
    ∷ requests completions asks
    ∷ reads (84 ∷ [])
    ∷ []

replays : (run (catalogue 0 both) accept keeps_alive).handed ≡ some (llama, 80 ∷ 79 ∷ 83 ∷ [])
unfolding run step serve accept capture_read reset_connection_buffer stop_buffering complete
    handle_completions catalogue add_services add_service add_models lookup insert delete
replays = refl

-- The forwarding of the last byte, which the service is sent behind the replay.
abbrev empty_pipe : Pipe
empty_pipe = record { buf = []; limit = 8; writer_done = false; closed = false }

abbrev forwards : List Action
forwards = monitor_reads (84 ∷ []) ∷ up_copies 4 ∷ []

all_forwarded :
    (forward (new_forward empty_pipe) forwards).received ++ []
    ≡ (run (catalogue 0 both) accept keeps_alive).later
unfolding run step serve accept capture_read reset_connection_buffer stop_buffering complete
    handle_completions catalogue add_services add_service add_models lookup insert delete forward
    forward_step new_forward write read is_full
all_forwarded = refl

served_in_order_example :
    let f = forward (new_forward empty_pipe) forwards in
    IsHandedOver 0 both [] keeps_alive llama
      (80 ∷ 79 ∷ 83 ∷ [])
      (run (catalogue 0 both) accept keeps_alive)
    × ((front rest : List ℕ) × (all_read keeps_alive
          ≡ front ++ (sent_to_service (80 ∷ 79 ∷ 83 ∷ []) none f ++ rest)))
served_in_order_example =
    served_in_order 0 both keeps_alive llama (80 ∷ 79 ∷ 83 ∷ []) empty_pipe forwards [] none replays
      all_forwarded

sends_all :
    sent_to_service (80 ∷ 79 ∷ 83 ∷ []) none (forward (new_forward empty_pipe) forwards)
    ≡ 80 ∷ 79 ∷ 83 ∷ 84 ∷ []
unfolding sent_to_service forward forward_step new_forward write read is_full
sends_all = refl

-- A request that the server read together with the one before it loses the bytes that were read ahead.
abbrev pipelines : List Event
pipelines =
    reads (71 ∷ 80 ∷ 79 ∷ [])
    ∷ requests models asks_models
    ∷ reads (83 ∷ [])
    ∷ requests completions asks
    ∷ []

pipelined_request_is_cut : (run (catalogue 0 both) accept pipelines).handed ≡ some (llama, 83 ∷ [])
unfolding run step serve accept capture_read reset_connection_buffer stop_buffering complete
    handle_completions catalogue add_services add_service add_models lookup insert delete
pipelined_request_is_cut = refl
