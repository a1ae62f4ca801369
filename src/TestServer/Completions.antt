-- ===== src/TestServer/Completions.antt =====
-- test-server/main.go, lines 258-279 and 340-448: /v1/completions of the test server.
pub mod Stream
use Prim.Native.String.{◌++◌ as append}
use large_model_proxy.Base.{
  ℕ, String, Bool, true, false, not, List, [], ◌∷◌, ◌++◌, Option, none, some, if◌then◌else◌, str_eq,
}
use large_model_proxy.TestServer.Writer.{
  Call, Decoded, failed, parsed, set_header, error, writes, encodes, flush, Format, Answers,
  first_written, later_written,
}

pub record OpenAiApiCompletionRequest : Type 0 where
  pub model : String
  pub prompt : String
  pub stream : Bool

pub record Choice : Type 0 where
  pub text : String
  pub index : ℕ
  pub finish_reason : String

pub record Usage : Type 0 where
  pub prompt_tokens : ℕ
  pub completion_tokens : ℕ
  pub total_tokens : ℕ

pub record OpenAiApiCompletionResponse : Type 0 where
  pub id : String
  pub object : String
  pub created : ℕ
  pub model : String
  pub choices : List Choice
  pub usage : Usage

abbrev pub Calls : Type 0
Calls = List (Call OpenAiApiCompletionResponse)

abbrev pub quoted_prompt : String → String → String
quoted_prompt heading prompt = append heading (append "<prompt>" (append prompt "</prompt>"))

unfoldable pub sample_response : Format → OpenAiApiCompletionRequest → OpenAiApiCompletionResponse
sample_response f r = record {
  id = "test-id";
  object = "text_completion";
  created = f.now;
  model = r.model;
  choices =
      record {
        text = quoted_prompt "\nThis is a test completion text.\n Your prompt was:\n" r.prompt;
        index = 0;
        finish_reason = "stop";
      }
      ∷ [];
  usage = record { prompt_tokens = 5; completion_tokens = 7; total_tokens = 12 };
}

unfoldable pub partials : OpenAiApiCompletionRequest → List String
partials r =
    "Hello, this is chunk #1. "
    ∷ "Now chunk #2 arrives. "
    ∷ "Finally, chunk #3 completes the message."
    ∷ quoted_prompt "Your prompt was:\n" r.prompt
    ∷ []

-- One event of the stream.
unfoldable pub response_data : Format → OpenAiApiCompletionRequest → String → String
response_data f r chunk =
    append "data: {\"id\":\"test-id\",\"object\":\"text_completion\",\"created\":" (
      append (f.show_number f.now) (
        append ",\"model\":\""
          (append r.model (append "\",\"choices\":[{\"text\":" (append (f.quote chunk) "}]}")))))

abbrev pub done_event : String
done_event = "data: [DONE]\n\n"

-- A write that fails ends the handler with an HTTP error.
unfoldable pub send_done : String → List Bool → Calls
send_done failure oks =
    if first_written oks
    then writes done_event true ∷ flush ∷ []
    else writes done_event false ∷ error failure 500 ∷ []

unfoldable pub send_partials :
    Format → String → OpenAiApiCompletionRequest → List Bool → List String → Calls
unfolding response_data send_done
send_partials f failure r oks [] = send_done failure oks
send_partials f failure r oks (chunk ∷ chunks) =
    let event = append (response_data f r chunk) "\n\n" in
    let rest = send_partials f failure r (later_written oks) chunks in
    if first_written oks
    then writes event true ∷ flush ∷ rest
    else writes event false ∷ error failure 500 ∷ []

unfoldable pub handle_stream_completion : Format → Answers → OpenAiApiCompletionRequest → Calls
unfolding send_partials partials
handle_stream_completion f a r =
    set_header "Content-Type" "text/event-stream"
    ∷ set_header "Cache-Control" "no-cache"
    ∷ set_header "Connection" "close"
    ∷ (if a.flushes
        then send_partials f a.write_error r a.written (partials r)
        else error "Streaming not supported by this server" 500 ∷ [])

abbrev pub answer_decoded :
    Decoded OpenAiApiCompletionRequest → Calls × Option OpenAiApiCompletionRequest
answer_decoded (failed e) = (error (append "Failed to parse request body: " e) 400 ∷ [], none)
answer_decoded (parsed r) = (set_header "Content-Type" "application/json" ∷ [], some r)

unfoldable pub parse_and_validate_request :
    String → Decoded OpenAiApiCompletionRequest → Calls × Option OpenAiApiCompletionRequest
parse_and_validate_request method decoded =
    if not (str_eq method "POST")
    then (error "Method not allowed" 405 ∷ [], none)
    else answer_decoded decoded

unfoldable pub send_sample : Format → Answers → OpenAiApiCompletionRequest → Calls
unfolding sample_response
send_sample f a r =
    if first_written a.written
    then encodes (sample_response f r) true ∷ []
    else encodes (sample_response f r) false ∷ error "Failed to encode response" 500 ∷ []

abbrev pub answer_request : Format → Answers → Calls × Option OpenAiApiCompletionRequest → Calls
answer_request f a (calls, none) = calls
answer_request f a (calls, some r) =
    if r.stream then calls ++ handle_stream_completion f a r else calls ++ send_sample f a r

unfoldable pub handle_completions :
    Format → Answers → String → Decoded OpenAiApiCompletionRequest → Calls
unfolding parse_and_validate_request handle_stream_completion send_sample
handle_completions f a method decoded =
    answer_request f a (parse_and_validate_request method decoded)
