-- ===== src/TestServer/Chat.antt =====
-- test-server/main.go, lines 281-323 and 450-596: /v1/chat/completions of the test server. `none` is a
-- panic of the handler.
pub mod Chunks
use Prim.Native.String.{◌++◌ as append}
use large_model_proxy.Base.{
  ℕ, zero, suc, String, Bool, true, false, not, List, [], ◌∷◌, ◌++◌, Option, none, some,
  if◌then◌else◌, str_eq,
}
use large_model_proxy.TestServer.Writer.{
  Call, Decoded, failed, parsed, set_header, error, writes, encodes, flush, Format, Answers,
  first_written, later_written,
}
use large_model_proxy.TestServer.Completions.{Usage, done_event}

pub record ChatMessage : Type 0 where
  pub role : String
  pub content : String

pub record OpenAiApiChatRequest : Type 0 where
  pub model : String
  pub messages : List ChatMessage
  pub stream : Bool

pub record ChatChoice : Type 0 where
  pub index : ℕ
  pub message : ChatMessage
  pub finish_reason : String

pub record ChatCompletionResponse : Type 0 where
  pub id : String
  pub object : String
  pub created : ℕ
  pub model : String
  pub choices : List ChatChoice
  pub usage : Usage

pub record ChatCompletionChoice : Type 0 where
  pub index : ℕ
  pub delta : ChatMessage
  pub finish_reason : Option String

pub record ChatCompletionChunk : Type 0 where
  pub id : String
  pub object : String
  pub created : ℕ
  pub model : String
  pub choices : List ChatCompletionChoice

-- json.Marshal of a chunk: its error's text, or the text.
abbrev pub Marshal : Type 0
Marshal = ChatCompletionChunk → Decoded String

abbrev pub Calls : Type 0
Calls = List (Call ChatCompletionResponse)

-- Messages[len(Messages)-1].Content, which is out of range for no messages.
unfoldable pub last_content : List ChatMessage → Option String
last_content [] = none
last_content (m ∷ []) = some m.content
last_content (m ∷ n ∷ ms) = last_content (n ∷ ms)

unfoldable pub chat_response : Format → OpenAiApiChatRequest → String → ChatCompletionResponse
chat_response f r last = record {
  id = "chatcmpl-test-id";
  object = "chat.completion";
  created = f.now;
  model = r.model;
  choices =
      record {
        index = 0;
        message = record {
          role = "assistant";
          content =
              append "Hello! This is a response from the test Chat endpoint. The last message was: "
                (f.quote last);
        };
        finish_reason = "stop";
      }
      ∷ [];
  usage = record { prompt_tokens = 5; completion_tokens = 7; total_tokens = 12 };
}

unfoldable pub handle_single_chat_completion :
    Format → Answers → OpenAiApiChatRequest → Option Calls
unfolding chat_response
handle_single_chat_completion f a r = elim (last_content r.messages) [
  | none ↦ none
  | some last ↦ some (
      encodes (chat_response f r last) (first_written a.written)
      ∷ (if first_written a.written then [] else error "Failed to encode response" 500 ∷ []))
]

unfoldable pub chunk_of :
    Format → OpenAiApiChatRequest → ChatMessage → Option String → ChatCompletionChunk
chunk_of f r delta finish_reason = record {
  id = "chatcmpl-test-id";
  object = "chat.completion.chunk";
  created = f.now;
  model = r.model;
  choices = record { index = 0; delta = delta; finish_reason = finish_reason } ∷ [];
}

-- sendResponseChunk: its calls, its result, and the answers to the writes behind it.
unfoldable pub send_response_chunk : Decoded String → List Bool → Calls × Bool × List Bool
send_response_chunk (failed e) oks = (error e 500 ∷ [], false, oks)
send_response_chunk (parsed data_) oks =
    let event = append "data: " (append data_ "\n\n") in
    if first_written oks
    then (writes event true ∷ flush ∷ [], true, later_written oks)
    else (writes event false ∷ [], false, later_written oks)

-- The end of handleStreamChat, which goes on whatever the last chunk's result is.
unfoldable pub send_end : Calls × Bool × List Bool → Calls
send_end (calls, sent, oks) = calls ++ writes done_event (first_written oks) ∷ flush ∷ []

abbrev pub role_at : ℕ → String
role_at zero = "assistant"
role_at (suc i) = ""

module _ (marshal : Marshal) (f : Format) (r : OpenAiApiChatRequest) where
  unfoldable pub send_finish : List Bool → Calls
  unfolding send_end send_response_chunk chunk_of
  send_finish oks = send_end (
      send_response_chunk
        (marshal (chunk_of f r (record { role = ""; content = "" }) (some "stop"))) oks)

  -- The loop over the chunks from the index `i`, and the end behind it.
  unfoldable pub send_chunks : ℕ → List Bool → List String → Calls
  unfolding send_finish send_response_chunk chunk_of
  send_chunks i oks [] = send_finish oks
  send_chunks i oks (chunk ∷ chunks) =
      let (calls, sent, oks') =
        send_response_chunk
          (marshal (chunk_of f r (record { role = role_at i; content = chunk }) none)) oks in
      let rest = send_chunks (suc i) oks' chunks in if sent then calls ++ rest else calls

  unfoldable pub handle_stream_chat : Answers → Option Calls
  unfolding send_chunks
  handle_stream_chat a =
      let headers =
        set_header "Content-Type" "text/event-stream"
        ∷ set_header "Cache-Control" "no-cache"
        ∷ set_header "Connection" "close"
        ∷ [] in
      if not a.flushes
      then some (headers ++ error "Streaming not supported by this server" 500 ∷ [])
      else elim (last_content r.messages) [
        | none ↦ none
        | some last ↦ some (
            headers
            ++ send_chunks 0 a.written
                ("Hello, this is chunk #1." ∷ "Your last message was:\n" ∷ last ∷ []))
      ]

abbrev pub answer_chat_decoded : Decoded OpenAiApiChatRequest → Calls × Option OpenAiApiChatRequest
answer_chat_decoded (failed e) =
    (error (append "Failed to parse chat request body: " e) 400 ∷ [], none)
answer_chat_decoded (parsed r) = (set_header "Content-Type" "application/json" ∷ [], some r)

unfoldable pub parse_and_validate_chat_request :
    String → Decoded OpenAiApiChatRequest → Calls × Option OpenAiApiChatRequest
parse_and_validate_chat_request method decoded =
    if not (str_eq method "POST")
    then (error "Method not allowed" 405 ∷ [], none)
    else answer_chat_decoded decoded

abbrev pub behind : Calls → Option Calls → Option Calls
behind calls none = none
behind calls (some later) = some (calls ++ later)

abbrev pub answer_chat :
    Marshal → Format → Answers → Calls × Option OpenAiApiChatRequest → Option Calls
answer_chat marshal f a (calls, none) = some calls
answer_chat marshal f a (calls, some r) =
    behind calls
      (if r.stream then handle_stream_chat marshal f r a else handle_single_chat_completion f a r)

unfoldable pub handle_chat_completions :
    Marshal → Format → Answers → String → Decoded OpenAiApiChatRequest → Option Calls
unfolding parse_and_validate_chat_request handle_stream_chat handle_single_chat_completion
handle_chat_completions marshal f a method decoded =
    answer_chat marshal f a (parse_and_validate_chat_request method decoded)
