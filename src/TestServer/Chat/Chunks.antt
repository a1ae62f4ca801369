-- ===== src/TestServer/Chat/Chunks.antt =====
-- test-server/main.go, handleChatCompletions: the requests without an answer.
use large_model_proxy.Base.{
  ◌≡◌, ◌≢◌, refl, String, true, false, ◌⊎◌, ◌↔◌, List, [], ◌∷◌, none, arith, str_eq, Option-cases,
  inl, inr,
}
use large_model_proxy.TestServer.Writer.{parsed, Format, Answers}
use large_model_proxy.TestServer.Chat.{
  ChatMessage, OpenAiApiChatRequest, Marshal, last_content, handle_single_chat_completion,
  handle_stream_chat, parse_and_validate_chat_request, handle_chat_completions,
}

last_content-some : (m : ChatMessage) (ms : List ChatMessage) → last_content (m ∷ ms) ≢ none
unfolding last_content
last_content-some m [] h = ground (arith, h)
last_content-some m (n ∷ ms) h = last_content-some n ms h

last_content-nil : (ms : List ChatMessage) → (last_content ms ≡ none) ↔ (ms ≡ [])
unfolding last_content
last_content-nil [] = ((λ _. refl), (λ _. refl))
last_content-nil (m ∷ ms) = ((λ h. absurd (last_content-some m ms h)), (λ h. ground (arith, h)))

-- A request whose body could be read makes handleChatCompletions panic exactly if it is a POST without
-- messages, unless it asks for a stream of a writer that cannot be flushed.
pub handle_chat_completions-panics :
    (marshal : Marshal) (f : Format) (a : Answers) (method : String) (r : OpenAiApiChatRequest)
    → (handle_chat_completions marshal f a method (parsed r) ≡ none) ↔ (
        (str_eq method "POST" ≡ true)
        × (r.messages ≡ [])
        × ((r.stream ≡ false) ⊎ (a.flushes ≡ true)))
unfolding handle_chat_completions parse_and_validate_chat_request handle_stream_chat
    handle_single_chat_completion
handle_chat_completions-panics marshal f a method r =
    elim (Option-cases (last_content r.messages)) [
      | inl g ↦
          let nobody : r.messages ≡ [] = (last_content-nil r.messages).0 g in
          ((λ h. ground (arith, h, g, nobody)), (λ h. ground (arith, h, g)))
      | inr (u, g) ↦
          let somebody : r.messages ≢ [] =
            λ h. ground (arith, (last_content-nil r.messages).1 h, g) in
          ((λ h. ground (arith, h, g)), (λ h. absurd (somebody h.1)))
    ]
