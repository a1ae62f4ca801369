-- ===== src/TestServer/Completions/Stream.antt =====
-- test-server/main.go, handleCompletions: what the client of a stream is sent.
use Prim.Native.String.{◌++◌ as append}
use large_model_proxy.Base.{
  ℕ, ◌≡◌, String, Bool, true, false, ◌⊎◌, List, [], ◌∷◌, some, All, take, get_elem?,
}
use large_model_proxy.TestServer.Writer.{Format}
use large_model_proxy.TestServer.Completions.{OpenAiApiCompletionRequest, response_data, done_event}

-- The stream as the client should get it.
abbrev pub events : Format → OpenAiApiCompletionRequest → List String → List String
events f r [] = done_event ∷ []
events f r (chunk ∷ chunks) = append (response_data f r chunk) "\n\n" ∷ events f r chunks

-- The first `n` writes of the `total` succeed, and the next one fails, unless that was the last one.
abbrev pub BreaksAt : ℕ → ℕ → List Bool → Type 0
BreaksAt total n oks =
    All (λ b. b ≡ true) (take n oks) × ((get_elem? oks n ≡ some false) ⊎ (n ≡ total))
