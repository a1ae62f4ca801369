-- ===== src/TestServer/Writer.antt =====
-- test-server/main.go, lines 258-323 and 340-596: what its handlers ask of net/http, encoding/json
-- and fmt. A handler is the list of its calls; the answers of the calls that can fail are given to it.
use large_model_proxy.Base.{ℕ, String, Bool, true, List, [], ◌∷◌}

-- The calls of a handler on its http.ResponseWriter: Header().Set, http.Error, a write with what it
-- returned, and Flush. `Body` is what is encoded as JSON.
pub data Call (Body : Type 0) : Type 0 where
  set_header : String → String → Call Body
  error : String → ℕ → Call Body
  writes : String → Bool → Call Body
  encodes : Body → Bool → Call Body
  flush : Call Body

-- What json.NewDecoder(r.Body).Decode makes of a body: its error's text, or the request.
pub data Decoded (R : Type 0) : Type 0 where
  failed : String → Decoded R
  parsed : R → Decoded R

-- fmt.Sprintf for a number and for a quoted text, and the time.
pub record Format : Type 0 where
  pub show_number : ℕ → String
  pub quote : String → String
  pub now : ℕ

-- What the writer answers: whether it is an http.Flusher, the success of each write in turn, where
-- behind the end of the list they succeed, and the text of the error of a write.
pub record Answers : Type 0 where
  pub flushes : Bool
  pub write_error : String
  pub written : List Bool

abbrev pub first_written : List Bool → Bool
first_written [] = true
first_written (b ∷ bs) = b

abbrev pub later_written : List Bool → List Bool
later_written [] = []
later_written (b ∷ bs) = bs

-- The texts that the client was sent.
abbrev pub delivered : {Body : Type 0} → List (Call Body) → List String
delivered [] = []
delivered (writes t true ∷ calls) = t ∷ delivered calls
delivered (_ ∷ calls) = delivered calls
