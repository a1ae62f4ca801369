-- ===== src/LogWriter.antt =====
-- service_process.go, lines 21-80: serviceLoggingWriter, which cuts a service's output into lines.
-- Bytes are numbers. The logger is the list of the messages printed so far, oldest first; the mutex
-- makes each call atomic, so a call is one function from writer to writer.
pub mod Cut
pub mod Split
pub mod Chunks
mod Examples
use large_model_proxy.Base.{
  ℕ, zero, suc, ◌+◌, List, [], ◌∷◌, ◌++◌, Bool, true, false, not, ◌&&◌, ◌||◌, Option, none, some, ℤ,
  pos, negsuc, pos_part, neg_part, ◌-ℤ◌, ltb_ℤ, ◌==◌, if◌then◌else◌, length, take, drop,
}

-- prefix, logger and buf of the Go struct.
pub record Writer : Type 0 where
  pub prefix : List ℕ
  pub logger : List (List ℕ)
  pub buf : List ℕ

abbrev pub cr : ℕ
cr = 13

abbrev pub lf : ℕ
lf = 10

abbrev pub minus_one : ℤ
minus_one = negsuc 0

abbrev pub is_int : ℤ → ℤ → Bool
is_int a b = (pos_part a + neg_part b) == (pos_part b + neg_part a)

pub final_flush : Writer → Writer
final_flush w = elim w.buf [
  | [] ↦ w
  | c ∷ cs ↦ record w { logger = w.logger ++ (w.prefix ++ c ∷ cs) ∷ []; buf = [] }
]

pub find_lower_index_that_is_not_minus_one : ℤ → ℤ → ℤ
find_lower_index_that_is_not_minus_one index_one index_two =
    if is_int index_one minus_one
    then index_two
    else if is_int index_two minus_one
    then index_one
    else if ltb_ℤ index_two index_one
    then index_two
    else index_one

-- One position further in, where there is a position.
abbrev pub shift : ℤ → ℤ
shift (pos n) = pos (suc n)
shift (negsuc n) = negsuc n

-- bytes.IndexByte: the first position of a byte, or -1.
pub index_byte : List ℕ → ℕ → ℤ
index_byte [] b = minus_one
index_byte (c ∷ cs) b = if c == b then pos 0 else shift (index_byte cs b)

unfoldable pub is_eol : ℕ → Bool
is_eol c = c == cr || c == lf

pub is_empty : List ℕ → Bool
is_empty [] = true
is_empty (c ∷ cs) = false

-- strings.TrimRight with the cut set of CR and LF.
pub trim_right : List ℕ → List ℕ
unfolding is_empty is_eol
trim_right [] = []
trim_right (c ∷ cs) = let rest = trim_right cs in if is_empty rest && is_eol c then [] else c ∷ rest

-- The place at which Write ends the next line, or -1.
pub cut_off_index : List ℕ → ℤ
unfolding index_byte find_lower_index_that_is_not_minus_one
cut_off_index bytes =
    let return_index = index_byte bytes cr in
    let new_line_index = index_byte bytes lf in
    if not (is_int return_index minus_one)
      && not (is_int new_line_index minus_one)
      && is_int (new_line_index -ℤ return_index) (pos 1)
    then new_line_index
    else find_lower_index_that_is_not_minus_one new_line_index return_index

pub print_line : Writer → List ℕ → Writer
print_line w line = record w { logger = w.logger ++ (w.prefix ++ line) ∷ [] }

-- The loop of Write; `none` means that the fuel ran out.
pub scan : ℕ → Writer → List ℕ → Option Writer
scan zero w bytes = none
scan (suc fuel) w bytes = elim (cut_off_index bytes) [
  | negsuc n ↦ some (record w { buf = bytes })
  | pos n ↦ scan fuel (print_line w (trim_right (take n bytes))) (drop (suc n) bytes)
]

-- Every round of the loop shortens the data, so this fuel is enough.
unfoldable pub write : Writer → List ℕ → Option (Writer × ℕ)
unfolding scan cut_off_index trim_right print_line
write w b =
    let bytes = w.buf ++ b in
    elim (scan (suc (length bytes)) w bytes) [ none ↦ none | some w' ↦ some (w', length b) ]
