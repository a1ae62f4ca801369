-- ===== src/LogWriter/Cut.antt =====
-- service_process.go, lines 42-81: where Write cuts the data, described by one pass over it.
use large_model_proxy.Base.{
  ℕ, suc, ◌≡◌, refl, List, [], ◌∷◌, false, Option, none, some, ℤ, pos, negsuc, ◌-ℤ◌, ◌==◌,
  if◌then◌else◌, take, drop, arith, Bool-cases, ◌⊎◌, inl, inr,
}
use large_model_proxy.LogWriter.{
  cr, lf, minus_one, shift, index_byte, is_eol, is_empty, trim_right, cut_off_index,
}

unfoldable pub skip_lf : List ℕ → List ℕ
skip_lf [] = []
skip_lf (c ∷ cs) = if c == lf then cs else c ∷ cs

abbrev pub Line : Type 0
Line = List ℕ × List ℕ

abbrev with_head : ℕ → Option Line → Option Line
with_head c none = none
with_head c (some (line, rest)) = some (c ∷ line, rest)

-- The first line without its terminator (CR, LF or CR LF), and the bytes behind it.
unfoldable pub first_line : List ℕ → Option Line
first_line [] = none
first_line (c ∷ cs) =
    if c == lf
    then some ([], cs)
    else if c == cr
    then some ([], skip_lf cs)
    else with_head c (first_line cs)

-- One round of Write's loop.
abbrev pub cut_at : List ℕ → ℤ → Option Line
cut_at bytes (negsuc n) = none
cut_at bytes (pos n) = some (trim_right (take n bytes), drop (suc n) bytes)

abbrev IsPlain : ℕ → Type 0
IsPlain c = (c == lf ≡ false) × (c == cr ≡ false)

cut_off_index-plain :
    (c : ℕ) (cs : List ℕ) → IsPlain c → cut_off_index (c ∷ cs) ≡ shift (cut_off_index cs)
unfolding cut_off_index ◌-ℤ◌
cut_off_index-plain c cs h = ground arith

cut_at-plain :
    (c : ℕ) (cs : List ℕ) (i : ℤ)
    → IsPlain c
    → cut_at (c ∷ cs) (shift i) ≡ with_head c (cut_at cs i)
unfolding trim_right is_eol
cut_at-plain c cs i h = ground arith

index_byte_cases :
    (cs : List ℕ) (b : ℕ) → (index_byte cs b ≡ minus_one) ⊎ ((n : ℕ) × (index_byte cs b ≡ pos n))
unfolding index_byte
index_byte_cases [] b = inl refl
index_byte_cases (c ∷ cs) b = elim (Bool-cases (c == b)) [
  | inl e ↦ inr (0, rw e)
  | inr e ↦ elim (index_byte_cases cs b) [
    | inl i ↦ inl (rw (e, i))
    | inr (n, i) ↦ inr (suc n, rw (e, i))
  ]
]

cut_off_index-lf : (cs : List ℕ) → cut_off_index (lf ∷ cs) ≡ pos 0
unfolding cut_off_index ◌-ℤ◌
cut_off_index-lf cs = ground (arith, index_byte_cases cs cr)

-- A carriage return ends the line, or the line feed right behind it does.
cut_at-cr : (cs : List ℕ) → cut_at (cr ∷ cs) (cut_off_index (cr ∷ cs)) ≡ some ([], skip_lf cs)
unfolding cut_off_index ◌-ℤ◌ skip_lf trim_right is_eol is_empty
cut_at-cr [] = ground arith
cut_at-cr (c ∷ cs) = ground (arith, index_byte_cases cs lf)

pub cut_at-first_line : (cs : List ℕ) → cut_at cs (cut_off_index cs) ≡ first_line cs
unfolding first_line trim_right
cut_at-first_line [] = unfold cut_off_index in refl
cut_at-first_line (c ∷ cs) = elim (Bool-cases (c == lf)) [
  | inl h ↦ let e : c ≡ lf = ground arith in rw (e, cut_off_index-lf cs)
  | inr h ↦ elim (Bool-cases (c == cr)) [
    | inl k ↦ let e : c ≡ cr = ground arith in rw (e, cut_at-cr cs)
    | inr k ↦
        rw (cut_off_index-plain c cs (h, k), cut_at-plain c cs (cut_off_index cs) (h, k))
          (ground (arith, cut_at-first_line cs))
  ]
]
