-- ===== src/LogWriter/Split.antt =====
-- service_process.go, lines 53-83: a call of Write is one pass over the bytes by a small machine.
use large_model_proxy.Base.{
  ℕ, zero, suc, ◌<◌, ◌≤◌, ◌≡◌, refl, sym, ap, ◌∙◌, List, [], ◌∷◌, ◌++◌, map, Bool, true, false,
  none, some, ℤ, pos, negsuc, ◌==◌, if◌then◌else◌, length, take, drop, arith, ◌⊎◌, inl, inr,
  append_assoc, append-nil, flatten, flatten-append, Option-cases,
}
use large_model_proxy.LogWriter.{
  Writer, cr, lf, print_line, scan, write, is_eol, cut_off_index, trim_right,
}
use large_model_proxy.LogWriter.Cut.{skip_lf, first_line, cut_at, cut_at-first_line}

-- Whether the last byte was a carriage return, and the line that is under way.
pub record Splitter : Type 0 where
  pub after_cr : Bool
  pub line : List ℕ

abbrev pub at_start : List ℕ → Splitter
at_start line = record { after_cr = false; line = line }

-- A byte ends the line, or is the second half of a terminator, or extends the line.
unfoldable pub feed : Splitter → ℕ → List (List ℕ) × Splitter
feed s c =
    if c == lf
    then (if s.after_cr then ([], at_start s.line) else (s.line ∷ [], at_start []))
    else if c == cr
    then (s.line ∷ [], record { after_cr = true; line = [] })
    else ([], at_start (s.line ++ c ∷ []))

unfoldable pub split : Splitter → List ℕ → List (List ℕ) × Splitter
split s [] = ([], s)
split s (c ∷ cs) = let (out, s') = feed s c in let (more, s'') = split s' cs in (out ++ more, s'')

pub split-append :
    (s : Splitter) (xs ys : List ℕ)
    → split s (xs ++ ys)
      ≡ ((split s xs).0 ++ (split (split s xs).1 ys).0, (split (split s xs).1 ys).1)
unfolding split
split-append s [] ys = refl
split-append s (c ∷ xs) ys = rw (split-append (feed s c).1 xs ys, append_assoc)

-- Two machines that differ in `after_cr` alone agree on data that opens with no line feed.
split-after_cr :
    (cs : List ℕ)
    → ((split (record { after_cr = true; line = [] }) cs).0 ≡ (split (at_start []) (skip_lf cs)).0)
      × ((split (record { after_cr = true; line = [] }) cs).1.line
          ≡ (split (at_start []) (skip_lf cs)).1.line)
unfolding split feed skip_lf
split-after_cr [] = (refl, refl)
split-after_cr (c ∷ cs) = ground arith

split-no_line :
    (cur cs : List ℕ) → first_line cs ≡ none → split (at_start cur) cs ≡ ([], at_start (cur ++ cs))
unfolding split feed first_line
split-no_line cur [] h = rw append-nil
split-no_line cur (c ∷ cs) h =
    ground (arith, split-no_line (cur ++ c ∷ []) cs, append_assoc cur (c ∷ []) cs)

split-first_line :
    (cur cs line rest : List ℕ)
    → first_line cs ≡ some (line, rest)
    → ((split (at_start cur) cs).0 ≡ (cur ++ line) ∷ (split (at_start []) rest).0)
      × ((split (at_start cur) cs).1.line ≡ (split (at_start []) rest).1.line)
unfolding split feed first_line
split-first_line cur [] line rest h = cc
split-first_line cur (c ∷ cs) line rest h = elim (Option-cases (first_line cs)) [
  | inl e ↦ ground (arith, split-after_cr cs, append-nil cur)
  | inr ((l, r), e) ↦ ground (
    arith,
    split-after_cr cs,
    append-nil cur,
    split-first_line (cur ++ c ∷ []) cs l r e,
    append_assoc cur (c ∷ []) l,
  )
]

-- The writer after the lines of `out` are printed and `line` is kept.
abbrev pub after_split : Writer → List (List ℕ) × Splitter → Writer
after_split w (out, s) = record w {
  logger = w.logger ++ map (λ l. w.prefix ++ l) out;
  buf = s.line;
}

length-skip_lf : (cs : List ℕ) → length (skip_lf cs) ≤ length cs
unfolding skip_lf
length-skip_lf [] = omega arith
length-skip_lf (c ∷ cs) = ground arith

length-first_line :
    (cs line rest : List ℕ) → first_line cs ≡ some (line, rest) → length rest < length cs
unfolding first_line
length-first_line [] line rest h = cc
length-first_line (c ∷ cs) line rest h = elim (Option-cases (first_line cs)) [
  | inl e ↦ ground (arith, length-skip_lf cs)
  | inr ((l, r), e) ↦ ground (arith, length-skip_lf cs, length-first_line cs l r e)
]

ℤ-cases : (z : ℤ) → ((n : ℕ) × (z ≡ pos n)) ⊎ ((n : ℕ) × (z ≡ negsuc n))
ℤ-cases (pos n) = inl (n, refl)
ℤ-cases (negsuc n) = inr (n, refl)

after_split-cons :
    (w : Writer) (line : List ℕ) (r s : List (List ℕ) × Splitter)
    → s.0 ≡ line ∷ r.0
    → s.1.line ≡ r.1.line
    → after_split (print_line w line) r ≡ after_split w s
unfolding print_line
after_split-cons w line r s h k = rw (h, k, append_assoc)

pub scan-split :
    (fuel : ℕ) (w : Writer) (bytes : List ℕ)
    → length bytes < fuel
    → scan fuel w bytes ≡ some (after_split w (split (at_start []) bytes))
unfolding scan
scan-split zero w bytes h = elim h [ ]
scan-split (suc fuel) w bytes h = elim (ℤ-cases (cut_off_index bytes)) [
  | inl (n, e) ↦
      let found : first_line bytes ≡ some (trim_right (take n bytes), drop (suc n) bytes) =
        sym (cut_at-first_line bytes) ∙ ap (cut_at bytes) e in
      let (outs, state) = split-first_line [] bytes _ _ found in
      rw (e, scan)
        (scan-split fuel (print_line w (trim_right (take n bytes))) (drop (suc n) bytes)
            (omega (arith, length-first_line bytes _ _ found))
          ∙ ap some (
              after_split-cons w (trim_right (take n bytes))
                (split (at_start []) (drop (suc n) bytes)) (split (at_start []) bytes) outs state))
  | inr (n, e) ↦
      let plain : first_line bytes ≡ none = sym (cut_at-first_line bytes) ∙ ap (cut_at bytes) e in
      rw (e, scan, split-no_line [] bytes plain, append-nil)
]

-- A call of Write takes all its bytes, prints the lines that the machine finds in the kept bytes and
-- the new ones, and keeps the line that is under way. The fuel is enough.
pub write-split :
    (w : Writer) (b : List ℕ)
    → write w b ≡ some (after_split w (split (at_start []) (w.buf ++ b)), length b)
unfolding write
write-split w b = rw (scan-split (suc (length (w.buf ++ b))) w (w.buf ++ b) (omega arith), write)

-- The bytes that are no terminator.
pub strip : List ℕ → List ℕ
strip [] = []
strip (c ∷ cs) = let rest = strip cs in if is_eol c then rest else c ∷ rest

strip-append : (xs ys : List ℕ) → strip (xs ++ ys) ≡ strip xs ++ strip ys
unfolding strip
strip-append [] ys = refl
strip-append (x ∷ xs) ys = ground (arith, strip-append xs ys)

feed-content :
    (s : Splitter) (c : ℕ)
    → (s.after_cr ≡ true → s.line ≡ [])
    → (flatten (feed s c).0 ++ (feed s c).1.line ≡ s.line ++ strip (c ∷ []))
      × ((feed s c).1.after_cr ≡ true → (feed s c).1.line ≡ [])
unfolding feed strip is_eol flatten
feed-content s c h = ground (arith, append-nil s.line)

split-content :
    (s : Splitter) (cs : List ℕ)
    → (s.after_cr ≡ true → s.line ≡ [])
    → flatten (split s cs).0 ++ (split s cs).1.line ≡ s.line ++ strip cs
unfolding split flatten
split-content s [] h = unfold strip in sym (append-nil s.line)
split-content s (c ∷ cs) h =
    let (now, proper) = feed-content s c h in
    rw (flatten-append, append_assoc, split-content (feed s c).1 cs proper)
      (rw (← append_assoc, now, append_assoc)
        (ap (λ r. s.line ++ r) (sym (strip-append (c ∷ []) cs))))

-- No byte is lost, doubled or moved: the printed lines without their prefix, one behind the other,
-- and then the kept bytes are the old kept bytes and the new bytes without the terminators.
pub write-content :
    (w : Writer) (b : List ℕ)
    → (out : List (List ℕ)) × (w' : Writer) × (write w b ≡ some (w', length b))
      × (w'.logger ≡ w.logger ++ map (λ l. w.prefix ++ l) out)
      × (flatten out ++ w'.buf ≡ strip (w.buf ++ b))
write-content w b =
    let whole = w.buf ++ b in
    (
      (split (at_start []) whole).0,
      after_split w (split (at_start []) whole),
      write-split w b,
      refl,
      split-content (at_start []) whole (λ e. refl),
    )
