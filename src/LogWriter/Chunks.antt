-- ===== src/LogWriter/Chunks.antt =====
-- service_process.go, lines 52-80: what several calls of Write print, against one call with all bytes.
use large_model_proxy.Base.{
  ℕ, ◌≡◌, refl, sym, ap, ◌∙◌, List, [], ◌∷◌, ◌++◌, map, Bool, true, false, ◌&&◌, some, ◌==◌, length,
  arith, append_assoc, append-nil, map-append, All, All-append,
}
use large_model_proxy.LogWriter.{Writer, cr, lf, write, is_eol}
use large_model_proxy.LogWriter.Split.{
  Splitter, at_start, feed, split, split-append, after_split, write-split,
}

abbrev pub IsPlain : ℕ → Type 0
IsPlain c = is_eol c ≡ false

-- The state that the machine can reach: no terminator in the line, and none of it behind a return.
abbrev IsProper : Splitter → Type 0
IsProper s = All IsPlain s.line × (s.after_cr ≡ true → s.line ≡ [])

feed-IsProper : (s : Splitter) (c : ℕ) → IsProper s → IsProper (feed s c).1
unfolding feed is_eol
feed-IsProper s c h = ground (arith, All-append IsPlain s.line (c ∷ []) h.0)

split-IsProper : (s : Splitter) (cs : List ℕ) → IsProper s → IsProper (split s cs).1
unfolding split
split-IsProper s [] h = h
split-IsProper s (c ∷ cs) h = split-IsProper (feed s c).1 cs (feed-IsProper s c h)

feed-lines : (s : Splitter) (c : ℕ) → IsProper s → All (All IsPlain) (feed s c).0
unfolding feed
feed-lines s c h = ground (arith, h.0)

split-lines : (s : Splitter) (cs : List ℕ) → IsProper s → All (All IsPlain) (split s cs).0
unfolding split
split-lines s [] h = tt
split-lines s (c ∷ cs) h =
    All-append (All IsPlain) (feed s c).0 (split (feed s c).1 cs).0 (feed-lines s c h)
      (split-lines (feed s c).1 cs (feed-IsProper s c h))

split-plain :
    (cur cs ys : List ℕ)
    → All IsPlain cs
    → split (at_start cur) (cs ++ ys) ≡ split (at_start (cur ++ cs)) ys
unfolding split feed is_eol
split-plain cur [] ys h = rw append-nil
split-plain cur (c ∷ cs) ys h =
    ground (arith, split-plain (cur ++ c ∷ []) cs ys, append_assoc cur (c ∷ []) cs)

unfoldable pub ends_in_cr : List ℕ → Bool
ends_in_cr [] = false
ends_in_cr (c ∷ []) = c == cr
ends_in_cr (c ∷ d ∷ cs) = ends_in_cr (d ∷ cs)

unfoldable pub starts_with_lf : List ℕ → Bool
starts_with_lf [] = false
starts_with_lf (c ∷ cs) = c == lf

-- The machine is behind a return just when the data ends in one.
after_cr-split :
    (s : Splitter) (c : ℕ) (cs : List ℕ) → (split s (c ∷ cs)).1.after_cr ≡ ends_in_cr (c ∷ cs)
unfolding split ends_in_cr
after_cr-split s c [] = unfold feed in ground arith
after_cr-split s c (d ∷ cs) = after_cr-split (feed s c).1 d cs

-- From a proper state the kept line stands for all but a pending line feed.
feed-after_cr :
    (c : ℕ)
    → c == lf ≡ false
    → feed (record { after_cr = true; line = [] }) c ≡ feed (at_start []) c
unfolding feed
feed-after_cr c k = ground arith

split-resume :
    (a : Bool) (line ys : List ℕ)
    → IsProper (record { after_cr = a; line = line })
    → (a && starts_with_lf ys) ≡ false
    → ((split (at_start []) (line ++ ys)).0 ≡ (split (record { after_cr = a; line = line }) ys).0)
      × ((split (at_start []) (line ++ ys)).1.line
          ≡ (split (record { after_cr = a; line = line }) ys).1.line)
unfolding split starts_with_lf
split-resume false line ys h k =
    let e = split-plain [] line ys h.0 in (ap (λ r. r.0) e, ap (λ r. r.1.line) e)
split-resume true line [] h k = rw (h.1 refl) (refl, refl)
split-resume true line (c ∷ ys) h k = rw (h.1 refl, feed-after_cr c k) (refl, refl)

after_cr-plain : (cs : List ℕ) → All IsPlain cs → ends_in_cr cs ≡ false
unfolding ends_in_cr is_eol
after_cr-plain [] h = refl
after_cr-plain (c ∷ []) h = ground arith
after_cr-plain (c ∷ d ∷ cs) h = after_cr-plain (d ∷ cs) h.1

ends_in_cr-append : (c : ℕ) (xs ys : List ℕ) → ends_in_cr (xs ++ c ∷ ys) ≡ ends_in_cr (c ∷ ys)
unfolding ends_in_cr
ends_in_cr-append c [] ys = refl
ends_in_cr-append c (d ∷ []) ys = refl
ends_in_cr-append c (d ∷ e ∷ xs) ys = ends_in_cr-append c (e ∷ xs) ys

-- The machine behind the kept bytes and a chunk has seen a return last just if the chunk ends in one.
after_cr-chunk :
    (buf xs : List ℕ)
    → All IsPlain buf
    → (split (at_start []) (buf ++ xs)).1.after_cr ≡ ends_in_cr xs
after_cr-chunk [] [] h = unfold split ends_in_cr in refl
after_cr-chunk [] (c ∷ xs) h = after_cr-split (at_start []) c xs
after_cr-chunk (b ∷ buf) [] h =
    after_cr-split (at_start []) b (buf ++ [])
    ∙ ap ends_in_cr (append-nil (b ∷ buf))
    ∙ after_cr-plain (b ∷ buf) h
    ∙ unfold ends_in_cr in refl
after_cr-chunk (b ∷ buf) (c ∷ xs) h =
    after_cr-split (at_start []) b (buf ++ c ∷ xs) ∙ ends_in_cr-append c (b ∷ buf) xs

-- No printed line and no kept byte is a terminator: from kept bytes that are none, Write prints the
-- prefix with lines that hold no CR and no LF, and keeps no CR and no LF.
pub write-IsPlain :
    (w : Writer) (b : List ℕ)
    → All IsPlain w.buf
    → (out : List (List ℕ)) × (w' : Writer) × (write w b ≡ some (w', length b))
      × (w'.logger ≡ w.logger ++ map (λ l. w.prefix ++ l) out)
      × All (All IsPlain) out
      × All IsPlain w'.buf
write-IsPlain w b h =
    let start : IsProper (at_start []) = (tt, λ e. refl) in
    let whole = w.buf ++ b in
    (
      (split (at_start []) whole).0,
      after_split w (split (at_start []) whole),
      write-split w b,
      refl,
      split-lines (at_start []) whole start,
      (split-IsProper (at_start []) whole start).0,
    )

after_split-append :
    (w : Writer) (xs ys : List ℕ)
    → All IsPlain w.buf
    → (ends_in_cr xs && starts_with_lf ys) ≡ false
    → let kept = split (at_start []) (w.buf ++ xs) in
      after_split (after_split w kept) (split (at_start []) (kept.1.line ++ ys))
      ≡ after_split w (split (at_start []) (w.buf ++ (xs ++ ys)))
after_split-append w xs ys h k =
    let kept = split (at_start []) (w.buf ++ xs) in
    let (outs, rest) =
      split-resume kept.1.after_cr kept.1.line ys
        (split-IsProper (at_start []) (w.buf ++ xs) (tt, λ e. refl))
        (rw (after_cr-chunk w.buf xs h) k) in
    let whole : split (at_start []) (w.buf ++ (xs ++ ys))
        ≡ (kept.0 ++ (split kept.1 ys).0, (split kept.1 ys).1) =
      ap (split (at_start [])) (sym (append_assoc w.buf xs ys))
      ∙ split-append (at_start []) (w.buf ++ xs) ys in
    rw (whole, outs, rest, map-append, append_assoc)

-- Chunks do not matter: unless a chunk ends in CR and the next one opens with LF, two calls of Write
-- leave the writer, its printed lines and its kept bytes, as one call with the joined bytes does.
pub write-append :
    (w w₁ w₂ : Writer) (xs ys : List ℕ)
    → All IsPlain w.buf
    → (ends_in_cr xs && starts_with_lf ys) ≡ false
    → write w xs ≡ some (w₁, length xs)
    → write w₁ ys ≡ some (w₂, length ys)
    → write w (xs ++ ys) ≡ some (w₂, length (xs ++ ys))
write-append w w₁ w₂ xs ys h k e₁ e₂ =
    let kept = split (at_start []) (w.buf ++ xs) in
    let first : w₁ ≡ after_split w kept = cc (write-split w xs) in
    let second : w₂ ≡ after_split w₁ (split (at_start []) (w₁.buf ++ ys)) =
      cc (write-split w₁ ys) in
    let joined : w₂ ≡ after_split w (split (at_start []) (w.buf ++ (xs ++ ys))) =
      second
      ∙ ap (λ v. after_split v (split (at_start []) (v.buf ++ ys))) first
      ∙ after_split-append w xs ys h k in
    write-split w (xs ++ ys) ∙ ap (λ v. some (v, length (xs ++ ys))) (sym joined)

-- What a call of Write does to bytes that open no new line but the last one.
write-plain :
    (w : Writer) (line ys : List ℕ)
    → All IsPlain w.buf
    → All IsPlain line
    → write w (line ++ ys)
      ≡ some (after_split w (split (at_start (w.buf ++ line)) ys), length (line ++ ys))
write-plain w line ys h k = rw (
  write-split w (line ++ ys),
  ← append_assoc w.buf line ys,
  split-plain [] (w.buf ++ line) ys (All-append IsPlain w.buf line h k),
)

-- A CR LF that falls between two calls ends two lines: the call that ends in CR prints the line, and
-- the call that opens with LF prints the prefix alone, which one call with all bytes does not do.
pub write_split_crlf :
    (w : Writer) (line : List ℕ)
    → All IsPlain w.buf
    → All IsPlain line
    → (w₁ w₂ v : Writer) × (write w (line ++ cr ∷ []) ≡ some (w₁, length (line ++ cr ∷ [])))
      × (write w₁ (lf ∷ []) ≡ some (w₂, 1))
      × (write w (line ++ cr ∷ lf ∷ []) ≡ some (v, length (line ++ cr ∷ lf ∷ [])))
      × (v.logger ≡ w.logger ++ (w.prefix ++ (w.buf ++ line)) ∷ [])
      × (w₂.logger ≡ v.logger ++ w.prefix ∷ [])
unfolding split feed
write_split_crlf w line h k =
    let w₁ = record w { logger = w.logger ++ (w.prefix ++ (w.buf ++ line)) ∷ []; buf = [] } in
    (
      w₁,
      record w₁ { logger = w₁.logger ++ w.prefix ∷ [] },
      w₁,
      write-plain w line (cr ∷ []) h k,
      write-split w₁ (lf ∷ [])
          ∙ ap (λ p. some (record w₁ { logger = w₁.logger ++ p ∷ [] }, 1)) (append-nil w.prefix),
      write-plain w line (cr ∷ lf ∷ []) h k,
      refl,
      refl,
    )
