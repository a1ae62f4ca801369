-- ===== src/LogWriter/Examples.antt =====
-- Lines that come in several chunks. 91 is an opening bracket, 97 to 99 are letters.
use large_model_proxy.Base.{ℕ, ◌≡◌, refl, List, [], ◌∷◌, ◌++◌, map, flatten, some, All, ◌-ℤ◌}
use large_model_proxy.LogWriter.{Writer, cr, lf, write, is_eol}
use large_model_proxy.LogWriter.Split.{
  at_start, split, strip, after_split, write-split, write-content,
}
use large_model_proxy.LogWriter.Chunks.{
  IsPlain, write-IsPlain, write-append, ends_in_cr, starts_with_lf,
}

abbrev begun : Writer
begun = record { prefix = 91 ∷ []; logger = []; buf = 97 ∷ [] }

abbrev chunk : List ℕ
chunk = 98 ∷ cr ∷ lf ∷ 99 ∷ lf ∷ 97 ∷ []

abbrev after_chunk : Writer
after_chunk = record {
  prefix = 91 ∷ [];
  logger = (91 ∷ 97 ∷ 98 ∷ []) ∷ (91 ∷ 99 ∷ []) ∷ [];
  buf = 97 ∷ [];
}

abbrev after_both : Writer
after_both = record {
  prefix = 91 ∷ [];
  logger = (91 ∷ 97 ∷ 98 ∷ []) ∷ (91 ∷ 99 ∷ []) ∷ (91 ∷ 97 ∷ 98 ∷ []) ∷ (91 ∷ 99 ∷ []) ∷ [];
  buf = 97 ∷ [];
}

write-chunk : write begun chunk ≡ some (after_chunk, 6)
unfolding write ◌-ℤ◌
write-chunk = refl

write-split_example :
    write begun chunk ≡ some (after_split begun (split (at_start []) (97 ∷ chunk)), 6)
write-split_example = write-split begun chunk

write-content_example :
    (out : List (List ℕ)) × (w' : Writer) × (write begun chunk ≡ some (w', 6))
    × (w'.logger ≡ [] ++ map (λ l. (91 ∷ []) ++ l) out)
    × (flatten out ++ w'.buf ≡ strip (97 ∷ chunk))
write-content_example = write-content begun chunk

write-IsPlain_example :
    (out : List (List ℕ)) × (w' : Writer) × (write begun chunk ≡ some (w', 6))
    × (w'.logger ≡ [] ++ map (λ l. (91 ∷ []) ++ l) out)
    × All (All IsPlain) out
    × All IsPlain w'.buf
unfolding is_eol
write-IsPlain_example = write-IsPlain begun chunk (refl, tt)

write-append_example : write begun (chunk ++ chunk) ≡ some (after_both, 12)
unfolding write is_eol ends_in_cr starts_with_lf ◌-ℤ◌
write-append_example =
    write-append begun after_chunk after_both chunk chunk (refl, tt) refl refl refl
