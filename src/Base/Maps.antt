-- ===== src/Base/Maps.antt =====
-- Go maps with text keys as association lists. A range over a map visits the entries in list order;
-- statements quantify over the list, so over every order.
use Prim.Native.String.{String}
use text.Mathlib.TextEquality.{eq_iff}
use mathlib.Core.Path.{◌≡◌}
use mathlib.Core.List.{List, [], ◌∷◌}
use mathlib.Core.Option.{Option, none, some}
use native.Mathlib.Omega.{arith}
use large_model_proxy.Base.Tests.{if◌then◌else◌, str_eq}

abbrev pub Dict {ℓ} : Type ℓ → Type ℓ
Dict V = List (String × V)

module _ {ℓ} {V : Type ℓ} where
  -- The entries under other keys.
  unfoldable pub delete : (key : String) (entries : Dict V) → Dict V
  delete key [] = []
  delete key (entry ∷ entries) =
      let others = delete key entries in if str_eq entry.0 key then others else entry ∷ others

  unfoldable pub lookup : (key : String) (entries : Dict V) → Option V
  lookup key [] = none
  lookup key (entry ∷ entries) =
      let later = lookup key entries in if str_eq entry.0 key then some entry.1 else later

  -- A Go map has no order, so the new entry is put in front.
  unfoldable pub insert : (key : String) (value : V) (entries : Dict V) → Dict V
  unfolding delete
  insert key value entries = (key, value) ∷ delete key entries

  -- m[k] with the zero value for a missing key.
  abbrev pub value_or : V → Option V → V
  value_or d none = d
  value_or d (some v) = v

  unfoldable pub lookup_or : V → String → Dict V → V
  unfolding lookup
  lookup_or d k m = value_or d (lookup k m)

  pub lookup-delete :
      (gone key : String) (entries : Dict V)
      → lookup key (delete gone entries) ≡ (if str_eq gone key then none else lookup key entries)
  unfolding delete lookup
  lookup-delete gone key [] = ground arith
  lookup-delete gone key (entry ∷ entries) = ground (
    arith,
    eq_iff gone key,
    eq_iff entry.0 gone,
    eq_iff entry.0 key,
    lookup-delete gone key entries,
  )

  pub lookup-insert :
      (put key : String) (value : V) (entries : Dict V)
      → lookup key (insert put value entries)
        ≡ (if str_eq put key then some value else lookup key entries)
  unfolding insert lookup
  lookup-insert put key value entries = ground (arith, lookup-delete put key entries)

  pub lookup_or-insert :
      (d : V) (put key : String) (value : V) (entries : Dict V)
      → lookup_or d key (insert put value entries)
        ≡ (if str_eq put key then value else lookup_or d key entries)
  unfolding lookup_or
  lookup_or-insert d put key value entries = ground (arith, lookup-insert put key value entries)
