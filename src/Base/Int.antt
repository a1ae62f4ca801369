-- ===== src/Base/Int.antt =====
-- Signed integers over the native numbers, and Go's 64-bit `int`, whose sums and differences wrap.
use Prim.Native.Nat.{ℕ, suc, ◌+◌, ◌-◌, ◌%◌, ◌≤◌, ◌<◌}
use mathlib.Core.Path.{◌≡◌, refl, sym, ap, ◌∙◌}
use mathlib.Core.Logic.{◌⊎◌, inl, inr}
use mathlib.Core.Bool.{Bool}
use native.Mathlib.Omega.{arith}
use large_model_proxy.Base.Tests.{leb, ltb, if◌then◌else◌}

-- `negsuc n` is -(n + 1).
pub data ℤ : Type 0 where
  pos : ℕ → ℤ
  negsuc : ℕ → ℤ

abbrev pub pos_part : ℤ → ℕ
pos_part (pos n) = n
pos_part (negsuc n) = 0

abbrev pub neg_part : ℤ → ℕ
neg_part (pos n) = 0
neg_part (negsuc n) = suc n

abbrev pub sub_ℕ : ℕ → ℕ → ℤ
sub_ℕ a b = if leb b a then pos (a - b) else negsuc (b - a - 1)

infixl 65 ◌+ℤ◌ ◌-ℤ◌
infix 50 ◌≤ℤ◌ ◌<ℤ◌
unfoldable pub ◌+ℤ◌ : ℤ → ℤ → ℤ
a +ℤ b = sub_ℕ (pos_part a + pos_part b) (neg_part a + neg_part b)

unfoldable pub ◌-ℤ◌ : ℤ → ℤ → ℤ
a -ℤ b = sub_ℕ (pos_part a + neg_part b) (neg_part a + pos_part b)

abbrev pub ◌≤ℤ◌ : ℤ → ℤ → Type 0
a ≤ℤ b = pos_part a + neg_part b ≤ pos_part b + neg_part a

abbrev pub ◌<ℤ◌ : ℤ → ℤ → Type 0
a <ℤ b = pos_part a + neg_part b < pos_part b + neg_part a

abbrev pub ltb_ℤ : ℤ → ℤ → Bool
ltb_ℤ a b = ltb (pos_part a + neg_part b) (pos_part b + neg_part a)

abbrev pub leb_ℤ : ℤ → ℤ → Bool
leb_ℤ a b = leb (pos_part a + neg_part b) (pos_part b + neg_part a)

pub +ℤ_parts :
    (a b : ℤ)
    → pos_part (a +ℤ b) + neg_part a + neg_part b ≡ neg_part (a +ℤ b) + pos_part a + pos_part b
unfolding ◌+ℤ◌
+ℤ_parts a b = ground arith

pub -ℤ_parts :
    (a b : ℤ)
    → pos_part (a -ℤ b) + neg_part a + pos_part b ≡ neg_part (a -ℤ b) + pos_part a + neg_part b
unfolding ◌-ℤ◌
-ℤ_parts a b = ground arith

pub eq_of_parts : (a b : ℤ) → pos_part a + neg_part b ≡ pos_part b + neg_part a → a ≡ b
eq_of_parts a b h = ground arith

pub +ℤ_assoc : (a b c : ℤ) → a +ℤ b +ℤ c ≡ a +ℤ (b +ℤ c)
+ℤ_assoc a b c =
    eq_of_parts (a +ℤ b +ℤ c) (a +ℤ (b +ℤ c))
      (omega (arith, +ℤ_parts a b, +ℤ_parts (a +ℤ b) c, +ℤ_parts b c, +ℤ_parts a (b +ℤ c)))

pub -ℤ_-ℤ : (a b c : ℤ) → a -ℤ b -ℤ c ≡ a -ℤ (b +ℤ c)
-ℤ_-ℤ a b c =
    eq_of_parts (a -ℤ b -ℤ c) (a -ℤ (b +ℤ c))
      (omega (arith, -ℤ_parts a b, -ℤ_parts (a -ℤ b) c, +ℤ_parts b c, -ℤ_parts a (b +ℤ c)))

-- The value that a 64-bit two's complement word holds for an integer.
unfoldable pub wrap : ℤ → ℤ
wrap (pos n) = sub_ℕ ((n + 9223372036854775808) % 18446744073709551616) 9223372036854775808
wrap (negsuc n) =
    sub_ℕ (18446744073709551615 - (n + 9223372036854775808) % 18446744073709551616)
      9223372036854775808

-- The integers that Go's `int` holds.
abbrev pub IsInt : ℤ → Type 0
IsInt z = (pos_part z < 9223372036854775808) × (neg_part z ≤ 9223372036854775808)

unfoldable pub add : ℤ → ℤ → ℤ
add a b = wrap (a +ℤ b)

unfoldable pub sub : ℤ → ℤ → ℤ
sub a b = wrap (a -ℤ b)

pub wrap-eq_of_IsInt : (z : ℤ) → IsInt z → wrap z ≡ z
unfolding wrap
wrap-eq_of_IsInt (pos n) h = ground arith
wrap-eq_of_IsInt (negsuc n) h = ground arith

pub wrap-IsInt : (z : ℤ) → IsInt (wrap z)
unfolding wrap
wrap-IsInt (pos n) = ground arith
wrap-IsInt (negsuc n) = ground arith

pub ruleset int_laws = (arith, +ℤ_parts, -ℤ_parts, eq_of_parts)

wrap_congruent :
    (z : ℤ)
    → (pos_part (wrap z) + neg_part z) % 18446744073709551616
      ≡ (pos_part z + neg_part (wrap z)) % 18446744073709551616
unfolding wrap
wrap_congruent (pos n) = ground arith
wrap_congruent (negsuc n) = ground arith

wrap_unique :
    (x y : ℤ)
    → IsInt x
    → IsInt y
    → (pos_part x + neg_part y) % 18446744073709551616
      ≡ (pos_part y + neg_part x) % 18446744073709551616
    → x ≡ y
wrap_unique x y hx hy h = eq_of_parts x y (omega arith)

-- Wrapping early or late gives one word.
pub wrap_add_left : (a b : ℤ) → wrap (wrap a +ℤ b) ≡ wrap (a +ℤ b)
wrap_add_left a b =
    wrap_unique (wrap (wrap a +ℤ b)) (wrap (a +ℤ b)) (wrap-IsInt (wrap a +ℤ b))
      (wrap-IsInt (a +ℤ b))
      (omega (
        arith,
        wrap_congruent a,
        wrap_congruent (wrap a +ℤ b),
        wrap_congruent (a +ℤ b),
        +ℤ_parts (wrap a) b,
        +ℤ_parts a b,
      ))

pub wrap_sub_left : (a b : ℤ) → wrap (wrap a -ℤ b) ≡ wrap (a -ℤ b)
wrap_sub_left a b =
    wrap_unique (wrap (wrap a -ℤ b)) (wrap (a -ℤ b)) (wrap-IsInt (wrap a -ℤ b))
      (wrap-IsInt (a -ℤ b))
      (omega (
        arith,
        wrap_congruent a,
        wrap_congruent (wrap a -ℤ b),
        wrap_congruent (a -ℤ b),
        -ℤ_parts (wrap a) b,
        -ℤ_parts a b,
      ))

pub +ℤ_cancel : (a b : ℤ) → a +ℤ b -ℤ b ≡ a
+ℤ_cancel a b = eq_of_parts (a +ℤ b -ℤ b) a (omega (arith, +ℤ_parts a b, -ℤ_parts (a +ℤ b) b))

pub add-IsInt : (a b : ℤ) → IsInt (add a b)
unfolding add
add-IsInt a b = wrap-IsInt (a +ℤ b)

pub sub-IsInt : (a b : ℤ) → IsInt (sub a b)
unfolding sub
sub-IsInt a b = wrap-IsInt (a -ℤ b)

pub +ℤ_flip : (a t b : ℤ) → a +ℤ t +ℤ b ≡ b +ℤ t +ℤ a
+ℤ_flip a t b =
    eq_of_parts (a +ℤ t +ℤ b) (b +ℤ t +ℤ a)
      (omega (arith, +ℤ_parts a t, +ℤ_parts (a +ℤ t) b, +ℤ_parts b t, +ℤ_parts (b +ℤ t) a))

pub +ℤ_comm : (a b : ℤ) → a +ℤ b ≡ b +ℤ a
+ℤ_comm a b = eq_of_parts (a +ℤ b) (b +ℤ a) (omega (arith, +ℤ_parts a b, +ℤ_parts b a))

pub +ℤ_zero : (a : ℤ) → a +ℤ pos 0 ≡ a
+ℤ_zero a = eq_of_parts (a +ℤ pos 0) a (omega (arith, +ℤ_parts a (pos 0)))

-- What is moved over by an equation of sums.
pub eq-sub_of_add : (t a s : ℤ) → t +ℤ a ≡ s → t ≡ s -ℤ a
eq-sub_of_add t a s h = sym (+ℤ_cancel t a) ∙ ap (λ z. z -ℤ a) h

pub parts_exclusive : (z : ℤ) → (pos_part z ≡ 0) ⊎ (neg_part z ≡ 0)
parts_exclusive (pos n) = inr refl
parts_exclusive (negsuc n) = inl refl
