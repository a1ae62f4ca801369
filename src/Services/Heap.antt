-- ===== src/Services/Heap.antt =====
-- The list of instances as Go's heap: an instance's number is its address.
use large_model_proxy.Base.{ℕ, zero, suc, List, [], ◌∷◌}

module _ {ℓ} {A : Type ℓ} where
  -- A write out of bounds changes nothing.
  abbrev pub set : List A → ℕ → A → List A
  set [] i v = []
  set (x ∷ xs) zero v = v ∷ xs
  set (x ∷ xs) (suc i) v = x ∷ set xs i v
