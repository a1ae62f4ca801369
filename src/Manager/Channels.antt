-- ===== src/Manager/Channels.antt =====
-- Go channels with a buffer of one value, and monitor_resources.go, lines 121-198: the non-blocking
-- sends to every registered listener.
use large_model_proxy.Base.{
  ◌≡◌, refl, String, [], ◌∷◌, Dict, lookup, Option, none, some, if◌then◌else◌, str_eq, arith,
  eq_iff,
}

abbrev pub Channel {ℓ} : Type ℓ → Type ℓ
Channel A = Option A

-- `select` with a send and a default branch: a full buffer drops the new value.
unfoldable pub try_send {ℓ} : {A : Type ℓ} → A → Channel A → Channel A
try_send v none = some v
try_send v (some w) = some w

unfoldable pub send_signal_to_channels {ℓ} : {A : Type ℓ} → A → Dict (Channel A) → Dict (Channel A)
send_signal_to_channels v [] = []
send_signal_to_channels v ((service, c) ∷ cs) =
    (service, try_send v c) ∷ send_signal_to_channels v cs

-- The value of one key changed in place, if the key is there.
unfoldable pub adjust {ℓ} : {V : Type ℓ} → String → (V → V) → Dict V → Dict V
adjust k f [] = []
adjust k f ((j, v) ∷ m) = if str_eq j k then (j, f v) ∷ m else (j, v) ∷ adjust k f m

abbrev pub map_value {ℓ} : {V : Type ℓ} → (V → V) → Option V → Option V
map_value f none = none
map_value f (some v) = some (f v)

pub lookup-adjust {ℓ} :
    {V : Type ℓ} (k j : String) (f : V → V) (m : Dict V)
    → lookup j (adjust k f m) ≡ (if str_eq k j then map_value f (lookup j m) else lookup j m)
unfolding lookup adjust
lookup-adjust k j f [] = ground arith
lookup-adjust k j f ((i, v) ∷ m) =
    ground (arith, eq_iff k j, eq_iff i k, eq_iff i j, lookup-adjust k j f m)

pub lookup-send_signal_to_channels {ℓ} :
    {A : Type ℓ} (k : String) (v : A) (cs : Dict (Channel A))
    → lookup k (send_signal_to_channels v cs) ≡ map_value (try_send v) (lookup k cs)
unfolding lookup send_signal_to_channels
lookup-send_signal_to_channels k v [] = refl
lookup-send_signal_to_channels k v ((j, c) ∷ cs) =
    ground (arith, lookup-send_signal_to_channels k v cs)
