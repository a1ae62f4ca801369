-- ===== src/Waiting/Registered.antt =====
-- resources.go, the maps of channels: what each edit does to the registrations of a service.
use large_model_proxy.Base.{
  ◌≡◌, String, Bool, true, false, ◌&&◌, ◌||◌, List, [], ◌∷◌, Dict, lookup, lookup-insert,
  lookup-delete, insert, delete, map, Option, Option-cases, inl, inr, none, some, str_eq, eq_iff,
  arith, if◌then◌else◌,
}
use large_model_proxy.Manager.{
  Channel, try_send, send_signal_to_channels, adjust, lookup-adjust, lookup-send_signal_to_channels,
}
use large_model_proxy.Waiting.{channel_of}

abbrev pub has : String → List String → Bool
has q [] = false
has q (r ∷ rs) = str_eq r q || has q rs

abbrev pub is_some {ℓ} : {A : Type ℓ} → Option A → Bool
is_some none = false
is_some (some a) = true

-- The service has a channel for the resource.
unfoldable pub registered {ℓ} : {A : Type ℓ} → String → String → Dict (Dict (Channel A)) → Bool
registered q k chans = is_some (channel_of q k chans)

module _ {ℓ} {A : Type ℓ} where
  pub registered-delete :
      (r n q k : String) (chans : Dict (Dict (Channel A)))
      → registered q k (adjust r (delete n) chans)
        ≡ (if str_eq r q && str_eq n k then false else registered q k chans)
  unfolding registered
  registered-delete r n q k chans =
      let there = lookup-adjust r q (delete n) chans in
      elim (Option-cases (lookup q chans)) [
        | inl e ↦ ground (arith, there, e)
        | inr (inner, e) ↦ ground (arith, there, e, lookup-delete n k inner)
      ]

  pub registered-insert :
      (r n q k : String) (inner : Dict (Channel A)) (chans : Dict (Dict (Channel A)))
      → lookup r chans ≡ some inner
      → registered q k (insert r (insert n none inner) chans)
        ≡ (if str_eq r q && str_eq n k then true else registered q k chans)
  unfolding registered
  registered-insert r n q k inner chans e = ground (
    arith,
    e,
    eq_iff r q,
    lookup-insert r q (insert n none inner) chans,
    lookup-insert n k none inner,
  )

  pub registered-send :
      (v : A) (r q k : String) (chans : Dict (Dict (Channel A)))
      → registered q k (adjust r (send_signal_to_channels v) chans) ≡ registered q k chans
  unfolding registered try_send
  registered-send v r q k chans =
      let there = lookup-adjust r q (send_signal_to_channels v) chans in
      elim (Option-cases (lookup q chans)) [
        | inl e ↦ ground (arith, there, e)
        | inr (inner, e) ↦ ground (arith, there, e, lookup-send_signal_to_channels k v inner)
      ]

  pub registered-empty :
      (r n q k : String) (c : Channel A) (chans : Dict (Dict (Channel A)))
      → channel_of r n chans ≡ some c
      → registered q k (adjust r (insert n none) chans) ≡ registered q k chans
  unfolding registered
  registered-empty r n q k c chans h =
      let there = lookup-adjust r q (insert n none) chans in
      elim (Option-cases (lookup q chans)) [
        | inl e ↦ ground (arith, there, e)
        | inr (inner, e) ↦
            ground (arith, there, e, h, eq_iff r q, eq_iff n k, lookup-insert n k none inner)
      ]

  pub registered-map :
      (n q k : String) (chans : Dict (Dict (Channel A)))
      → registered q k (map (λ e. (e.0, delete n e.1)) chans)
        ≡ (if str_eq n k then false else registered q k chans)
  unfolding registered lookup
  registered-map n q k [] = ground arith
  registered-map n q k ((r, inner) ∷ chans) =
      ground (arith, registered-map n q k chans, lookup-delete n k inner)
