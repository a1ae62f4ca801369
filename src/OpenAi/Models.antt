-- ===== src/OpenAi/Models.antt =====
-- openai_api.go: the list of models and the map that requests are routed by say the same.
use large_model_proxy.Base.{
  ℕ, ◌≡◌, refl, sym, String, Bool, true, false, List, [], ◌∷◌, ◌++◌, lookup, insert, lookup-insert,
  Option, none, some, if◌then◌else◌, str_eq, eq_iff, arith, All, Any, Bool-cases, Option-cases, inl,
  inr,
}
use large_model_proxy.Config.{ServiceConfig}
use large_model_proxy.OpenAi.{
  OpenAiApiModel, create_open_ai_api_model, Catalogue, add_models, offered, add_service,
  add_services, catalogue, find_model, Request, proxied, handle_completions,
}

abbrev pub is_some {ℓ} : {A : Type ℓ} → Option A → Bool
is_some none = false
is_some (some a) = true

-- The service is one of those configured, is open to the API, and offers the model.
abbrev pub IsOffer : List ServiceConfig → ServiceConfig → String → Type 0
IsOffer services s model =
    (s.open_ai_api ≡ true) × Any (λ m. m ≡ model) (offered s) × Any (λ t. t ≡ s) services

-- A catalogue whose list and map have the same models, each routed to a service that offers it.
pub record IsConsistent (services : List ServiceConfig) (t : Catalogue) : Type 0 where
  pub same :
      (model : String)
      → is_some (find_model model t.models) ≡ is_some (lookup model t.model_to_service_map)
  pub routed :
      (model : String) (s : ServiceConfig)
      → lookup model t.model_to_service_map ≡ some s
      → IsOffer services s model

find_model-append :
    (n : String) (x : OpenAiApiModel) (xs : List OpenAiApiModel)
    → is_some (find_model n (xs ++ x ∷ []))
      ≡ (if str_eq x.id n then true else is_some (find_model n xs))
unfolding find_model
find_model-append n x [] = ground arith
find_model-append n x (y ∷ ys) = ground (arith, find_model-append n x ys)

module _ (services : List ServiceConfig) (s : ServiceConfig) (now : ℕ) where
  add_models-IsConsistent :
      (names : List String) (t : Catalogue)
      → All (IsOffer services s) names
      → IsConsistent services t
      → IsConsistent services (add_models s now names t)
  unfolding add_models create_open_ai_api_model
  add_models-IsConsistent [] t offers h = h
  add_models-IsConsistent (name ∷ names) t (offer, offers) h =
      add_models-IsConsistent names
        (record {
          model_to_service_map = insert name s t.model_to_service_map;
          models = t.models ++ create_open_ai_api_model name now ∷ [];
        })
        offers
        (record {
          same = (λ model. elim (Bool-cases (str_eq name model)) [
            | inl e ↦ rw (find_model-append, lookup-insert, e)
            | inr e ↦ rw (find_model-append, lookup-insert, e) (h.same model)
          ]);
          routed = (λ model r e. elim (Bool-cases (str_eq name model)) [
            | inl f ↦
                let q : r ≡ s = cc (rw (lookup-insert, f) at e) in
                rw (q, sym ((eq_iff name model).0 f)) offer
            | inr f ↦ h.routed model r (rw (lookup-insert, f) at e)
          ]);
        })

All-mono :
    {A : Type 0} (P Q : A → Type 0) (xs : List A) → ((x : A) → P x → Q x) → All P xs → All Q xs
All-mono P Q [] f h = tt
All-mono P Q (x ∷ xs) f (h, hs) = (f x h, All-mono P Q xs f hs)

All-within : {A : Type 0} (xs : List A) → All (λ x. Any (λ y. y ≡ x) xs) xs
All-within [] = tt
All-within (x ∷ xs) = (inl refl, All-mono _ _ xs (λ y k. inr k) (All-within xs))

add_service-open :
    (s : ServiceConfig) (now : ℕ) (t : Catalogue)
    → s.open_ai_api ≡ true
    → add_service s now t ≡ add_models s now (offered s) t
unfolding add_service
add_service-open s now t h = ground (arith, h)

add_service-closed :
    (s : ServiceConfig) (now : ℕ) (t : Catalogue) → s.open_ai_api ≡ false → add_service s now t ≡ t
unfolding add_service
add_service-closed s now t h = ground (arith, h)

add_service-IsConsistent :
    (services : List ServiceConfig) (s : ServiceConfig) (now : ℕ) (t : Catalogue)
    → Any (λ x. x ≡ s) services
    → IsConsistent services t
    → IsConsistent services (add_service s now t)
add_service-IsConsistent services s now t here h = elim (Bool-cases s.open_ai_api) [
  | inr closed ↦ rw (add_service-closed s now t closed) h
  | inl open_ ↦ rw (add_service-open s now t open_) (
      add_models-IsConsistent services s now (offered s) t
        (All-mono _ _ (offered s) (λ n k. (open_, k, here)) (All-within (offered s))) h)
]

add_services-IsConsistent :
    (services ss : List ServiceConfig) (now : ℕ) (t : Catalogue)
    → All (λ s. Any (λ x. x ≡ s) services) ss
    → IsConsistent services t
    → IsConsistent services (add_services now ss t)
unfolding add_services
add_services-IsConsistent services [] now t within h = h
add_services-IsConsistent services (s ∷ ss) now t (here, within) h =
    add_services-IsConsistent services ss now (add_service s now t) within
      (add_service-IsConsistent services s now t here h)

-- The models that are listed are exactly those that requests are routed by, and each is routed to a
-- configured service that is open to the API and offers the model.
pub catalogue-IsConsistent :
    (now : ℕ) (services : List ServiceConfig) → IsConsistent services (catalogue now services)
unfolding catalogue lookup find_model
catalogue-IsConsistent now services =
    add_services-IsConsistent services services now _ (All-within services) nothing
  where
    nothing : IsConsistent services (record { model_to_service_map = []; models = [] })
    nothing = record { same = (λ model. refl); routed = (λ model s e. ground (arith, e)) }

-- A completions request reaches a service only if it is a POST whose body was read and names a listed
-- model; the service is open to the API and offers that model, and it gets the captured bytes.
pub handle_completions-IsOffer :
    (now : ℕ) (services : List ServiceConfig) (q : Request) (raw sent : List ℕ) (s : ServiceConfig)
    → handle_completions (catalogue now services).model_to_service_map q raw ≡ proxied s sent
    → (str_eq q.method "POST" ≡ true)
      × (q.body_read ≡ true)
      × (sent ≡ raw)
      × ((model : String) × (q.model ≡ some model)
          × (is_some (find_model model (catalogue now services).models) ≡ true)
          × IsOffer services s model)
unfolding handle_completions
handle_completions-IsOffer now services q raw sent s h = elim (Option-cases q.model) [
  | inl e ↦ ground (arith, h, e)
  | inr (model, e) ↦
      elim (Option-cases (lookup model (catalogue now services).model_to_service_map)) [
        | inl f ↦ ground (arith, h, e, f)
        | inr (t, f) ↦
            let consistent = catalogue-IsConsistent now services in
            let same : t ≡ s = ground (arith, h, e, f) in
            (
              ground (arith, h),
              ground (arith, h),
              ground (arith, h, e, f),
              (model, e, rw (consistent.same model, f), consistent.routed model s (rw same at f)),
            )
      ]
]
