-- ===== src/Config/Validation/Passes.antt =====
-- config.go, validateConfig: the passes over the services find nothing in a valid configuration.
use large_model_proxy.Base.{
  ℕ, suc, ◌≡◌, ◌≢◌, refl, String, false, List, [], ◌∷◌, Dict, lookup, none, ℤ, arith, str_eq, All,
  Option-cases, inl, inr, map,
}
use large_model_proxy.Config.{Config, ServiceConfig, is_blank}
use large_model_proxy.Config.Url.{Library}
use large_model_proxy.Config.Validation.{
  Issue, Label, contains, name_issues, each_service, listen_port_issues, resource_issues,
  requirement_issues, healthcheck_issues, reach_issues, command_issues, url_issues,
}
use large_model_proxy.Config.Validation.Sound.{Distinct, IsServable}

pub each_service-quiet :
    (check : ℕ → ServiceConfig → List Issue) (P : ServiceConfig → Type 0)
    → ((i : ℕ) (s : ServiceConfig) → P s → check i s ≡ [])
    → (i : ℕ) (ss : List ServiceConfig) → All P ss
    → each_service check i ss ≡ []
each_service-quiet check P f i [] h = refl
each_service-quiet check P f i (s ∷ ss) (h, hs) =
    rw (f i s h) (each_service-quiet check P f (suc i) ss hs)

requirement_issues-quiet :
    (c : Config) (label : Label) (rs : Dict ℤ)
    → All (λ r. lookup r.0 c.resources_available ≢ none) rs
    → requirement_issues c label rs ≡ []
unfolding requirement_issues
requirement_issues-quiet c label [] h = refl
requirement_issues-quiet c label ((r, a) ∷ rs) (h, hs) =
    let later = requirement_issues-quiet c label rs hs in
    elim (Option-cases (lookup r c.resources_available)) [
      | inl e ↦ absurd (h e)
      | inr (v, e) ↦ rw (e, later)
    ]

module _ (lib : Library) (c : Config) (i : ℕ) (s : ServiceConfig) (h : IsServable lib c s) where
  pub listen_port_issues-quiet : listen_port_issues lib i s ≡ []
  unfolding listen_port_issues
  listen_port_issues-quiet = ground (arith, h.listens)

  pub resource_issues-quiet : resource_issues c i s ≡ []
  unfolding resource_issues
  resource_issues-quiet = requirement_issues-quiet c _ s.resource_requirements h.provided

  pub healthcheck_issues-quiet : healthcheck_issues i s ≡ []
  unfolding healthcheck_issues
  healthcheck_issues-quiet = ground (arith, h.checked)

  pub reach_issues-quiet : reach_issues i s ≡ []
  unfolding reach_issues
  reach_issues-quiet = ground (arith, h.listens)

  pub command_issues-quiet : command_issues i s ≡ []
  unfolding command_issues
  command_issues-quiet = ground (arith, h.runs)

  pub url_issues-quiet : url_issues lib c i s ≡ []
  unfolding url_issues
  url_issues-quiet = ground (arith, h.url_parses)

unseen_with :
    (m : String) (seen ns : List String)
    → All (λ n. str_eq m n ≡ false) ns
    → All (λ n. contains n seen ≡ false) ns
    → All (λ n. contains n (m ∷ seen) ≡ false) ns
unseen_with m seen [] h k = tt
unseen_with m seen (n ∷ ns) (h, hs) (k, ks) = (rw h k, unseen_with m seen ns hs ks)

pub name_issues-quiet :
    (i : ℕ) (seen : List String) (ss : List ServiceConfig)
    → All (λ s. is_blank s.name ≡ false) ss
    → All (λ n. contains n seen ≡ false) (map (λ s. s.name) ss)
    → Distinct (map (λ s. s.name) ss)
    → name_issues i seen ss ≡ []
unfolding name_issues
name_issues-quiet i seen [] filled new distinct = refl
name_issues-quiet i seen (s ∷ ss) (f, filled) (n, new) (d, distinct) =
    rw (f, n)
      (name_issues-quiet (suc i) (s.name ∷ seen) ss filled
        (unseen_with s.name seen (map (λ x. x.name) ss) d new) distinct)
