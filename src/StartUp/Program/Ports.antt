-- ===== src/StartUp/Program/Ports.antt =====
-- main.go: the ports of the goroutines are those that the configuration's services and APIs listen on.
use large_model_proxy.Base.{
  ℕ, ◌+◌, ◌≤◌, ◌≡◌, refl, String, false, List, [], ◌∷◌, ◌++◌, Dict, one_if, All, All-append, arith,
  str_eq, str_eq_self, eq_iff, Bool-cases, inl, inr, if◌then◌else◌,
}
use large_model_proxy.Config.{Config, ServiceConfig, ResourceAvailable, is_blank}
use large_model_proxy.Config.Url.{Library}
use large_model_proxy.Config.Validation.Ports.{listening, listeners}
use large_model_proxy.Config.Validation.Sound.{Distinct, IsPort, IsServable}
use large_model_proxy.Config.Validation.Complete.{IsAccepted, IsOffOrPort}
use large_model_proxy.StartUp.Program.{
  Goroutine, monitors, proxies, serves_open_ai, serves_management, monitors_of, proxies_of, api_if,
  goroutines,
}

-- The ports that the goroutines listen on.
abbrev pub ports : List Goroutine → List String
ports [] = []
ports (monitors r a ∷ gs) = ports gs
ports (proxies s ∷ gs) = s.listen_port ∷ ports gs
ports (serves_open_ai port ∷ gs) = port ∷ ports gs
ports (serves_management port ∷ gs) = port ∷ ports gs

ports-append : (gs hs : List Goroutine) → ports (gs ++ hs) ≡ ports gs ++ ports hs
ports-append [] hs = refl
ports-append (monitors r a ∷ gs) hs = ports-append gs hs
ports-append (proxies s ∷ gs) hs = rw (ports-append gs hs)
ports-append (serves_open_ai p ∷ gs) hs = rw (ports-append gs hs)
ports-append (serves_management p ∷ gs) hs = rw (ports-append gs hs)

ports-monitors_of : (rs : Dict ResourceAvailable) → ports (monitors_of rs) ≡ []
unfolding monitors_of
ports-monitors_of [] = refl
ports-monitors_of ((r, a) ∷ rs) = elim (Bool-cases (is_blank a.check_command)) [
  | inl e ↦ rw e (ports-monitors_of rs)
  | inr e ↦ rw e (ports-monitors_of rs)
]

-- How often a text is in a list.
abbrev pub times : String → List String → ℕ
times p [] = 0
times p (q ∷ qs) = one_if (str_eq q p) + times p qs

times-append : (p : String) (xs ys : List String) → times p (xs ++ ys) ≡ times p xs + times p ys
times-append p [] ys = omega arith
times-append p (x ∷ xs) ys = omega (arith, times-append p xs ys)

times-absent : (q : String) (qs : List String) → times q qs ≡ 0 → All (λ m. str_eq q m ≡ false) qs
times-absent q [] h = tt
times-absent q (m ∷ qs) h =
    let other : str_eq m q ≡ false = ground (arith, h) in
    (ground (arith, other, eq_iff q m, eq_iff m q), times-absent q qs (ground (arith, h)))

-- A list without the empty text is one of different texts if no text that is not empty is there twice.
pub Distinct-times :
    (qs : List String)
    → All (λ q. is_blank q ≡ false) qs
    → ((p : String) → is_blank p ≡ false → times p qs ≤ 1)
    → Distinct qs
Distinct-times [] filled few = tt
Distinct-times (q ∷ qs) (f, filled) few =
    let gone : times q qs ≡ 0 = ground (arith, few q f, str_eq_self q) in
    (times-absent q qs gone, Distinct-times qs filled (λ p e. ground (arith, few p e)))

module _ (lib : Library) where
  -- A port that main listens on.
  abbrev pub IsListenable : String → Type 0
  IsListenable p = (is_blank p ≡ false) × IsPort lib p

  proxies_of-IsListenable :
      (c : Config) (ss : List ServiceConfig)
      → All (IsServable lib c) ss
      → All IsListenable (ports (proxies_of ss))
  unfolding proxies_of
  proxies_of-IsListenable c [] h = tt
  proxies_of-IsListenable c (s ∷ ss) (h, hs) = elim h.listens [
    | inl (e, _) ↦ rw e (proxies_of-IsListenable c ss hs)
    | inr port ↦ rw port.0 ((port.0, port), proxies_of-IsListenable c ss hs)
  ]

times-proxies_of :
    (p : String) (ss : List ServiceConfig)
    → is_blank p ≡ false
    → times p (ports (proxies_of ss)) ≡ listening p ss
unfolding proxies_of
times-proxies_of p [] h = refl
times-proxies_of p (s ∷ ss) h =
    let rest = times-proxies_of p ss h in
    elim (Bool-cases (is_blank s.listen_port)) [
      | inl e ↦
          let other : str_eq s.listen_port p ≡ false =
            ground (arith, e, h, eq_iff s.listen_port p, eq_iff s.listen_port "", eq_iff p "") in
          rw (e, other) (omega (arith, rest))
      | inr e ↦ rw e (omega (arith, rest))
    ]

-- The port of an API that is not switched off.
abbrev api_port : String → List String
api_port port = if is_blank port then [] else port ∷ []

ports-serves_open_ai : (port : String) → ports (api_if serves_open_ai port) ≡ api_port port
ports-serves_open_ai port = elim (Bool-cases (is_blank port)) [
  | inl e ↦ rw e refl
  | inr e ↦ rw e refl
]

ports-serves_management : (port : String) → ports (api_if serves_management port) ≡ api_port port
ports-serves_management port = elim (Bool-cases (is_blank port)) [
  | inl e ↦ rw e refl
  | inr e ↦ rw e refl
]

times-api_port :
    (p port : String) → is_blank p ≡ false → times p (api_port port) ≡ one_if (str_eq port p)
times-api_port p port h = elim (Bool-cases (is_blank port)) [
  | inr e ↦ rw e (omega arith)
  | inl e ↦
      let other : str_eq port p ≡ false =
        ground (arith, e, h, eq_iff port p, eq_iff port "", eq_iff p "") in
      rw (e, other) refl
]

api_port-IsListenable :
    (lib : Library) (port : String) → IsOffOrPort lib port → All (IsListenable lib) (api_port port)
api_port-IsListenable lib port (inl e) = rw e tt
api_port-IsListenable lib port (inr h) = rw h.0 ((h.0, h), tt)

-- All ports of a configuration, in the order of the goroutines.
abbrev pub all_ports : Config → List String
all_ports c =
    ports (proxies_of c.services)
    ++ (api_port c.open_ai_api_listen_port ++ api_port c.management_api_listen_port)

pub ports-goroutines : (c : Config) → ports (goroutines c) ≡ all_ports c
unfolding goroutines
ports-goroutines c = rw (
  ports-append (monitors_of c.resources_available) _,
  ports-monitors_of c.resources_available,
  ports-append (proxies_of c.services) _,
  ports-append (api_if serves_open_ai c.open_ai_api_listen_port) _,
  ports-serves_open_ai c.open_ai_api_listen_port,
  ports-serves_management c.management_api_listen_port,
)

pub times-all_ports :
    (p : String) (c : Config) → is_blank p ≡ false → times p (all_ports c) ≡ listeners p c
times-all_ports p c h = omega (
  arith,
  times-append p (ports (proxies_of c.services))
      (api_port c.open_ai_api_listen_port ++ api_port c.management_api_listen_port),
  times-append p (api_port c.open_ai_api_listen_port) (api_port c.management_api_listen_port),
  times-proxies_of p c.services h,
  times-api_port p c.open_ai_api_listen_port h,
  times-api_port p c.management_api_listen_port h,
)

pub all_ports-IsListenable :
    (lib : Library) (c : Config) → IsAccepted lib c → All (IsListenable lib) (all_ports c)
all_ports-IsListenable lib c h =
    All-append (IsListenable lib) (ports (proxies_of c.services)) _
      (proxies_of-IsListenable lib c c.services h.valid.servable)
      (All-append (IsListenable lib) (api_port c.open_ai_api_listen_port) _
        (api_port-IsListenable lib c.open_ai_api_listen_port h.open_ai_port)
        (api_port-IsListenable lib c.management_api_listen_port h.management_port))
