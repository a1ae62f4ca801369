-- ===== src/Config/Validation/Ports.antt =====
-- No port has two listeners in a configuration without a port conflict.
use large_model_proxy.Base.{
  one_if, ℕ, ◌+◌, ◌≤◌, ◌≡◌, ap, String, false, List, [], ◌∷◌, Dict, lookup, lookup_or,
  lookup_or-insert, length, length-append, ltb, arith, str_eq, Bool-cases, inl, inr, eq_iff,
}
use large_model_proxy.Config.{Config, ServiceConfig, is_blank}
use large_model_proxy.Config.Validation.{
  issue_if, add_port, service_ports, port_set, port_issues, shared_port,
}
use large_model_proxy.Config.Validation.Lists.{append-nil_inv, issue_if-nil}

-- How many services listen on a port.
abbrev pub listening : String → List ServiceConfig → ℕ
listening p [] = 0
listening p (s ∷ ss) = one_if (str_eq s.listen_port p) + listening p ss

-- How many services and APIs listen on a port.
abbrev pub listeners : String → Config → ℕ
listeners p c =
    listening p c.services
    + one_if (str_eq c.open_ai_api_listen_port p)
    + one_if (str_eq c.management_api_listen_port p)

pub length-add_port :
    (p port name : String) (ports : Dict (List String))
    → is_blank p ≡ false
    → length (lookup_or [] p (add_port port name ports))
      ≡ length (lookup_or [] p ports) + one_if (str_eq port p)
length-add_port p port name ports h = elim (Bool-cases (is_blank port)) [
  | inl e ↦
      let q : str_eq port p ≡ false =
        ground (arith, e, h, eq_iff port p, eq_iff port "", eq_iff p "") in
      rw (e, q) (omega arith)
  | inr e ↦ elim (Bool-cases (str_eq port p)) [
    | inl same ↦
        let q : port ≡ p = (eq_iff port p).0 same in
        rw (e, lookup_or-insert, same, length-append)
          (ap (λ z. length (lookup_or [] z ports) + 1) q)
    | inr other ↦ rw (e, lookup_or-insert, other) (omega arith)
  ]
]

pub length-service_ports :
    (p : String) (ss : List ServiceConfig) (ports : Dict (List String))
    → is_blank p ≡ false
    → length (lookup_or [] p (service_ports ss ports))
      ≡ length (lookup_or [] p ports) + listening p ss
unfolding service_ports
length-service_ports p [] ports h = omega arith
length-service_ports p (s ∷ ss) ports h = omega (
  arith,
  length-service_ports p ss (add_port s.listen_port s.name ports) h,
  length-add_port p s.listen_port s.name ports h,
)

port_issues-nil :
    (p : String) (ports : Dict (List String))
    → port_issues ports ≡ []
    → length (lookup_or [] p ports) ≤ 1
unfolding port_issues lookup_or lookup
port_issues-nil p [] h = omega arith
port_issues-nil p ((q, names) ∷ ports) h =
    let (here, there) =
      append-nil_inv (issue_if (ltb 1 (length names)) (shared_port q names)) (port_issues ports)
        h in
    let few = issue_if-nil (ltb 1 (length names)) (shared_port q names) here in
    elim (Bool-cases (str_eq q p)) [
      | inl same ↦ rw same (ground (arith, few))
      | inr other ↦ rw other (port_issues-nil p ports there)
    ]

pub port_issues-listeners :
    (p : String) (c : Config)
    → is_blank p ≡ false
    → port_issues (port_set c) ≡ []
    → listeners p c ≤ 1
unfolding port_set lookup_or lookup
port_issues-listeners p c h none_shared =
    let services = service_ports c.services [] in
    let with_api = add_port c.open_ai_api_listen_port "Open AI API" services in
    omega (
      arith,
      port_issues-nil p (port_set c) none_shared,
      length-add_port p c.management_api_listen_port "Management API" with_api h,
      length-add_port p c.open_ai_api_listen_port "Open AI API" services h,
      length-service_ports p c.services [] h,
    )
