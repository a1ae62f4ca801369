-- ===== src/Config/Validation/Shared.antt =====
-- config.go, validateConfig: the map of the ports has one entry for a port, so that a port with at most
-- one listener is never reported.
use large_model_proxy.Base.{
  ◌≤◌, ◌≡◌, refl, String, false, List, [], ◌∷◌, Dict, lookup, lookup_or, lookup-delete, insert,
  delete, none, length, arith, str_eq, str_eq_self, eq_iff, Bool-cases, inl, inr,
}
use large_model_proxy.Config.{Config, ServiceConfig, is_blank}
use large_model_proxy.Config.Validation.{add_port, service_ports, port_set, port_issues}
use large_model_proxy.Config.Validation.Ports.{listeners, length-add_port, length-service_ports}

-- Every port is there once, and none is the empty text.
abbrev pub IsKeyed : Dict (List String) → Type 0
IsKeyed [] = Unit
IsKeyed ((port, names) ∷ ports) =
    (is_blank port ≡ false) × (lookup port ports ≡ none) × IsKeyed ports

delete-IsKeyed :
    (gone : String) (ports : Dict (List String)) → IsKeyed ports → IsKeyed (delete gone ports)
unfolding delete
delete-IsKeyed gone [] h = tt
delete-IsKeyed gone ((port, names) ∷ ports) (filled, once, rest) =
    let deeper = delete-IsKeyed gone ports rest in
    elim (Bool-cases (str_eq port gone)) [
      | inl e ↦ rw e deeper
      | inr e ↦ rw e (filled, ground (arith, lookup-delete gone port ports, once), deeper)
    ]

add_port-IsKeyed :
    (port name : String) (ports : Dict (List String))
    → IsKeyed ports
    → IsKeyed (add_port port name ports)
unfolding insert
add_port-IsKeyed port name ports h = elim (Bool-cases (is_blank port)) [
  | inl e ↦ rw e h
  | inr e ↦ rw e (
    e,
    ground (arith, lookup-delete port port ports, str_eq_self port),
    delete-IsKeyed port ports h,
  )
]

service_ports-IsKeyed :
    (ss : List ServiceConfig) (ports : Dict (List String))
    → IsKeyed ports
    → IsKeyed (service_ports ss ports)
unfolding service_ports
service_ports-IsKeyed [] ports h = h
service_ports-IsKeyed (s ∷ ss) ports h =
    service_ports-IsKeyed ss _ (add_port-IsKeyed s.listen_port s.name ports h)

port_issues-few :
    (ports : Dict (List String))
    → IsKeyed ports
    → ((p : String) → is_blank p ≡ false → length (lookup_or [] p ports) ≤ 1)
    → port_issues ports ≡ []
unfolding port_issues lookup_or lookup
port_issues-few [] h few = refl
port_issues-few ((port, names) ∷ ports) (filled, once, rest) few =
    let here : length names ≤ 1 = ground (arith, few port filled, str_eq_self port) in
    let later = port_issues-few ports rest (λ p e. elim (Bool-cases (str_eq port p)) [
      | inl same ↦
          let q : port ≡ p = (eq_iff port p).0 same in
          let gone : lookup p ports ≡ none = rw q at once in ground (arith, gone)
      | inr other ↦ ground (arith, few p e, other)
    ]) in
    ground (arith, here, later)

pub port_set-few :
    (c : Config)
    → ((p : String) → is_blank p ≡ false → listeners p c ≤ 1)
    → port_issues (port_set c) ≡ []
unfolding port_set lookup_or lookup
port_set-few c few =
    let services = service_ports c.services [] in
    let with_api = add_port c.open_ai_api_listen_port "Open AI API" services in
    let keyed = add_port-IsKeyed c.management_api_listen_port "Management API" with_api (
      add_port-IsKeyed c.open_ai_api_listen_port "Open AI API" services
        (service_ports-IsKeyed c.services [] tt)) in
    port_issues-few (port_set c) keyed (λ p h. omega (
      arith,
      few p h,
      length-add_port p c.management_api_listen_port "Management API" with_api h,
      length-add_port p c.open_ai_api_listen_port "Open AI API" services h,
      length-service_ports p c.services [] h,
    ))
