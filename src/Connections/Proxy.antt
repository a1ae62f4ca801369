-- ===== src/Connections/Proxy.antt =====
-- connection.go, lines 13-42: the accept loop of a service's port, over what its rounds meet.
use large_model_proxy.Base.{String, Bool, List, [], ◌∷◌, Dict, Option, none, some, if◌then◌else◌}
use Prim.Native.String.{◌++◌ as append}
use large_model_proxy.Config.{ServiceConfig}
use large_model_proxy.Connections.{Traffic, accept}

-- One round: whether the proxy is shutting down at its start, what Accept returns, and whether the proxy is
-- shutting down when handleConnection looks.
pub record Round : Type 0 where
  pub interrupted : Bool
  pub accepted : Bool
  pub interrupted_since : Bool

pub data Ended : Type 0 where
  cannot_listen stopped still_accepting : Ended

unfoldable pub accept_loop :
    Dict ServiceConfig → ServiceConfig → List Round → Traffic → Traffic × Ended
accept_loop configs s [] t = (t, still_accepting)
accept_loop configs s (r ∷ rounds) t =
    let handled = accept_loop configs s rounds (accept configs s r.interrupted_since t) in
    let passed = accept_loop configs s rounds t in
    if r.interrupted then (t, stopped) else if r.accepted then handled else passed

unfoldable pub start_proxy :
    Dict ServiceConfig → ServiceConfig → Bool → List Round → Traffic → Traffic × Ended
unfolding accept_loop
start_proxy configs s listens rounds t =
    if listens then accept_loop configs s rounds t else (t, cannot_listen)

-- The two addresses of a connection, where there is one.
unfoldable pub human_readable_connection : Option (String × String) → String
human_readable_connection none = "nil"
human_readable_connection (some (local, remote)) = append local (append "->" remote)
