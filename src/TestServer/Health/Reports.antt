-- ===== src/TestServer/Health/Reports.antt =====
-- test-server/main.go: what the health check says of the connections of the main port.
use large_model_proxy.Base.{◌≡◌, refl, Bool, true, List, [], some, ℤ, pos, wrap, All, arith}
use large_model_proxy.TestServer.MainPort.{Server, Action, own_pid, run}
use large_model_proxy.TestServer.MainPort.Threads.{IsSound, IsHonest}
use large_model_proxy.TestServer.MainPort.Counter.{number_open, All-map, run-Inv}
use large_model_proxy.TestServer.Health.{HealthcheckResponse, health_check_handler}

abbrev pub checked : Server → HealthcheckResponse
checked s = health_check_handler s.app_started s.main_port_connections

answered : (started : Bool) (n : ℤ) → started ≡ true → (health_check_handler started n).status ≡ 200
unfolding health_check_handler
answered started n h = ground arith

reported : (started : Bool) (n : ℤ) → (health_check_handler started n).main_port_connections ≡ n
unfolding health_check_handler
reported started n = ground arith

-- After any schedule of the steps of the listener and of the two threads of every connection, each
-- update of the counter being one step, the health check reports how many connections are open, as a
-- 64-bit word: those whose handler has not returned and whose client has not been seen to leave. A
-- connection is off the count exactly when it is not open, whichever of its threads ended it, and
-- neither of its channels is closed already when its thread comes to close it. Once a client was sent
-- the process's id, the health check says 200.
pub run-checked :
    (s : Server) (schedule : List Action)
    → s.connections ≡ []
    → s.main_port_connections ≡ pos 0
    → let u = run s schedule in
      ((checked u).main_port_connections ≡ wrap (pos (number_open u.connections)))
      × All IsSound u.connections
      × All (λ k. k.answer ≡ some own_pid → (checked u).status ≡ 200) u.connections
run-checked s schedule none_yet zero_yet =
    let u = run s schedule in
    let v = run-Inv s schedule (record {
      counted = rw (none_yet, zero_yet) (unfold number_open wrap in refl);
      sound = rw none_yet tt;
      honest = rw none_yet tt;
    }) in
    (
      rw (reported u.app_started u.main_port_connections) v.counted,
      v.sound,
      All-map (IsHonest u.app_started) _ u.connections
          (λ k h sent. answered u.app_started u.main_port_connections (h.1 sent)) v.honest,
    )
