-- ===== src/TestServer/Health.antt =====
-- test-server/main.go, lines 92-96 and 223-247: the health check of the test server.
pub mod Reports
use large_model_proxy.Base.{ℕ, String, Bool, true, false, ℤ}

pub record HealthcheckResponse : Type 0 where
  pub message : String
  pub main_port_connections : ℤ
  pub status : ℕ

-- The response to any request, which is also the HTTP status; a failure of the encoder is not modelled.
unfoldable pub health_check_handler : Bool → ℤ → HealthcheckResponse
health_check_handler true connections = record {
  message = "ok";
  main_port_connections = connections;
  status = 200;
}
health_check_handler false connections = record {
  message = "server_starting";
  main_port_connections = connections;
  status = 503;
}
