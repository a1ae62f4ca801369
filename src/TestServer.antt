-- ===== src/TestServer.antt =====
-- test-server/main.go: the server that the repository's tests run as a service.
pub mod MainPort
pub mod Health
pub mod Writer
pub mod Completions
pub mod Chat
pub mod Program
mod Examples
