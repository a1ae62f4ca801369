-- ===== src/Launch.antt =====
-- service.go: how a service that has been started, or is running already, is reached. The clock, the
-- results of commands and dials, and what a select finds ready are the arguments of the loops, one
-- round of a loop to a list element; times are nanoseconds.
pub mod HealthCheck
pub mod HealthEnds
pub mod Dial
pub mod DialEnds
pub mod Await
pub mod AwaitEnds
pub mod Queue
pub mod Queued
mod Examples
