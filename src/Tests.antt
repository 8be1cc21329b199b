-- ===== src/Tests.antt =====
-- Runs on small inputs, and the results of the library at concrete inputs.
pub mod Data
pub mod Endpoint
pub mod Handler
pub mod Request
pub mod Response
pub mod Server
pub mod Start
pub mod Transaction
pub mod Workers
