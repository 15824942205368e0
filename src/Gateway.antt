-- ===== src/Gateway.antt =====
-- The package internal/httpapi: the requests of the gateway.
pub mod Health
pub mod Policy
pub mod Routing
pub mod Usage
pub mod Json
pub mod Rules
pub mod Guardrails
pub mod Outside
pub mod Execution
pub mod Handlers
pub mod BetaHeaders
pub mod Sessions
pub mod Fields
pub mod Flows
pub mod Bridge
pub mod Reverse
