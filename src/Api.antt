-- ===== src/Api.antt =====
-- The handlers of app/context_engine/api/routes.py that take an `Idempotency-Key`: what they make of
-- the table of keys (Idempotency) and of the services they call (Lifecycle and Preparation).
pub mod Request
pub mod Domains
pub mod Sources
pub mod Spec
pub mod Claims
pub mod Refines
pub mod Settled
pub mod Released
mod Tests
