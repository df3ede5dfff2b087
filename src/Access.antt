-- ===== src/Access.antt =====
-- Sign-in: the login throttle, the sessions and the login handler
-- (app/context_engine/services/login_throttle.py, app/context_engine/services/auth.py, and parts of
-- app/context_engine/api).
pub mod Throttle
pub mod Sessions
pub mod Login
mod Tests
