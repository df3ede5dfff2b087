-- ===== src/Csrf.antt =====
-- The CSRF token (app/context_engine/services/csrf.py) and the checks that a request passes before a
-- route runs (app/context_engine/services/request_security.py). Bytes and texts are lists of code
-- points. `hmac_sha256`, `dumps` and `loads` stand for the libraries' functions; `loads` gives a
-- payload where the text is an object of exactly the four keys. `decode` gives `none` where the
-- library raises, and also for a character outside the alphabet, which the library skips.
pub mod Base64
pub mod Token
pub mod Request
pub mod Issued
pub mod Ingress
pub mod Signed
pub mod Enforced
mod Tests
