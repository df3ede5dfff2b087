-- ===== src/Access/Login.antt =====
-- The login handler, `login` of app/context_engine/api/routes.py: the throttle, the password, the
-- session. Setting the cookies is left out.
pub mod Blocked
pub mod Opens
use ce_local_studio.Base.{ℕ, Bool, Option, none, some, List, [], ◌∷◌, Result, ok, err}
use ce_local_studio.Access.Throttle.{
  RateLimited, login_rate_limited, ThrottleSettings, Bucket, assert_login_allowed,
  record_login_failure, clear_login_failures,
}
use ce_local_studio.Access.Sessions.{
  SessionSettings, User, AuthSession, authenticate_user, create_auth_session,
}

-- A request, with the hashes that are computed of it, the fresh token's hash and the fresh id, and
-- the clock readings of the throttle's check, of its write, and of the new session.
pub record LoginRequest : Type 0 where
  pub client_bucket_hash : ℕ
  pub username_hash : ℕ
  pub username : ℕ
  pub password : ℕ
  pub presented : Option ℕ
  pub token_hash : ℕ
  pub session_id : ℕ
  pub checked_at : ℕ
  pub written_at : ℕ
  pub created_at : ℕ

pub record Accounts : Type 0 where
  pub users : List User
  pub sessions : List AuthSession
  pub buckets : List Bucket

pub record LoginSettings : Type 0 where
  pub throttle : ThrottleSettings
  pub session : SessionSettings

pub data LoginOutcome : Type 0 where
  rate_limited : (retry_after : ℕ) → LoginOutcome
  invalid_credentials : LoginOutcome
  signed_in : User → (token_hash : ℕ) → LoginOutcome

module _ (digest : ℕ → ℕ → ℕ) (verify_password : ℕ → ℕ → Bool) (settings : LoginSettings) where
  -- What follows the check of the password.
  abbrev pub signed : LoginRequest → Accounts → Option User → LoginOutcome × Accounts
  signed q a none = (
    invalid_credentials,
    record a {
      buckets =
          record_login_failure digest settings.throttle q.client_bucket_hash q.username_hash
            q.written_at a.buckets;
    },
  )
  signed q a (some user) = (
    signed_in user q.token_hash,
    record a {
      buckets =
          clear_login_failures digest q.client_bucket_hash q.username_hash q.written_at a.buckets;
      sessions =
          create_auth_session settings.session q.session_id q.token_hash q.presented q.created_at
            user a.sessions;
    },
  )

  abbrev pub unless_limited :
      LoginRequest → Accounts → Result RateLimited (Unit {0}) → LoginOutcome × Accounts
  unless_limited q a (err (login_rate_limited seconds)) = (rate_limited seconds, a)
  unless_limited q a (ok _) =
      signed q a (authenticate_user verify_password a.users q.username q.password)

  unfoldable pub login : LoginRequest → Accounts → LoginOutcome × Accounts
  unfolding assert_login_allowed record_login_failure clear_login_failures authenticate_user
      create_auth_session
  login q a =
      unless_limited q a
        (assert_login_allowed a.buckets q.client_bucket_hash q.username_hash q.checked_at)

  -- The requests of all clients, in the order of their transactions.
  abbrev pub run_logins : List LoginRequest → Accounts → Accounts
  run_logins [] a = a
  run_logins (q ∷ qs) a = run_logins qs (login q a).1
