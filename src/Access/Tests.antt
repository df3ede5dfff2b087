-- ===== src/Access/Tests.antt =====
-- The results on sign-in, at concrete tables.
use ce_local_studio.Base.{
  ℕ, suc, zero, ◌+◌, ◌*◌, ◌≤◌, ◌≡◌, refl, Bool, false, none, some, List, [], ◌∷◌, arith, ok, err,
  ◌==◌,
}
use ce_local_studio.Access.Throttle.{
  second, ThrottleSettings, Bucket, find_bucket, retry_after, assert_login_allowed,
}
use ce_local_studio.Access.Throttle.Cleanup.{Injective}
use ce_local_studio.Access.Throttle.Counting.{failures, Counted, max_failures_block}
use ce_local_studio.Access.Sessions.{
  User, member, AuthSession, SessionSettings, unauthenticated, require_current_session,
  revoke_session_token, authenticate_user,
}
use ce_local_studio.Access.Sessions.Revoked.{opens, uses, operate_all, logout_final}
use ce_local_studio.Access.Login.{
  LoginRequest, Accounts, LoginSettings, rate_limited, signed_in, login, run_logins,
}
use ce_local_studio.Access.Login.Blocked.{login_block_holds}
use ce_local_studio.Access.Login.Opens.{Verified, login_opens_session}

-- A digest that meets no collision: `2 ^ a * (2 * b + 1)`.
abbrev digest : ℕ → ℕ → ℕ
digest zero b = b + b + 1
digest (suc a) b = let half = digest a b in half + half

digest-Injective : Injective digest
digest-Injective zero b zero d e = (refl, omega (arith, e))
digest-Injective zero b (suc c) d e = absurd (omega (arith, e))
digest-Injective (suc a) b zero d e = absurd (omega (arith, e))
digest-Injective (suc a) b (suc c) d e =
    let (x, y) = digest-Injective a b c d (omega (arith, e)) in (omega (arith, x), y)

abbrev limits : ThrottleSettings
limits = record { window_seconds = 300; max_failures = 5; block_seconds = 900 }

abbrev session_limits : SessionSettings
session_limits = record {
  session_ttl_seconds = 3600;
  session_idle_ttl_seconds = 600;
  session_touch_interval_seconds = 60;
}

abbrev settings : LoginSettings
settings = record { throttle = limits; session = session_limits }

max_failures_block_example :
    (row : Bucket) × (find_bucket 1 2
        (failures digest limits 1 2 (100 ∷ 200 ∷ 300 ∷ 400 ∷ 500 ∷ []) [])
      ≡ some row)
    × Counted limits 1 2 100 5 500 row
max_failures_block_example =
    max_failures_block digest limits 1 2 100 (200 ∷ 300 ∷ 400 ∷ 500 ∷ []) [] digest-Injective tt
      refl (omega arith) (omega arith, (omega arith, (omega arith, (omega arith, tt))))
      (omega arith)

abbrev blocked : Bucket
blocked = record {
  client_bucket_hash = 1;
  username_hash = 2;
  window_started_at = 100;
  failure_count = 5;
  blocked_until = some 900000500;
  updated_at = 500;
}

abbrev ann : User
ann = record { id = 7; username = 70; password_hash = 71; role = member; is_disabled = false }

abbrev accounts : Accounts
accounts = record { users = ann ∷ []; sessions = []; buckets = blocked ∷ [] }

abbrev matches : ℕ → ℕ → Bool
matches stored given = stored == given

abbrev ask : LoginRequest
ask = record {
  client_bucket_hash = 1;
  username_hash = 2;
  username = 70;
  password = 71;
  presented = none;
  token_hash = 9;
  session_id = 3;
  checked_at = 600;
  written_at = 601;
  created_at = 602;
}

login_block_holds_example :
    let a' =
      run_logins digest matches settings (record ask { client_bucket_hash = 4 } ∷ []) accounts in
    (login digest matches settings ask a' ≡ (rate_limited (retry_after 900000500 600), a'))
    × (900000500 ≤ 600 + retry_after 900000500 600 * second)
login_block_holds_example =
    login_block_holds digest matches settings digest-Injective blocked 900000500 refl (omega arith)
      accounts (record ask { client_bucket_hash = 4 } ∷ []) ask (tt, tt) refl
      ((omega arith, omega arith), tt) (omega arith)

abbrev open_accounts : Accounts
open_accounts = record accounts { buckets = [] }

abbrev after_login : Accounts
after_login = (login digest matches settings ask open_accounts).1

signs_in : login digest matches settings ask open_accounts ≡ (signed_in ann 9, after_login)
unfolding login assert_login_allowed authenticate_user
signs_in = refl

login_opens_session_example :
    (assert_login_allowed [] 1 2 600 ≡ ok tt)
    × Verified matches ask open_accounts ann
    × ((sessions : List AuthSession) × (require_current_session session_limits 9 1000
            after_login.users after_login.sessions
          ≡ ok (ann, sessions)))
login_opens_session_example =
    login_opens_session digest matches settings ask open_accounts after_login ann 9 1000 signs_in
      refl refl (omega arith) (omega arith)

abbrev held : AuthSession
held = record {
  id = 3;
  user_id = 7;
  token_hash = 9;
  expires_at = 5000;
  revoked_at = none;
  created_at = 10;
  last_used_at = some 10;
}

logout_final_example :
    require_current_session session_limits 9 40 (ann ∷ []) (
      operate_all
        (opens session_limits 4 12 none 30 ann ∷ uses session_limits 9 35 (ann ∷ []) ∷ [])
        (revoke_session_token 9 20 (held ∷ [])).1)
    ≡ err unauthenticated
logout_final_example =
    logout_final 9 20 (held ∷ [])
      (opens session_limits 4 12 none 30 ann ∷ uses session_limits 9 35 (ann ∷ []) ∷ [])
      session_limits 40 (ann ∷ []) refl
