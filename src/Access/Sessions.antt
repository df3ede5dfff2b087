-- ===== src/Access/Sessions.antt =====
-- Users and sessions: `authenticate_user`, `create_auth_session`, `revoke_session_token` and
-- `revalidate_mutation_actor` of app/context_engine/services/auth.py, and `require_current_session`
-- of app/context_engine/api/dependencies.py. Names, passwords, tokens and hashes are numbers; the
-- check of a password and the hash of a token are parameters. An instant is a number of
-- microseconds.
pub mod Revoked
use ce_local_studio.Base.{
  ℕ, ◌+◌, ◌*◌, Bool, true, false, not, ◌&&◌, ◌||◌, Option, none, some, List, [], ◌∷◌, ◌++◌, Result,
  ok, err, find, leb, ◌==◌, if◌then◌else◌, is_some, or_else,
}
use ce_local_studio.Access.Throttle.{second}

pub data Role : Type 0 where
  administrator member : Role

pub record User : Type 0 where
  pub id : ℕ
  pub username : ℕ
  pub password_hash : ℕ
  pub role : Role
  pub is_disabled : Bool

pub record AuthSession : Type 0 where
  pub id : ℕ
  pub user_id : ℕ
  pub token_hash : ℕ
  pub expires_at : ℕ
  pub revoked_at : Option ℕ
  pub created_at : ℕ
  pub last_used_at : Option ℕ

pub record SessionSettings : Type 0 where
  pub session_ttl_seconds : ℕ
  pub session_idle_ttl_seconds : ℕ
  pub session_touch_interval_seconds : ℕ

-- `MutationAuthenticationError`, and the error of `_unauthenticated`.
pub data AuthError : Type 0 where
  unauthenticated : AuthError

abbrev pub accept : (ℕ → ℕ → Bool) → ℕ → Option User → Option User
accept verify_password password none = none
accept verify_password password (some user) =
    if user.is_disabled
    then none
    else if not (verify_password user.password_hash password)
    then none
    else some user

unfoldable pub authenticate_user : (ℕ → ℕ → Bool) → List User → ℕ → ℕ → Option User
authenticate_user verify_password users username password =
    accept verify_password password (find (λ user. user.username == username) users)

abbrev pub find_session : ℕ → List AuthSession → Option AuthSession
find_session token_hash sessions = find (λ s. s.token_hash == token_hash) sessions

-- `revoked_at = now` on a row that is not revoked; the hashes of the rows differ.
abbrev pub revoke_row : ℕ → AuthSession → AuthSession
revoke_row now s = record s { revoked_at = some (or_else s.revoked_at now) }

abbrev pub revoke : ℕ → ℕ → List AuthSession → List AuthSession
revoke token_hash now [] = []
revoke token_hash now (s ∷ ss) =
    let rest = revoke token_hash now ss in
    if s.token_hash == token_hash then revoke_row now s ∷ ss else s ∷ rest

abbrev pub revoke_presented : Option ℕ → ℕ → List AuthSession → List AuthSession
revoke_presented none now sessions = sessions
revoke_presented (some token_hash) now sessions = revoke token_hash now sessions

abbrev pub new_session : SessionSettings → ℕ → ℕ → ℕ → User → AuthSession
new_session settings id token_hash now user = record {
  id = id;
  user_id = user.id;
  token_hash = token_hash;
  expires_at = now + settings.session_ttl_seconds * second;
  revoked_at = none;
  created_at = now;
  last_used_at = some now;
}

-- The hashes are those of the presented token and of the new one; `id` is the new row's.
unfoldable pub create_auth_session :
    SessionSettings → ℕ → ℕ → Option ℕ → ℕ → User → List AuthSession → List AuthSession
create_auth_session settings id token_hash presented now user sessions =
    revoke_presented presented now sessions ++ new_session settings id token_hash now user ∷ []

abbrev pub revoke_found : ℕ → ℕ → Option AuthSession → List AuthSession → Bool × List AuthSession
revoke_found token_hash now none sessions = (false, sessions)
revoke_found token_hash now (some s) sessions =
    if is_some s.revoked_at then (false, sessions) else (true, revoke token_hash now sessions)

unfoldable pub revoke_session_token : ℕ → ℕ → List AuthSession → Bool × List AuthSession
revoke_session_token token_hash now sessions =
    revoke_found token_hash now (find_session token_hash sessions) sessions

-- `last_used_at or created_at`
abbrev pub last_use : AuthSession → ℕ
last_use s = or_else s.last_used_at s.created_at

abbrev pub idle : SessionSettings → ℕ → AuthSession → Bool
idle settings now s = leb (last_use s + settings.session_idle_ttl_seconds * second) now

abbrev pub session_over : SessionSettings → ℕ → AuthSession → Bool
session_over settings now s = is_some s.revoked_at || leb s.expires_at now || idle settings now s

abbrev pub find_user : ℕ → List User → Option User
find_user id users = find (λ user. user.id == id) users

abbrev pub enabled : Option User → Result AuthError User
enabled none = err unauthenticated
enabled (some user) = if user.is_disabled then err unauthenticated else ok user

-- The write of `last_used_at` on the row of a token.
abbrev pub touch : ℕ → ℕ → List AuthSession → List AuthSession
touch token_hash now [] = []
touch token_hash now (s ∷ ss) =
    let rest = touch token_hash now ss in
    if s.token_hash == token_hash then record s { last_used_at = some now } ∷ ss else s ∷ rest

abbrev pub touch_due : SessionSettings → ℕ → ℕ → AuthSession → List AuthSession → List AuthSession
touch_due settings token_hash now s sessions =
    if leb (last_use s + settings.session_touch_interval_seconds * second) now
    then touch token_hash now sessions
    else sessions

abbrev pub current :
    SessionSettings
    → ℕ
    → ℕ
    → List User
    → List AuthSession
    → Option AuthSession
    → Result AuthError (User × List AuthSession)
current settings token_hash now users sessions none = err unauthenticated
current settings token_hash now users sessions (some s) =
    if session_over settings now s
    then err unauthenticated
    else elim (enabled (find_user s.user_id users)) [
      | err e ↦ err e
      | ok user ↦ ok (user, touch_due settings token_hash now s sessions)
    ]

unfoldable pub require_current_session :
    SessionSettings
    → ℕ
    → ℕ
    → List User
    → List AuthSession
    → Result AuthError (User × List AuthSession)
require_current_session settings token_hash now users sessions =
    current settings token_hash now users sessions (find_session token_hash sessions)

abbrev revalidate_row : SessionSettings → ℕ → User → Option AuthSession → Result AuthError User
revalidate_row settings now owner none = err unauthenticated
revalidate_row settings now owner (some s) =
    if session_over settings now s then err unauthenticated else ok owner

abbrev revalidate :
    SessionSettings → ℕ → ℕ → List AuthSession → Result AuthError User → Result AuthError User
revalidate settings session_id now sessions (err e) = err e
revalidate settings session_id now sessions (ok owner) =
    revalidate_row settings now owner
      (find (λ s. (s.id == session_id) && (s.user_id == owner.id)) sessions)

unfoldable pub revalidate_mutation_actor :
    SessionSettings → ℕ → ℕ → ℕ → List User → List AuthSession → Result AuthError User
revalidate_mutation_actor settings owner_id session_id now users sessions =
    revalidate settings session_id now sessions (enabled (find_user owner_id users))
