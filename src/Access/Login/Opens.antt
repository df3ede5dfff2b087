-- ===== src/Access/Login/Opens.antt =====
-- A login that succeeds opens a session.
use ce_local_studio.Base.{
  ℕ, ◌+◌, ◌*◌, ◌<◌, ◌≡◌, refl, sym, ap, ◌∙◌, Bool, true, false, Option, none, some, List, [], ◌∷◌,
  ◌++◌, arith, inl, inr, ◌==◌, Bool-cases, Result, ok, err, Option-cases, find,
}
use ce_local_studio.Access.Throttle.{second, RateLimited, login_rate_limited, assert_login_allowed}
use ce_local_studio.Access.Sessions.{
  User, AuthSession, SessionSettings, authenticate_user, accept, find_session, find_user,
  new_session, create_auth_session, require_current_session, revoke, touch_due, session_over,
}
use ce_local_studio.Access.Login.{
  LoginRequest, Accounts, LoginSettings, signed_in, login, signed, unless_limited,
}

find-append-new :
    (h : ℕ) (ss : List AuthSession) (s : AuthSession)
    → find_session h ss ≡ none
    → s.token_hash ≡ h
    → find_session h (ss ++ s ∷ []) ≡ some s
find-append-new h [] s n e = ground arith
find-append-new h (r ∷ ss) s n e = ground (arith, find-append-new h ss s)

find-revoke-none :
    (h k now : ℕ) (ss : List AuthSession)
    → find_session h ss ≡ none
    → find_session h (revoke k now ss) ≡ none
find-revoke-none h k now [] n = refl
find-revoke-none h k now (r ∷ ss) n = ground (arith, find-revoke-none h k now ss)

-- The new row is found by its token, where the token is fresh.
create_auth_session-finds :
    (settings : SessionSettings) (id h now : ℕ) (presented : Option ℕ) (user : User)
    (ss : List AuthSession)
    → find_session h ss ≡ none
    → find_session h (create_auth_session settings id h presented now user ss)
      ≡ some (new_session settings id h now user)
unfolding create_auth_session
create_auth_session-finds settings id h now none user ss n = find-append-new h ss _ n refl
create_auth_session-finds settings id h now (some p) user ss n =
    find-append-new h (revoke p now ss) _ (find-revoke-none h p now ss n) refl

-- Authentication finds the row of the name, which is enabled and whose password matches.
abbrev pub Verified : (ℕ → ℕ → Bool) → LoginRequest → Accounts → User → Type 0
Verified verify_password q a user =
    (find (λ row. row.username == q.username) a.users ≡ some user)
    × (user.is_disabled ≡ false)
    × (verify_password user.password_hash q.password ≡ true)

accept-verified :
    (verify_password : ℕ → ℕ → Bool) (password : ℕ) (o : Option User) {user : User}
    → accept verify_password password o ≡ some user
    → (o ≡ some user)
      × (user.is_disabled ≡ false)
      × (verify_password user.password_hash password ≡ true)
accept-verified verify_password password none h = cc
accept-verified verify_password password (some u) {user} h = elim (Bool-cases u.is_disabled) [
  | inl y ↦ cc
  | inr n ↦ elim (Bool-cases (verify_password u.password_hash password)) [
    | inl good ↦
        let e : u ≡ user = ground (arith, n, good, h) in
        (
          ap some e,
          ap (λ (x : User). x.is_disabled) (sym e) ∙ n,
          ap (λ (x : User). verify_password x.password_hash password) (sym e) ∙ good,
        )
    | inr bad ↦ cc
  ]
]

module _ (digest : ℕ → ℕ → ℕ) (verify_password : ℕ → ℕ → Bool) (settings : LoginSettings) where
  -- The two outcomes of a login that reaches the password.
  unless_limited-signed :
      (q : LoginRequest) (a a' : Accounts) (r : Result RateLimited (Unit {0})) (user : User) (h : ℕ)
      → unless_limited digest verify_password settings q a r ≡ (signed_in user h, a')
      → (r ≡ ok tt)
        × (authenticate_user verify_password a.users q.username q.password ≡ some user)
        × (h ≡ q.token_hash)
        × (a' ≡ (signed digest verify_password settings q a (some user)).1)
  unless_limited-signed q a a' (err (login_rate_limited n)) user h e = cc (ap (λ x. x.0) e)
  unless_limited-signed q a a' (ok _) user h e =
      elim (Option-cases (authenticate_user verify_password a.users q.username q.password)) [
        | inl n ↦ cc (n)
        | inr (u, y) ↦
            let e' = sym (ap (signed digest verify_password settings q a) y) ∙ e in
            let same : u ≡ user = cc (ap (λ x. x.0) e') in
            let token : q.token_hash ≡ h = cc (ap (λ x. x.0) e') in
            (
              refl,
              y ∙ ap some same,
              sym token,
              sym (ap (λ x. x.1) e')
                  ∙ ap (λ u. (signed digest verify_password settings q a (some u)).1) same,
            )
      ]

-- A login succeeds only for a client that is not blocked, with the name of an enabled user and a
-- password that matches. The token it hands out, where it is fresh and the user's id is the user's
-- own, is accepted as that user's until the session ends or goes idle.
pub login_opens_session :
    (digest : ℕ → ℕ → ℕ) (verify_password : ℕ → ℕ → Bool) (settings : LoginSettings)
    (q : LoginRequest) (a a' : Accounts) (user : User) (h at : ℕ)
    → login digest verify_password settings q a ≡ (signed_in user h, a')
    → find_session q.token_hash a.sessions ≡ none
    → find_user user.id a.users ≡ some user
    → at < q.created_at + settings.session.session_ttl_seconds * second
    → at < q.created_at + settings.session.session_idle_ttl_seconds * second
    → (assert_login_allowed a.buckets q.client_bucket_hash q.username_hash q.checked_at ≡ ok tt)
      × Verified verify_password q a user
      × ((sessions : List AuthSession) × (require_current_session settings.session h at a'.users
              a'.sessions
            ≡ ok (user, sessions)))
unfolding login authenticate_user require_current_session
login_opens_session digest verify_password settings q a a' user h at e fresh own ttl idle =
    let (allowed, found, token, left) =
      unless_limited-signed digest verify_password settings q a a' _ user h e in
    let verified = accept-verified verify_password q.password _ found in
    let opened =
      create_auth_session-finds settings.session q.session_id q.token_hash q.created_at q.presented
        user a.sessions fresh in
    let s = new_session settings.session q.session_id q.token_hash q.created_at user in
    let lasts : session_over settings.session at s ≡ false = ground (arith, ttl, idle) in
    (
      allowed,
      verified,
      (
        touch_due settings.session h at s a'.sessions,
        rw (token, left, opened, own, lasts, verified.1) refl,
      ),
    )
