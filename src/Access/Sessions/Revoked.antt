-- ===== src/Access/Sessions/Revoked.antt =====
-- A session that is revoked stays revoked.
use ce_local_studio.Base.{
  ℕ, ◌≡◌, ap, ◌∙◌, Bool, true, false, Option, none, some, List, [], ◌∷◌, ◌++◌, arith, inl, inr,
  Result, ok, err, is_some, Bool-cases, Option-cases, leb, ◌+◌, ◌*◌,
}
use ce_local_studio.Access.Sessions.{
  User, AuthSession, SessionSettings, AuthError, unauthenticated, find_session, revoke,
  create_auth_session, revoke_session_token, touch, touch_due, current, require_current_session,
  session_over, revoke_found, enabled, find_user, last_use,
}

-- What the services do to the sessions: a login, a logout, and a request that uses a session.
pub data Operation : Type 0 where
  opens :
      (settings : SessionSettings) (id token_hash : ℕ) (presented : Option ℕ) (now : ℕ)
      (user : User)
      → Operation
  revokes : (token_hash now : ℕ) → Operation
  uses : (settings : SessionSettings) (token_hash now : ℕ) (users : List User) → Operation

-- The sessions after a call that may raise.
abbrev pub after_use :
    List AuthSession → Result AuthError (User × List AuthSession) → List AuthSession
after_use sessions (err e) = sessions
after_use sessions (ok (user, sessions')) = sessions'

abbrev pub operate : Operation → List AuthSession → List AuthSession
operate (opens settings id token_hash presented now user) sessions =
    create_auth_session settings id token_hash presented now user sessions
operate (revokes token_hash now) sessions = (revoke_session_token token_hash now sessions).1
operate (uses settings token_hash now users) sessions =
    after_use sessions (require_current_session settings token_hash now users sessions)

abbrev pub operate_all : List Operation → List AuthSession → List AuthSession
operate_all [] sessions = sessions
operate_all (op ∷ ops) sessions = operate_all ops (operate op sessions)

abbrev row_revoked : Option AuthSession → Bool
row_revoked none = false
row_revoked (some s) = is_some s.revoked_at

-- The session of a token is there and revoked.
abbrev pub IsRevoked : ℕ → List AuthSession → Type 0
IsRevoked h sessions = row_revoked (find_session h sessions) ≡ true

revoke-IsRevoked :
    (h k now : ℕ) (ss : List AuthSession) → IsRevoked h ss → IsRevoked h (revoke k now ss)
revoke-IsRevoked h k now [] v = v
revoke-IsRevoked h k now (s ∷ ss) v = ground (arith, revoke-IsRevoked h k now ss)

touch-IsRevoked :
    (h k now : ℕ) (ss : List AuthSession) → IsRevoked h ss → IsRevoked h (touch k now ss)
touch-IsRevoked h k now [] v = v
touch-IsRevoked h k now (s ∷ ss) v = ground (arith, touch-IsRevoked h k now ss)

append-IsRevoked :
    (h : ℕ) (ss : List AuthSession) (s : AuthSession) → IsRevoked h ss → IsRevoked h (ss ++ s ∷ [])
append-IsRevoked h [] s v = cc
append-IsRevoked h (r ∷ ss) s v = ground (arith, append-IsRevoked h ss s)

operate-IsRevoked :
    (h : ℕ) (op : Operation) (ss : List AuthSession) → IsRevoked h ss → IsRevoked h (operate op ss)
unfolding create_auth_session revoke_session_token require_current_session
operate-IsRevoked h (opens settings id k none now user) ss v = append-IsRevoked h ss _ v
operate-IsRevoked h (opens settings id k (some p) now user) ss v =
    append-IsRevoked h (revoke p now ss) _ (revoke-IsRevoked h p now ss v)
operate-IsRevoked h (revokes k now) ss v = go (find_session k ss)
  where
    go : (o : Option AuthSession) → IsRevoked h (revoke_found k now o ss).1
    go none = v
    go (some s) = elim (Bool-cases (is_some s.revoked_at)) [
      | inl y ↦ rw y v
      | inr n ↦ rw n (revoke-IsRevoked h k now ss v)
    ]
operate-IsRevoked h (uses settings k now users) ss v = go (find_session k ss)
  where
    touched : (s : AuthSession) → IsRevoked h (touch_due settings k now s ss)
    touched s =
        elim (Bool-cases
          (leb (last_use s + settings.session_touch_interval_seconds * 1000000) now)) [
            | inl y ↦ rw y (touch-IsRevoked h k now ss v)
            | inr n ↦ rw n v
          ]

    found :
        (s : AuthSession) (r : Result AuthError User)
        → IsRevoked h (
            after_use ss
              (elim r [ err e ↦ err e | ok user ↦ ok (user, touch_due settings k now s ss) ]))
    found s (err e) = v
    found s (ok user) = touched s

    go : (o : Option AuthSession) → IsRevoked h (after_use ss (current settings k now users ss o))
    go none = v
    go (some s) = elim (Bool-cases (session_over settings now s)) [
      | inl y ↦ rw y v
      | inr n ↦ rw n (found s (enabled (find_user s.user_id users)))
    ]

operate_all-IsRevoked :
    (h : ℕ) (ops : List Operation) (ss : List AuthSession)
    → IsRevoked h ss
    → IsRevoked h (operate_all ops ss)
operate_all-IsRevoked h [] ss v = v
operate_all-IsRevoked h (op ∷ ops) ss v =
    operate_all-IsRevoked h ops (operate op ss) (operate-IsRevoked h op ss v)

revoke-own :
    (h now : ℕ) (ss : List AuthSession)
    → is_some (find_session h ss) ≡ true
    → IsRevoked h (revoke h now ss)
revoke-own h now [] k = cc
revoke-own h now (s ∷ ss) k = ground (arith, revoke-own h now ss)

revoke_session_token-IsRevoked :
    (h now : ℕ) (ss : List AuthSession)
    → is_some (find_session h ss) ≡ true
    → IsRevoked h (revoke_session_token h now ss).1
unfolding revoke_session_token
revoke_session_token-IsRevoked h now ss k = elim (Option-cases (find_session h ss)) [
  | inl e ↦ ground (arith, e, k)
  | inr (s, e) ↦ rw e (elim (Bool-cases (is_some s.revoked_at)) [
    | inl y ↦ rw y (ap row_revoked e ∙ y)
    | inr n ↦ rw n (revoke-own h now ss k)
  ])
]

revoked-refused :
    (h : ℕ) (settings : SessionSettings) (at : ℕ) (users : List User) (ss : List AuthSession)
    → IsRevoked h ss
    → require_current_session settings h at users ss ≡ err unauthenticated
unfolding require_current_session
revoked-refused h settings at users ss v = ground (arith, v)

-- After the logout of a token that has a session, no request with that token is accepted, whatever
-- logins, logouts and requests come in between, at any instant and under any settings.
pub logout_final :
    (h now : ℕ) (ss : List AuthSession) (ops : List Operation) (settings : SessionSettings) (at : ℕ)
    (users : List User)
    → is_some (find_session h ss) ≡ true
    → require_current_session settings h at users
        (operate_all ops (revoke_session_token h now ss).1)
      ≡ err unauthenticated
logout_final h now ss ops settings at users k =
    revoked-refused h settings at users (operate_all ops (revoke_session_token h now ss).1) (
      operate_all-IsRevoked h ops (revoke_session_token h now ss).1
        (revoke_session_token-IsRevoked h now ss k))
