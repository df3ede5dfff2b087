-- ===== src/Access/Login/Blocked.antt =====
-- A block of the login throttle that ends within 24 hours of the bucket's last update, against the
-- requests that come before it ends.
use ce_local_studio.Base.{
  ℕ, ◌+◌, ◌*◌, ◌≤◌, ◌<◌, ◌≡◌, refl, Bool, false, ◌&&◌, Option, none, some, List, [], ◌∷◌, arith,
  inl, inr, ◌==◌, Bool-cases, All, Result, ok, err,
}
use ce_local_studio.Access.Throttle.{
  second, RateLimited, login_rate_limited, Bucket, find_bucket, is_stale, cleanup_age,
  assert_login_allowed, retry_after,
}
use ce_local_studio.Access.Throttle.Cleanup.{Unique, Injective, Apart}
use ce_local_studio.Access.Throttle.Blocking.{
  Unique-record_login_failure, Unique-clear_login_failures, record_login_failure-Apart,
  clear_login_failures-Apart,
}
use ce_local_studio.Access.Sessions.{User, authenticate_user}
use ce_local_studio.Access.Login.{
  LoginRequest, Accounts, LoginSettings, rate_limited, login, signed, unless_limited, run_logins,
}

-- A request that is checked while the block lasts, and written by its end.
abbrev pub During : ℕ → LoginRequest → Type 0
During blocked_until q = (q.checked_at < blocked_until) × (q.written_at ≤ blocked_until)

-- Waiting for `retry_after` seconds outlasts the block.
retry_after-enough : (b now : ℕ) → now < b → b ≤ now + retry_after b now * second
unfolding retry_after
retry_after-enough b now h = omega arith

not_stale :
    (row : Bucket) (b now : ℕ)
    → b ≤ row.updated_at + cleanup_age
    → now ≤ b
    → is_stale now row ≡ false
not_stale row b now kept h = ground arith

module _ (digest : ℕ → ℕ → ℕ) (verify_password : ℕ → ℕ → Bool) (settings : LoginSettings) where
  login-Unique :
      (q : LoginRequest) (a : Accounts)
      → Unique a.buckets
      → Unique (login digest verify_password settings q a).1.buckets
  unfolding login
  login-Unique q a h =
      go (assert_login_allowed a.buckets q.client_bucket_hash q.username_hash q.checked_at)
    where
      tried : (o : Option User) → Unique (signed digest verify_password settings q a o).1.buckets
      tried none = Unique-record_login_failure digest settings.throttle _ _ _ _ h
      tried (some user) = Unique-clear_login_failures digest _ _ _ _ h

      go :
          (r : Result RateLimited (Unit {0}))
          → Unique (unless_limited digest verify_password settings q a r).1.buckets
      go (err (login_rate_limited n)) = h
      go (ok _) = tried (authenticate_user verify_password a.users q.username q.password)

  module _ (c u : ℕ) {row : Bucket} {b : ℕ} (blocked : row.blocked_until ≡ some b) where
    -- The blocked client's own request is refused, and nothing is written.
    login-refused :
        (q : LoginRequest) (a : Accounts)
        → find_bucket c u a.buckets ≡ some row
        → q.client_bucket_hash ≡ c
        → q.username_hash ≡ u
        → q.checked_at < b
        → login digest verify_password settings q a ≡ (rate_limited (retry_after b q.checked_at), a)
    unfolding login assert_login_allowed retry_after
    login-refused q a f x y h = rw (x, y, f, blocked) (ground (arith, h))

    module _ (injective : Injective digest) (kept : b ≤ row.updated_at + cleanup_age) where
      login-Apart :
          (q : LoginRequest) (a : Accounts)
          → Unique a.buckets
          → find_bucket c u a.buckets ≡ some row
          → Apart c u q.client_bucket_hash q.username_hash
          → During b q
          → find_bucket c u (login digest verify_password settings q a).1.buckets ≡ some row
      unfolding login
      login-Apart q a h f n d =
          go (assert_login_allowed a.buckets q.client_bucket_hash q.username_hash q.checked_at)
        where
          tried :
              (o : Option User)
              → find_bucket c u (signed digest verify_password settings q a o).1.buckets ≡ some row
          tried none =
              record_login_failure-Apart digest injective settings.throttle c u _ _ q.written_at
                a.buckets h n f (not_stale row b q.written_at kept d.1)
          tried (some user) =
              clear_login_failures-Apart digest injective c u _ _ q.written_at a.buckets h n f
                (not_stale row b q.written_at kept d.1)

          go :
              (r : Result RateLimited (Unit {0}))
              → find_bucket c u (unless_limited digest verify_password settings q a r).1.buckets
                ≡ some row
          go (err (login_rate_limited n)) = f
          go (ok _) = tried (authenticate_user verify_password a.users q.username q.password)

      login-keeps :
          (q : LoginRequest) (a : Accounts)
          → Unique a.buckets
          → find_bucket c u a.buckets ≡ some row
          → During b q
          → find_bucket c u (login digest verify_password settings q a).1.buckets ≡ some row
      login-keeps q a h f d =
          elim (Bool-cases ((c == q.client_bucket_hash) && (u == q.username_hash))) [
            | inl same ↦
                rw (login-refused q a f (ground (arith, same)) (ground (arith, same)) d.0) f
            | inr n ↦ login-Apart q a h f n d
          ]

      run_logins-keeps :
          (qs : List LoginRequest) (a : Accounts)
          → Unique a.buckets
          → find_bucket c u a.buckets ≡ some row
          → All (During b) qs
          → find_bucket c u (run_logins digest verify_password settings qs a).buckets ≡ some row
      run_logins-keeps [] a h f d = f
      run_logins-keeps (q ∷ qs) a h f d =
          run_logins-keeps qs (login digest verify_password settings q a).1 (login-Unique q a h)
            (login-keeps q a h f d.0) d.1

-- Where a client's bucket is blocked until `b`, at most 24 hours after the bucket's last update, and
-- whatever login requests of any client come before `b`, a request of that client that is checked
-- before `b` is refused and writes nothing; the time it is told to wait outlasts the block.
pub login_block_holds :
    (digest : ℕ → ℕ → ℕ) (verify_password : ℕ → ℕ → Bool) (settings : LoginSettings)
    → Injective digest
    → (row : Bucket) (b : ℕ) → row.blocked_until ≡ some b
    → b ≤ row.updated_at + cleanup_age
    → (a : Accounts) (earlier : List LoginRequest) (q : LoginRequest) → Unique a.buckets
    → find_bucket q.client_bucket_hash q.username_hash a.buckets ≡ some row
    → All (During b) earlier
    → q.checked_at < b
    → let a' = run_logins digest verify_password settings earlier a in
      (login digest verify_password settings q a' ≡ (rate_limited (retry_after b q.checked_at), a'))
      × (b ≤ q.checked_at + retry_after b q.checked_at * second)
login_block_holds digest verify_password settings injective row b blocked kept a earlier q h f d l =
    let f' =
      run_logins-keeps digest verify_password settings q.client_bucket_hash q.username_hash
        {row = row} blocked injective kept earlier a h f d in
    (
      login-refused digest verify_password settings q.client_bucket_hash q.username_hash {row = row}
          blocked q (run_logins digest verify_password settings earlier a) f' refl refl l,
      retry_after-enough b q.checked_at l,
    )
