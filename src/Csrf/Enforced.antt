-- ===== src/Csrf/Enforced.antt =====
-- What a request that changes state has passed when it reaches its route.
use ce_local_studio.Base.{
  ℕ, ◌≡◌, ◌⊎◌, refl, sym, ◌∙◌, Bool, true, false, not, Option, none, some, List, [], if◌then◌else◌,
  same_text, same_text_eq, or_else, arith, inl, inr, Bool-cases, Result, ok, err, >>=-eq-ok,
}
use ce_local_studio.Csrf.Token.{CsrfTokenError, Payload, CsrfSettings, is_empty, verify_csrf_token}
use ce_local_studio.Csrf.Request.{
  RequestSecurityPolicy, Request, is_unsafe, starts_with, api_prefix, is_missing, check_ingress,
  binding_of, verified, check_unsafe, enforce_request_security, forbidden, csrf_invalid, login_path,
  csrf_preauth_binding,
}
use ce_local_studio.Csrf.Ingress.{
  refuse_if-ok, same_text_option_eq, IsTrusted, check_ingress-IsTrusted,
}
use ce_local_studio.Csrf.Signed.{IsSigned, verify_csrf_token-IsSigned}

past_guard {ℓ} :
    {A : Type ℓ} (b : Bool) (x y : A) {z : A} → b ≡ true → (if not b then x else y) ≡ z → y ≡ z
past_guard true x y e h = h
past_guard false x y e h = cc

taken {ℓ} : {A : Type ℓ} (b : Bool) (x y : A) {z : A} → b ≡ true → (if b then x else y) ≡ z → x ≡ z
taken true x y e h = h
taken false x y e h = cc

there : (o : Option (List ℕ)) → is_missing o ≡ false → o ≡ some (or_else o [])
there none h = cc
there (some text) h = refl

module _ (hmac_sha256 : List ℕ → List ℕ → List ℕ) (dumps : Payload → List ℕ)
    (loads : List ℕ → Option Payload) (hash_session_token : List ℕ → List ℕ) where
  verified-ok :
      (r : Result CsrfTokenError (Unit {0})) (bucket : List ℕ) {out : Option (List ℕ)}
      → verified hmac_sha256 dumps loads hash_session_token r bucket ≡ ok out
      → r ≡ ok tt
  verified-ok (err e) bucket h = cc
  verified-ok (ok _) bucket h = refl

  -- A request has shown one token, in its cookie and in its header, from the public origin.
  abbrev Shows : CsrfSettings → RequestSecurityPolicy → ℕ → Request → Type 0
  Shows settings policy now request =
      (token : List ℕ) × (binding : List ℕ) × (request.origin ≡ some policy.public_origin)
      × (request.csrf_cookie ≡ some token)
      × (request.csrf_header ≡ some token)
      × (binding_of hmac_sha256 dumps loads hash_session_token request ≡ ok binding)
      × (verify_csrf_token hmac_sha256 dumps loads settings token binding now ≡ ok tt)

  check_unsafe-Shows :
      (settings : CsrfSettings) (policy : RequestSecurityPolicy) (now : ℕ) (request : Request)
      {out : Option (List ℕ)}
      → check_unsafe hmac_sha256 dumps loads hash_session_token settings policy now request ≡ ok out
      → Shows settings policy now request
  unfolding check_unsafe
  check_unsafe-Shows settings policy now request h =
      let (origin, h1) = refuse_if-ok _ csrf_invalid _ h in
      let (bucket, h2) = refuse_if-ok _ forbidden _ h1 in
      let (cookies, h3) = refuse_if-ok _ csrf_invalid _ h2 in
      let (binding, b, v) =
        >>=-eq-ok (binding_of hmac_sha256 dumps loads hash_session_token request) _ h3 in
      let token = or_else request.csrf_cookie [] in
      let cookie = there request.csrf_cookie (ground (arith, cookies)) in
      let same =
        same_text_option_eq request.csrf_cookie request.csrf_header (ground (arith, cookies)) in
      (
        token,
        binding,
        same_text_option_eq request.origin (some policy.public_origin) origin,
        cookie,
        sym same ∙ cookie,
        b,
        verified-ok _ (or_else request.client_bucket []) v,
      )

  -- The binding is the one before a session at the login, and elsewhere the digest of the session's
  -- cookie, which is there.
  abbrev pub IsBinding : Request → List ℕ → Type 0
  IsBinding request binding =
      ((request.path ≡ login_path) × (binding ≡ csrf_preauth_binding))
      ⊎ ((same_text request.path login_path ≡ false)
          × (cookie : List ℕ) × (request.session_cookie ≡ some cookie)
          × (is_empty cookie ≡ false)
          × (binding ≡ hash_session_token cookie))

  binding_of-IsBinding :
      (request : Request) (binding : List ℕ)
      → binding_of hmac_sha256 dumps loads hash_session_token request ≡ ok binding
      → IsBinding request binding
  binding_of-IsBinding request binding h = elim (Bool-cases (same_text request.path login_path)) [
    | inl y ↦ let e = rw y at h in inl (same_text_eq request.path login_path y, cc)
    | inr n ↦
        let (present, e) = refuse_if-ok _ csrf_invalid _ (rw n at h) in
        let cookie = or_else request.session_cookie [] in
        let given = there request.session_cookie present in
        inr (n, cookie, given, rw given at present, cc)
  ]

  -- Under an enabled policy, a request of the API that changes state gets past the checks only if it
  -- came to an internal host from a trusted peer with the policy's public host and scheme, has the
  -- public origin, and shows, in its cookie and in its header, one token. The token is a payload of
  -- the current version with its signature by the server's key, for the digest of the session's
  -- cookie or, at the login, for the binding before a session, and it is in its time.
  pub enforce_request_security-Shows :
      (in_network : List ℕ → List ℕ → Bool) (settings : CsrfSettings)
      (policy : RequestSecurityPolicy) (now : ℕ) (request : Request) (out : Option (List ℕ))
      → policy.enabled ≡ true
      → starts_with request.path api_prefix ≡ true
      → is_unsafe request.method ≡ true
      → enforce_request_security hmac_sha256 dumps loads hash_session_token in_network settings
          policy now request
        ≡ ok out
      → IsTrusted in_network request policy
        × (request.origin ≡ some policy.public_origin)
        × (token : List ℕ) × (binding : List ℕ) × (request.csrf_cookie ≡ some token)
        × (request.csrf_header ≡ some token)
        × IsBinding request binding
        × IsSigned hmac_sha256 dumps loads settings token binding now
  unfolding enforce_request_security
  enforce_request_security-Shows in_network settings policy now request out e p u h =
      let guarded = past_guard policy.enabled _ _ e (past_guard _ _ _ p h) in
      let (_, i, g) = >>=-eq-ok (check_ingress in_network request policy) _ guarded in
      let (token, binding, origin, cookie, header, bound, verified) =
        check_unsafe-Shows settings policy now request (taken _ _ _ u g) in
      (
        check_ingress-IsTrusted in_network request policy i,
        origin,
        token,
        binding,
        cookie,
        header,
        binding_of-IsBinding request binding bound,
        verify_csrf_token-IsSigned hmac_sha256 dumps loads settings token binding now verified,
      )
