-- ===== src/Csrf/Request.antt =====
-- `enforce_request_security`. Headers and cookies are texts; `in_network` stands for the address
-- library's test and `hash_session_token` for the digest of a session's token.
use ce_local_studio.Base.{
  ℕ, Bool, true, false, not, ◌&&◌, ◌||◌, Option, none, some, List, [], ◌∷◌, length, leb, any,
  or_else, ◌==◌, if◌then◌else◌, same_text, same_text_option, Result, ok, err, ◌>>=◌,
}
use ce_local_studio.Csrf.Token.{CsrfTokenError, Payload, CsrfSettings, verify_csrf_token, is_empty}

pub data RequestSecurityError : Type 0 where
  forbidden csrf_invalid : RequestSecurityError

pub record RequestSecurityPolicy : Type 0 where
  pub enabled : Bool
  pub public_origin : List ℕ
  pub public_host : List ℕ
  pub public_proto : List ℕ
  pub internal_hosts : List (List ℕ)
  pub trusted_peers : List (List ℕ)

pub data Method : Type 0 where
  get head options post put patch delete : Method

pub record Request : Type 0 where
  pub path : List ℕ
  pub method : Method
  pub host : Option (List ℕ)
  pub client_host : Option (List ℕ)
  pub public_host_header : Option (List ℕ)
  pub public_proto_header : Option (List ℕ)
  pub origin : Option (List ℕ)
  pub client_bucket : Option (List ℕ)
  pub csrf_cookie : Option (List ℕ)
  pub csrf_header : Option (List ℕ)
  pub session_cookie : Option (List ℕ)

abbrev pub is_unsafe : Method → Bool
is_unsafe post = true
is_unsafe put = true
is_unsafe patch = true
is_unsafe delete = true
is_unsafe _ = false

-- `/api/v1`
abbrev pub api_prefix : List ℕ
api_prefix = 47 ∷ 97 ∷ 112 ∷ 105 ∷ 47 ∷ 118 ∷ 49 ∷ []

-- `/api/v1/auth/login`
abbrev pub login_path : List ℕ
login_path =
    47 ∷ 97 ∷ 112 ∷ 105 ∷ 47 ∷ 118 ∷ 49 ∷ 47 ∷ 97 ∷ 117 ∷ 116 ∷ 104 ∷ 47 ∷ 108 ∷ 111 ∷ 103 ∷ 105
    ∷ 110 ∷ []

-- `preauth`
abbrev pub csrf_preauth_binding : List ℕ
csrf_preauth_binding = 112 ∷ 114 ∷ 101 ∷ 97 ∷ 117 ∷ 116 ∷ 104 ∷ []

-- `test-bypass`
abbrev pub test_bypass : List ℕ
test_bypass = 116 ∷ 101 ∷ 115 ∷ 116 ∷ 45 ∷ 98 ∷ 121 ∷ 112 ∷ 97 ∷ 115 ∷ 115 ∷ []

abbrev pub starts_with : List ℕ → List ℕ → Bool
starts_with text [] = true
starts_with [] (_ ∷ _) = false
starts_with (c ∷ cs) (p ∷ ps) = (c == p) && starts_with cs ps

-- `host.split(":", 1)[0]`
abbrev pub before_colon : List ℕ → List ℕ
before_colon [] = []
before_colon (c ∷ cs) = if c == 58 then [] else c ∷ before_colon cs

-- `not value` for a header or a cookie
abbrev pub is_missing : Option (List ℕ) → Bool
is_missing none = true
is_missing (some text) = is_empty text

abbrev pub refuse_if {ℓ} :
    {A : Type ℓ}
    → Bool
    → RequestSecurityError
    → Result RequestSecurityError A
    → Result RequestSecurityError A
refuse_if true error rest = err error
refuse_if false error rest = rest

module _ (in_network : List ℕ → List ℕ → Bool) where
  unfoldable pub trusted_peer : Option (List ℕ) → RequestSecurityPolicy → Bool
  trusted_peer none policy = false
  trusted_peer (some host) policy =
      not (is_empty host)
      && any (λ peer. same_text host peer || in_network host peer) policy.trusted_peers

  -- The checks of where a request comes from.
  unfoldable pub check_ingress :
      Request → RequestSecurityPolicy → Result RequestSecurityError (Unit {0})
  unfolding trusted_peer
  check_ingress request policy =
      refuse_if
        (not (any (same_text (before_colon (or_else request.host []))) policy.internal_hosts))
        forbidden
        (refuse_if (not (trusted_peer request.client_host policy)) forbidden (
          refuse_if
            (not (same_text_option request.public_host_header (some policy.public_host))
              || not (same_text_option request.public_proto_header (some policy.public_proto)))
            forbidden (ok tt)))

module _ (hmac_sha256 : List ℕ → List ℕ → List ℕ) (dumps : Payload → List ℕ)
    (loads : List ℕ → Option Payload) (hash_session_token : List ℕ → List ℕ) where
  -- The binding that the token must have.
  abbrev pub binding_of : Request → Result RequestSecurityError (List ℕ)
  binding_of request =
      if same_text request.path login_path
      then ok csrf_preauth_binding
      else refuse_if (is_missing request.session_cookie) csrf_invalid
          (ok (hash_session_token (or_else request.session_cookie [])))

  abbrev pub verified :
      Result CsrfTokenError (Unit {0}) → List ℕ → Result RequestSecurityError (Option (List ℕ))
  verified (err raised) bucket = err csrf_invalid
  verified (ok done) bucket = ok (some bucket)

  -- The checks of a request that changes state, which end with its client's bucket.
  unfoldable pub check_unsafe :
      CsrfSettings
      → RequestSecurityPolicy
      → ℕ
      → Request
      → Result RequestSecurityError (Option (List ℕ))
  unfolding verify_csrf_token
  check_unsafe settings policy now request =
      let bucket = or_else request.client_bucket [] in
      refuse_if (not (same_text_option request.origin (some policy.public_origin))) csrf_invalid (
        refuse_if (not (leb 1 (length bucket) && leb (length bucket) 128)) forbidden (
          refuse_if
            (is_missing request.csrf_cookie
              || is_missing request.csrf_header
              || not (same_text_option request.csrf_cookie request.csrf_header))
            csrf_invalid
            (binding_of request >>= λ binding.
              verified
                (verify_csrf_token hmac_sha256 dumps loads settings (or_else request.csrf_cookie [])
                  binding now)
                bucket)))

  unfoldable pub enforce_request_security :
      (List ℕ → List ℕ → Bool)
      → CsrfSettings
      → RequestSecurityPolicy
      → ℕ
      → Request
      → Result RequestSecurityError (Option (List ℕ))
  unfolding check_ingress check_unsafe
  enforce_request_security in_network settings policy now request =
      if not (starts_with request.path api_prefix)
      then ok none
      else if not policy.enabled
      then ok (some test_bypass)
      else check_ingress in_network request policy >>= λ trusted.
          if is_unsafe request.method then check_unsafe settings policy now request else ok none
