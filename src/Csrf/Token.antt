-- ===== src/Csrf/Token.antt =====
-- `issue_csrf_token` and `verify_csrf_token`.
use ce_local_studio.Base.{
  ℕ, ◌+◌, Bool, true, false, not, ◌&&◌, ◌||◌, Option, none, some, List, [], ◌∷◌, ◌++◌, length, ltb,
  ◌==◌, if◌then◌else◌, same_text, Result, ok, err, ◌>>=◌,
}
use ce_local_studio.Csrf.Base64.{encode, decode}

pub data CsrfTokenError : Type 0 where
  key_unavailable invalid_token expired_token : CsrfTokenError

pub record Payload : Type 0 where
  pub version : ℕ
  pub issued_at : ℕ
  pub nonce : List ℕ
  pub binding : List ℕ

pub record CsrfSettings : Type 0 where
  pub csrf_signing_key : Option (List ℕ)
  pub testing : Bool
  pub session_ttl_seconds : ℕ

abbrev pub csrf_token_version : ℕ
csrf_token_version = 1

-- `context-engine-test-csrf-signing-key-not-for-production`
abbrev pub test_csrf_signing_key : List ℕ
test_csrf_signing_key =
    99 ∷ 111 ∷ 110 ∷ 116 ∷ 101 ∷ 120 ∷ 116 ∷ 45 ∷ 101 ∷ 110 ∷ 103 ∷ 105 ∷ 110 ∷ 101 ∷ 45 ∷ 116 ∷ 101
    ∷ 115 ∷ 116 ∷ 45 ∷ 99 ∷ 115 ∷ 114 ∷ 102 ∷ 45 ∷ 115 ∷ 105 ∷ 103 ∷ 110 ∷ 105 ∷ 110 ∷ 103 ∷ 45
    ∷ 107 ∷ 101 ∷ 121 ∷ 45 ∷ 110 ∷ 111 ∷ 116 ∷ 45 ∷ 102 ∷ 111 ∷ 114 ∷ 45 ∷ 112 ∷ 114 ∷ 111 ∷ 100
    ∷ 117 ∷ 99 ∷ 116 ∷ 105 ∷ 111 ∷ 110 ∷ []

abbrev key_value : CsrfSettings → Option (List ℕ) → Option (List ℕ)
key_value settings (some key) = some key
key_value settings none = if settings.testing then some test_csrf_signing_key else none

abbrev long_enough : Option (List ℕ) → Result CsrfTokenError (List ℕ)
long_enough none = err key_unavailable
long_enough (some key) = if ltb (length key) 32 then err key_unavailable else ok key

unfoldable pub signing_key : CsrfSettings → Result CsrfTokenError (List ℕ)
signing_key settings = long_enough (key_value settings settings.csrf_signing_key)

-- `token.split(".", 1)`, with `none` where there is no dot.
unfoldable pub split_dot : List ℕ → Option (List ℕ × List ℕ)
split_dot [] = none
split_dot (c ∷ cs) =
    let rest = split_dot cs in
    if c == 46
    then some ([], cs)
    else elim rest [ none ↦ none | some (front, back) ↦ some (c ∷ front, back) ]

abbrev pub is_empty : List ℕ → Bool
is_empty [] = true
is_empty (_ ∷ _) = false

-- The checks of a payload that was read.
unfoldable pub check_payload : ℕ → List ℕ → ℕ → Payload → Result CsrfTokenError (Unit {0})
check_payload ttl binding now payload =
    if not ((payload.version == csrf_token_version) && same_text payload.binding binding)
    then err invalid_token
    else if is_empty payload.nonce
    then err invalid_token
    else if ltb (now + 30) payload.issued_at || ltb (payload.issued_at + ttl) now
    then err expired_token
    else ok tt

module _ (hmac_sha256 : List ℕ → List ℕ → List ℕ) (dumps : Payload → List ℕ)
    (loads : List ℕ → Option Payload) where
  abbrev pub sign : List ℕ → List ℕ → List ℕ
  sign key encoded = encode (hmac_sha256 key encoded)

  unfoldable pub issue_csrf_token :
      CsrfSettings → List ℕ → List ℕ → ℕ → Result CsrfTokenError (List ℕ)
  issue_csrf_token settings nonce binding now = signing_key settings >>= λ key.
      let encoded = encode (
        dumps (record {
          version = csrf_token_version;
          issued_at = now;
          nonce = nonce;
          binding = binding;
        })) in
      ok (encoded ++ 46 ∷ sign key encoded)

  abbrev pub read_payload : Option (List ℕ) → Option Payload
  read_payload none = none
  read_payload (some bytes) = loads bytes

  abbrev pub check_read : ℕ → List ℕ → ℕ → Option Payload → Result CsrfTokenError (Unit {0})
  check_read ttl binding now none = err invalid_token
  check_read ttl binding now (some payload) = check_payload ttl binding now payload

  -- The checks of a token's two parts.
  unfoldable pub check_parts :
      CsrfSettings → List ℕ → ℕ → List ℕ → List ℕ → Result CsrfTokenError (Unit {0})
  check_parts settings binding now encoded signature = signing_key settings >>= λ key.
      if not (same_text signature (sign key encoded))
      then err invalid_token
      else check_read settings.session_ttl_seconds binding now (read_payload (decode encoded))

  unfoldable pub check_split :
      CsrfSettings → List ℕ → ℕ → Option (List ℕ × List ℕ) → Result CsrfTokenError (Unit {0})
  unfolding check_parts
  check_split settings binding now none = err invalid_token
  check_split settings binding now (some (encoded, signature)) =
      check_parts settings binding now encoded signature

  unfoldable pub verify_csrf_token :
      CsrfSettings → List ℕ → List ℕ → ℕ → Result CsrfTokenError (Unit {0})
  unfolding check_split
  verify_csrf_token settings token binding now = check_split settings binding now (split_dot token)
