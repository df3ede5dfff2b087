-- ===== src/Csrf/Signed.antt =====
-- What a token that `verify_csrf_token` accepts is.
use ce_local_studio.Base.{
  ℕ, ◌+◌, ◌≤◌, ◌≡◌, ◌==◌, ◌&&◌, refl, ap, ◌∙◌, Bool, true, false, not, Option, none, some, List,
  if◌then◌else◌, same_text, same_text_eq, arith, Result, ok, err, >>=-eq-ok,
}
use ce_local_studio.Csrf.Base64.{encode, decode}
use ce_local_studio.Csrf.Token.{
  CsrfTokenError, Payload, CsrfSettings, signing_key, split_dot, sign, check_parts, check_split,
  check_payload, csrf_token_version, read_payload, check_read, verify_csrf_token,
}

module _ (hmac_sha256 : List ℕ → List ℕ → List ℕ) (dumps : Payload → List ℕ)
    (loads : List ℕ → Option Payload) where
  -- A token of two parts. The second is the signature of the first, and the first is the text of a
  -- payload for the binding, issued at most `ttl` ago and not more than 30 seconds ahead.
  pub record IsSigned (settings : CsrfSettings) (token binding : List ℕ) (now : ℕ) : Type 0 where
    pub key : List ℕ
    pub encoded : List ℕ
    pub bytes : List ℕ
    pub payload : Payload
    pub keyed : signing_key settings ≡ ok key
    pub parts : split_dot token ≡ some (encoded, encode (hmac_sha256 key encoded))
    pub decoded : decode encoded ≡ some bytes
    pub loaded : loads bytes ≡ some payload
    pub bound : payload.binding ≡ binding
    pub current : payload.version ≡ csrf_token_version
    pub not_ahead : payload.issued_at ≤ now + 30
    pub not_over : now ≤ payload.issued_at + settings.session_ttl_seconds

  check_payload-ok :
      (ttl : ℕ) (binding : List ℕ) (now : ℕ) (payload : Payload)
      → check_payload ttl binding now payload ≡ ok tt
      → (payload.binding ≡ binding)
        × (payload.version ≡ csrf_token_version)
        × (payload.issued_at ≤ now + 30)
        × (now ≤ payload.issued_at + ttl)
  unfolding check_payload
  check_payload-ok ttl binding now payload h =
      let first = (payload.version == csrf_token_version) && same_text payload.binding binding in
      let kept : first ≡ true = ground (arith, h) in
      let same : same_text payload.binding binding ≡ true = ground (arith, kept) in
      (
        same_text_eq payload.binding binding same,
        ground (arith, kept),
        ground (arith, h),
        ground (arith, h),
      )

  past_check :
      (b : Bool) (error : CsrfTokenError) (rest : Result CsrfTokenError (Unit {0}))
      → (if not b then err error else rest) ≡ ok tt
      → (b ≡ true) × (rest ≡ ok tt)
  past_check true error rest h = (refl, h)
  past_check false error rest h = cc

  check_read-ok :
      (ttl : ℕ) (binding : List ℕ) (now : ℕ) (o : Option Payload)
      → check_read hmac_sha256 dumps loads ttl binding now o ≡ ok tt
      → (payload : Payload) × (o ≡ some payload) × (check_payload ttl binding now payload ≡ ok tt)
  check_read-ok ttl binding now none h = cc
  check_read-ok ttl binding now (some payload) h = (payload, refl, h)

  read_payload-some :
      (o : Option (List ℕ)) (payload : Payload)
      → read_payload hmac_sha256 dumps loads o ≡ some payload
      → (bytes : List ℕ) × (o ≡ some bytes) × (loads bytes ≡ some payload)
  read_payload-some none payload h = cc
  read_payload-some (some bytes) payload h = (bytes, refl, h)

  check_parts-IsSigned :
      (settings : CsrfSettings) (token binding : List ℕ) (now : ℕ) (encoded signature : List ℕ)
      → split_dot token ≡ some (encoded, signature)
      → check_parts hmac_sha256 dumps loads settings binding now encoded signature ≡ ok tt
      → IsSigned settings token binding now
  unfolding check_parts
  check_parts-IsSigned settings token binding now encoded signature q h =
      let (key, k, g) = >>=-eq-ok (signing_key settings) _ h in
      let (same, e) = past_check _ _ _ g in
      let signed = same_text_eq signature (sign hmac_sha256 dumps loads key encoded) same in
      let (payload, read, checks) =
        check_read-ok settings.session_ttl_seconds binding now
          (read_payload hmac_sha256 dumps loads (decode encoded)) e in
      let (bytes, text, meant) = read_payload-some (decode encoded) payload read in
      let (bound, current, not_ahead, not_over) =
        check_payload-ok settings.session_ttl_seconds binding now payload checks in
      record {
        key = key;
        encoded = encoded;
        bytes = bytes;
        payload = payload;
        keyed = k;
        parts = q ∙ ap (λ x. some (encoded, x)) signed;
        decoded = text;
        loaded = meant;
        bound = bound;
        current = current;
        not_ahead = not_ahead;
        not_over = not_over;
      }

  check_split-IsSigned :
      (settings : CsrfSettings) (token binding : List ℕ) (now : ℕ)
      (parts : Option (List ℕ × List ℕ))
      → split_dot token ≡ parts
      → check_split hmac_sha256 dumps loads settings binding now parts ≡ ok tt
      → IsSigned settings token binding now
  unfolding check_split
  check_split-IsSigned settings token binding now none q h = cc
  check_split-IsSigned settings token binding now (some (encoded, signature)) q h =
      check_parts-IsSigned settings token binding now encoded signature q h

  pub verify_csrf_token-IsSigned :
      (settings : CsrfSettings) (token binding : List ℕ) (now : ℕ)
      → verify_csrf_token hmac_sha256 dumps loads settings token binding now ≡ ok tt
      → IsSigned settings token binding now
  unfolding verify_csrf_token
  verify_csrf_token-IsSigned settings token binding now h =
      check_split-IsSigned settings token binding now (split_dot token) refl h
