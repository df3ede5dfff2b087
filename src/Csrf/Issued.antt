-- ===== src/Csrf/Issued.antt =====
-- A token that was issued is accepted for its binding and inside its window, and only a signed token is.
use ce_local_studio.Base.{
  ℕ, ◌+◌, ◌≡◌, refl, ap, ◌∙◌, false, not, ◌||◌, Option, some, List, [], ◌∷◌, ◌++◌, map, ltb, ◌==◌,
  if◌then◌else◌, same_text, same_text_refl, All, arith, ok, err,
}
use ce_local_studio.Csrf.Base64.{encode, letter, IsByte, decode-encode, encode-groups, groups}
use ce_local_studio.Csrf.Token.{
  invalid_token, expired_token, Payload, CsrfSettings, csrf_token_version, signing_key, split_dot,
  is_empty, check_payload, sign, issue_csrf_token, check_parts, check_split, verify_csrf_token,
}

letter-no_dot : (n : ℕ) → (letter n == 46) ≡ false
unfolding letter
letter-no_dot n = ground arith

split_dot-letters :
    (ns back : List ℕ) → split_dot (map letter ns ++ 46 ∷ back) ≡ some (map letter ns, back)
unfolding split_dot
split_dot-letters [] back = refl
split_dot-letters (n ∷ ns) back = rw (letter-no_dot n, split_dot-letters ns back)

split_dot-encode :
    (bytes back : List ℕ) → split_dot (encode bytes ++ 46 ∷ back) ≡ some (encode bytes, back)
split_dot-encode bytes back = rw (encode-groups bytes) (split_dot-letters (groups bytes) back)

module _ (hmac_sha256 : List ℕ → List ℕ → List ℕ) (dumps : Payload → List ℕ)
    (loads : List ℕ → Option Payload) where
  issued-verified :
      (settings : CsrfSettings) (key nonce binding other : List ℕ) (issued now : ℕ)
      → ((payload : Payload) → All IsByte (dumps payload))
      → ((payload : Payload) → loads (dumps payload) ≡ some payload)
      → signing_key settings ≡ ok key
      → let payload : Payload = record {
        version = csrf_token_version;
        issued_at = issued;
        nonce = nonce;
        binding = binding;
      } in
        check_parts hmac_sha256 dumps loads settings other now
          (encode (dumps payload))
          (sign hmac_sha256 dumps loads key (encode (dumps payload)))
        ≡ check_payload settings.session_ttl_seconds other now payload
  unfolding check_parts
  issued-verified settings key nonce binding other issued now bytes loaded k =
      let payload : Payload = record {
        version = csrf_token_version;
        issued_at = issued;
        nonce = nonce;
        binding = binding;
      } in
      rw (
        k,
        same_text_refl (sign hmac_sha256 dumps loads key (encode (dumps payload))),
        decode-encode (dumps payload) (bytes payload),
        loaded payload,
      )

  -- A token that was issued for a binding is accepted for a binding exactly where it is the same one,
  -- it was issued at most 30 seconds ahead of the verifier's clock and no longer ago than the
  -- session's time to live: otherwise it is invalid or expired. The key is there, the nonce is not
  -- empty, and reading JSON gives back what was written, in bytes.
  pub verify_csrf_token-issued :
      (settings : CsrfSettings) (key nonce binding other : List ℕ) (issued now : ℕ)
      → ((payload : Payload) → All IsByte (dumps payload))
      → ((payload : Payload) → loads (dumps payload) ≡ some payload)
      → signing_key settings ≡ ok key
      → is_empty nonce ≡ false
      → (token : List ℕ) × (issue_csrf_token hmac_sha256 dumps loads settings nonce binding issued
          ≡ ok token)
        × (verify_csrf_token hmac_sha256 dumps loads settings token other now ≡ (
            if not (same_text binding other)
            then err invalid_token
            else if ltb (now + 30) issued || ltb (issued + settings.session_ttl_seconds) now
            then err expired_token
            else ok tt))
  unfolding issue_csrf_token verify_csrf_token check_split check_payload
  verify_csrf_token-issued settings key nonce binding other issued now bytes loaded k n =
      let payload : Payload = record {
        version = csrf_token_version;
        issued_at = issued;
        nonce = nonce;
        binding = binding;
      } in
      let encoded = encode (dumps payload) in
      let signature = sign hmac_sha256 dumps loads key encoded in
      (
        encoded ++ 46 ∷ signature,
        rw k,
        ap (check_split hmac_sha256 dumps loads settings other now)
              (split_dot-encode (dumps payload) signature)
            ∙ issued-verified settings key nonce binding other issued now bytes loaded k
            ∙ rw n,
      )
