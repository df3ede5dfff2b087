-- ===== src/Csrf/Tests.antt =====
-- The theorems on tokens and requests at a concrete signature and a concrete writing of payloads.
use ce_local_studio.Base.{
  ℕ, zero, suc, ◌+◌, ◌≡◌, refl, ap, Bool, true, false, Option, none, some, List, [], ◌∷◌, ◌++◌, All,
  arith, ok, ◌∙◌,
}
use ce_local_studio.Csrf.Base64.{encode, decode, IsByte, decode-encode, letter, bits}
use ce_local_studio.Csrf.Token.{
  Payload, CsrfSettings, signing_key, split_dot, issue_csrf_token, verify_csrf_token,
  test_csrf_signing_key, check_parts, check_split, check_payload,
}
use ce_local_studio.Csrf.Request.{
  RequestSecurityPolicy, Method, Request, enforce_request_security, check_ingress, trusted_peer,
  check_unsafe,
}
use ce_local_studio.Csrf.Issued.{verify_csrf_token-issued}
use ce_local_studio.Csrf.Ingress.{IsTrusted}
use ce_local_studio.Csrf.Signed.{IsSigned}
use ce_local_studio.Csrf.Enforced.{enforce_request_security-Shows, IsBinding}

encode_light_work : encode (108 ∷ 105 ∷ 103 ∷ 104 ∷ []) ≡ 98 ∷ 71 ∷ 108 ∷ 110 ∷ 97 ∷ 65 ∷ []
unfolding encode letter
encode_light_work = refl

decode_light_work : decode (98 ∷ 71 ∷ 108 ∷ 110 ∷ 97 ∷ 65 ∷ []) ≡ some (108 ∷ 105 ∷ 103 ∷ 104 ∷ [])
unfolding decode bits
decode_light_work = refl

decode-encode_example : decode (encode (255 ∷ 0 ∷ [])) ≡ some (255 ∷ 0 ∷ [])
decode-encode_example = decode-encode (255 ∷ 0 ∷ []) (omega arith, (omega arith, tt))

-- A number in bytes: as many zeros, and a one.
abbrev put : ℕ → List ℕ → List ℕ
put zero rest = 1 ∷ rest
put (suc n) rest = 0 ∷ put n rest

-- Its characters, and a two.
abbrev put_text : List ℕ → List ℕ → List ℕ
put_text [] rest = 2 ∷ rest
put_text (c ∷ cs) rest = put c (put_text cs rest)

abbrev write_payload : Payload → List ℕ
write_payload p = put p.version (put p.issued_at (put_text p.nonce (put_text p.binding [])))

abbrev one_more : Option (ℕ × List ℕ) → Option (ℕ × List ℕ)
one_more none = none
one_more (some (n, rest)) = some (suc n, rest)

abbrev get : List ℕ → Option (ℕ × List ℕ)
get [] = none
get (zero ∷ rest) = one_more (get rest)
get (suc _ ∷ rest) = some (0, rest)

abbrev and_letter : ℕ → Option (List ℕ × List ℕ) → Option (List ℕ × List ℕ)
and_letter n none = none
and_letter n (some (cs, rest)) = some (n ∷ cs, rest)

abbrev get_text : ℕ → List ℕ → Option (List ℕ × List ℕ)
get_text n [] = none
get_text n (zero ∷ rest) = get_text (suc n) rest
get_text n (suc zero ∷ rest) = and_letter n (get_text 0 rest)
get_text n (suc (suc _) ∷ rest) = some ([], rest)

abbrev with_binding : ℕ → ℕ → List ℕ → Option (List ℕ × List ℕ) → Option Payload
with_binding version issued_at nonce none = none
with_binding version issued_at nonce (some (binding, rest)) =
    some (record { version = version; issued_at = issued_at; nonce = nonce; binding = binding })

abbrev with_nonce : ℕ → ℕ → Option (List ℕ × List ℕ) → Option Payload
with_nonce version issued_at none = none
with_nonce version issued_at (some (nonce, rest)) =
    with_binding version issued_at nonce (get_text 0 rest)

abbrev with_time : ℕ → Option (ℕ × List ℕ) → Option Payload
with_time version none = none
with_time version (some (issued_at, rest)) = with_nonce version issued_at (get_text 0 rest)

abbrev with_version : Option (ℕ × List ℕ) → Option Payload
with_version none = none
with_version (some (version, rest)) = with_time version (get rest)

abbrev read_written : List ℕ → Option Payload
read_written bytes = with_version (get bytes)

get-put : (n : ℕ) (rest : List ℕ) → get (put n rest) ≡ some (n, rest)
get-put zero rest = refl
get-put (suc n) rest = ap one_more (get-put n rest)

get_text-put :
    (n c : ℕ) (rest : List ℕ) → get_text n (put c rest) ≡ and_letter (n + c) (get_text 0 rest)
get_text-put n zero rest = ap (λ k. and_letter k (get_text 0 rest)) (omega arith)
get_text-put n (suc c) rest =
    get_text-put (suc n) c rest ∙ ap (λ k. and_letter k (get_text 0 rest)) (omega arith)

get_text-put_text : (cs rest : List ℕ) → get_text 0 (put_text cs rest) ≡ some (cs, rest)
get_text-put_text [] rest = refl
get_text-put_text (c ∷ cs) rest =
    get_text-put 0 c (put_text cs rest)
    ∙ ap (λ k. and_letter k (get_text 0 (put_text cs rest))) (omega arith)
    ∙ ap (and_letter c) (get_text-put_text cs rest)

read-write : (p : Payload) → read_written (write_payload p) ≡ some p
read-write p =
    ap with_version (get-put p.version _)
    ∙ ap (with_time p.version) (get-put p.issued_at _)
    ∙ ap (with_nonce p.version p.issued_at) (get_text-put_text p.nonce _)
    ∙ ap (with_binding p.version p.issued_at p.nonce) (get_text-put_text p.binding [])

put-bytes : (n : ℕ) (rest : List ℕ) → All IsByte rest → All IsByte (put n rest)
put-bytes zero rest h = (omega arith, h)
put-bytes (suc n) rest h = (omega arith, put-bytes n rest h)

put_text-bytes : (cs rest : List ℕ) → All IsByte rest → All IsByte (put_text cs rest)
put_text-bytes [] rest h = (omega arith, h)
put_text-bytes (c ∷ cs) rest h = put-bytes c _ (put_text-bytes cs rest h)

written-bytes : (p : Payload) → All IsByte (write_payload p)
written-bytes p =
    put-bytes p.version _
      (put-bytes p.issued_at _ (put_text-bytes p.nonce _ (put_text-bytes p.binding [] tt)))

-- A signature that is the first byte of the key, which is enough to run the checks.
abbrev first_byte : List ℕ → List ℕ → List ℕ
first_byte [] text = []
first_byte (k ∷ _) text = k ∷ []

abbrev settings : CsrfSettings
settings = record { csrf_signing_key = none; testing = true; session_ttl_seconds = 100 }

key_there : signing_key settings ≡ ok test_csrf_signing_key
unfolding signing_key
key_there = refl

verify_csrf_token-issued_example :
    (token : List ℕ) × (issue_csrf_token first_byte write_payload read_written settings
        (7 ∷ [])
        (5 ∷ [])
        40
      ≡ ok token)
    × (verify_csrf_token first_byte write_payload read_written settings token (5 ∷ []) 60 ≡ ok tt)
verify_csrf_token-issued_example =
    verify_csrf_token-issued first_byte write_payload read_written settings test_csrf_signing_key
      (7 ∷ []) (5 ∷ []) (5 ∷ []) 40 60 written-bytes read-write key_there refl

abbrev policy : RequestSecurityPolicy
policy = record {
  enabled = true;
  public_origin = 1 ∷ [];
  public_host = 2 ∷ [];
  public_proto = 3 ∷ [];
  internal_hosts = (4 ∷ []) ∷ [];
  trusted_peers = (5 ∷ []) ∷ [];
}

abbrev token : List ℕ
token =
    encode (write_payload (record { version = 1; issued_at = 3; nonce = 7 ∷ []; binding = 6 ∷ [] }))
    ++ 46 ∷ encode (first_byte test_csrf_signing_key [])

-- `/api/v1/chat`
abbrev post_chat : Request
post_chat = record {
  path = 47 ∷ 97 ∷ 112 ∷ 105 ∷ 47 ∷ 118 ∷ 49 ∷ 47 ∷ 99 ∷ 104 ∷ 97 ∷ 116 ∷ [];
  method = Method.post;
  host = some (4 ∷ 58 ∷ 8 ∷ []);
  client_host = some (5 ∷ []);
  public_host_header = some (2 ∷ []);
  public_proto_header = some (3 ∷ []);
  origin = some (1 ∷ []);
  client_bucket = some (9 ∷ []);
  csrf_cookie = some token;
  csrf_header = some token;
  session_cookie = some (6 ∷ []);
}

abbrev by_no_network : List ℕ → List ℕ → Bool
by_no_network host peer = false

abbrev same : List ℕ → List ℕ
same text = text

post_chat_passes :
    enforce_request_security first_byte write_payload read_written same by_no_network settings
      policy 60 post_chat
    ≡ ok (some (9 ∷ []))
unfolding enforce_request_security check_ingress trusted_peer check_unsafe verify_csrf_token
    check_split check_parts check_payload signing_key split_dot encode decode letter bits
post_chat_passes = refl

enforce_request_security-Shows_example :
    IsTrusted by_no_network post_chat policy
    × (post_chat.origin ≡ some policy.public_origin)
    × (token : List ℕ) × (binding : List ℕ) × (post_chat.csrf_cookie ≡ some token)
    × (post_chat.csrf_header ≡ some token)
    × IsBinding first_byte write_payload read_written same post_chat binding
    × IsSigned first_byte write_payload read_written settings token binding 60
enforce_request_security-Shows_example =
    enforce_request_security-Shows first_byte write_payload read_written same by_no_network settings
      policy 60 post_chat (some (9 ∷ [])) refl refl refl post_chat_passes
