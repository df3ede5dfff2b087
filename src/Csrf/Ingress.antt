-- ===== src/Csrf/Ingress.antt =====
-- Where a request that passes the ingress checks comes from.
use mathlib.Core.List.{Memᴰ}
use ce_local_studio.Base.{
  ℕ, ◌≡◌, ◌∷◌, ◌⊎◌, ◌||◌, any, refl, ap, Bool, true, false, not, Option, none, some, List, [],
  same_text, same_text_eq, same_text_option, or_else, arith, inl, inr, Bool-cases, Result, ok,
}
use ce_local_studio.Csrf.Token.{is_empty}
use ce_local_studio.Csrf.Request.{
  RequestSecurityError, RequestSecurityPolicy, Request, refuse_if, check_ingress, forbidden,
  before_colon, trusted_peer,
}

pub refuse_if-ok {ℓ} :
    {A : Type ℓ} (b : Bool) (error : RequestSecurityError) (rest : Result RequestSecurityError A)
    {a : A}
    → refuse_if b error rest ≡ ok a
    → (b ≡ false) × (rest ≡ ok a)
refuse_if-ok true error rest h = cc
refuse_if-ok false error rest h = (refl, h)

pub same_text_option_eq : (a b : Option (List ℕ)) → not (same_text_option a b) ≡ false → a ≡ b
same_text_option_eq none none h = refl
same_text_option_eq none (some b) h = cc
same_text_option_eq (some a) none h = cc
same_text_option_eq (some a) (some b) h = ap some (same_text_eq a b (ground (arith, h)))

any-Mem {ℓ} :
    {A : Type ℓ} (p : A → Bool) (xs : List A) → any p xs ≡ true → (x : A) × Memᴰ x xs × (p x ≡ true)
any-Mem p [] h = cc
any-Mem p (x ∷ xs) h = elim (Bool-cases (p x)) [
  | inl y ↦ (x, Memᴰ.head refl, y)
  | inr n ↦ let (z, m, e) = any-Mem p xs (rw n at h) in (z, Memᴰ.tail m, e)
]

-- The host without its port is one of the internal hosts, the peer that connected is a trusted one or
-- in a trusted network, and the public host and scheme are the policy's.
pub record IsTrusted (in_network : List ℕ → List ℕ → Bool) (request : Request)
    (policy : RequestSecurityPolicy) : Type 0 where
  pub internal : Memᴰ (before_colon (or_else request.host [])) policy.internal_hosts
  pub client : List ℕ
  pub peer : List ℕ
  pub connected : request.client_host ≡ some client
  pub named : is_empty client ≡ false
  pub listed : Memᴰ peer policy.trusted_peers
  pub trusted : (client ≡ peer) ⊎ (in_network client peer ≡ true)
  pub public_host : request.public_host_header ≡ some policy.public_host
  pub public_proto : request.public_proto_header ≡ some policy.public_proto

module _ (in_network : List ℕ → List ℕ → Bool) where
  either :
      (client peer : List ℕ)
      → (same_text client peer || in_network client peer) ≡ true
      → (client ≡ peer) ⊎ (in_network client peer ≡ true)
  either client peer h = elim (Bool-cases (same_text client peer)) [
    | inl y ↦ inl (same_text_eq client peer y)
    | inr n ↦ inr (rw n at h)
  ]

  trusted_peer-listed :
      (o : Option (List ℕ)) (policy : RequestSecurityPolicy)
      → trusted_peer in_network o policy ≡ true
      → (client : List ℕ) × (peer : List ℕ) × (o ≡ some client)
        × (is_empty client ≡ false)
        × Memᴰ peer policy.trusted_peers
        × ((client ≡ peer) ⊎ (in_network client peer ≡ true))
  unfolding trusted_peer
  trusted_peer-listed none policy h = cc
  trusted_peer-listed (some client) policy h =
      let found =
        any (λ peer. same_text client peer || in_network client peer) policy.trusted_peers in
      let some_peer : found ≡ true = ground (arith, h) in
      let (peer, m, e) =
        any-Mem (λ peer. same_text client peer || in_network client peer) policy.trusted_peers
          some_peer in
      (client, peer, refl, ground (arith, h), m, either client peer e)

  pub check_ingress-IsTrusted :
      (request : Request) (policy : RequestSecurityPolicy)
      → check_ingress in_network request policy ≡ ok tt
      → IsTrusted in_network request policy
  unfolding check_ingress
  check_ingress-IsTrusted request policy h =
      let inside = any (same_text (before_colon (or_else request.host []))) policy.internal_hosts in
      let wrong =
        not (same_text_option request.public_host_header (some policy.public_host))
        || not (same_text_option request.public_proto_header (some policy.public_proto)) in
      let (hosts, h1) = refuse_if-ok (not inside) forbidden _ h in
      let (peers, h2) =
        refuse_if-ok (not (trusted_peer in_network request.client_host policy)) forbidden _ h1 in
      let (headers, _) = refuse_if-ok wrong forbidden (ok tt) h2 in
      let host = before_colon (or_else request.host []) in
      let (found, m, e) = any-Mem (same_text host) policy.internal_hosts (ground (arith, hosts)) in
      let (client, peer, connected, named, listed, trusted) =
        trusted_peer-listed request.client_host policy (ground (arith, peers)) in
      record {
        internal = rw (same_text_eq host found e) m;
        client = client;
        peer = peer;
        connected = connected;
        named = named;
        listed = listed;
        trusted = trusted;
        public_host =
            same_text_option_eq request.public_host_header (some policy.public_host)
              (ground (arith, headers));
        public_proto =
            same_text_option_eq request.public_proto_header (some policy.public_proto)
              (ground (arith, headers));
      }
