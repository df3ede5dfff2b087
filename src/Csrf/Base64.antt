-- ===== src/Csrf/Base64.antt =====
-- `_encode` and `_decode`: base 64 in the alphabet for URLs, without the padding.
use mathlib.Core.Path.{ap₂, ◌∙◌}
use ce_local_studio.Base.{
  ℕ, ◌+◌, ◌-◌, ◌*◌, ◌/◌, ◌%◌, ◌<◌, ◌≡◌, refl, Option, none, some, List, [], ◌∷◌, ltb, ◌==◌,
  if◌then◌else◌, All, arith, ap, map,
}

-- The character of six bits: `A-Z`, `a-z`, `0-9`, `-`, `_`.
unfoldable pub letter : ℕ → ℕ
letter n =
    if ltb n 26
    then n + 65
    else if ltb n 52
    then n + 71
    else if ltb n 62
    then n - 4
    else if n == 62
    then 45
    else 95

unfoldable pub bits : ℕ → Option ℕ
bits c =
    if c == 45
    then some 62
    else if ltb c 48
    then none
    else if ltb c 58
    then some (c + 4)
    else if ltb c 65
    then none
    else if ltb c 91
    then some (c - 65)
    else if c == 95
    then some 63
    else if ltb c 97
    then none
    else if ltb c 123
    then some (c - 71)
    else none

unfoldable pub encode : List ℕ → List ℕ
encode [] = []
encode (a ∷ []) = letter (a / 4) ∷ letter (a % 4 * 16) ∷ []
encode (a ∷ b ∷ []) = letter (a / 4) ∷ letter (a % 4 * 16 + b / 16) ∷ letter (b % 16 * 4) ∷ []
encode (a ∷ b ∷ c ∷ rest) =
    letter (a / 4)
    ∷ letter (a % 4 * 16 + b / 16)
    ∷ letter (b % 16 * 4 + c / 64)
    ∷ letter (c % 64)
    ∷ encode rest

abbrev pub bits_of : List ℕ → Option (List ℕ)
bits_of [] = some []
bits_of (c ∷ cs) = elim (bits c) [
  | none ↦ none
  | some n ↦ elim (bits_of cs) [ none ↦ none | some ns ↦ some (n ∷ ns) ]
]

-- The bytes of groups of six bits; a group of one is no byte.
abbrev pub bytes_of : List ℕ → Option (List ℕ)
bytes_of [] = some []
bytes_of (p ∷ []) = none
bytes_of (p ∷ q ∷ []) = some ((p * 4 + q / 16) ∷ [])
bytes_of (p ∷ q ∷ r ∷ []) = some ((p * 4 + q / 16) ∷ (q % 16 * 16 + r / 4) ∷ [])
bytes_of (p ∷ q ∷ r ∷ s ∷ rest) = elim (bytes_of rest) [
  | none ↦ none
  | some more ↦ some ((p * 4 + q / 16) ∷ (q % 16 * 16 + r / 4) ∷ (r % 4 * 64 + s) ∷ more)
]

abbrev pub and_bytes : Option (List ℕ) → Option (List ℕ)
and_bytes none = none
and_bytes (some groups) = bytes_of groups

unfoldable pub decode : List ℕ → Option (List ℕ)
decode text = and_bytes (bits_of text)

abbrev pub IsByte : ℕ → Type 0
IsByte n = n < 256

bits-letter : (n : ℕ) → n < 64 → bits (letter n) ≡ some n
unfolding letter bits
bits-letter n h = ground (arith, h)

-- The groups of six bits of the bytes.
pub groups : List ℕ → List ℕ
groups [] = []
groups (a ∷ []) = (a / 4) ∷ (a % 4 * 16) ∷ []
groups (a ∷ b ∷ []) = (a / 4) ∷ (a % 4 * 16 + b / 16) ∷ (b % 16 * 4) ∷ []
groups (a ∷ b ∷ c ∷ rest) =
    (a / 4) ∷ (a % 4 * 16 + b / 16) ∷ (b % 16 * 4 + c / 64) ∷ (c % 64) ∷ groups rest

bits_of-letters : (ns : List ℕ) → All (λ n. n < 64) ns → bits_of (map letter ns) ≡ some ns
bits_of-letters [] h = refl
bits_of-letters (n ∷ ns) h = rw (bits_of, bits-letter n h.0, bits_of-letters ns h.1)

pub encode-groups : (bytes : List ℕ) → encode bytes ≡ map letter (groups bytes)
unfolding encode groups
encode-groups [] = refl
encode-groups (a ∷ []) = refl
encode-groups (a ∷ b ∷ []) = refl
encode-groups (a ∷ b ∷ c ∷ rest) = rw (encode-groups rest)

groups-six : (bytes : List ℕ) → All IsByte bytes → All (λ n. n < 64) (groups bytes)
unfolding groups
groups-six [] h = tt
groups-six (a ∷ []) h = (omega (arith, h.0), (omega arith, tt))
groups-six (a ∷ b ∷ []) h = (omega (arith, h.0), (omega (arith, h.1.0), (omega arith, tt)))
groups-six (a ∷ b ∷ c ∷ rest) h = (
  omega (arith, h.0),
  (omega (arith, h.1.0), (omega (arith, h.1.1.0), (omega arith, groups-six rest h.1.1.1))),
)

bits_of-encode : (bytes : List ℕ) → All IsByte bytes → bits_of (encode bytes) ≡ some (groups bytes)
bits_of-encode bytes h =
    ap bits_of (encode-groups bytes) ∙ bits_of-letters (groups bytes) (groups-six bytes h)

first : (a k : ℕ) → k < 16 → a / 4 * 4 + (a % 4 * 16 + k) / 16 ≡ a
first a k h = omega (arith, h)

second : (a b k : ℕ) → b < 256 → k < 4 → (a % 4 * 16 + b / 16) % 16 * 16 + (b % 16 * 4 + k) / 4 ≡ b
second a b k l h = omega (arith, l, h)

third : (b c : ℕ) → c < 256 → (b % 16 * 4 + c / 64) % 4 * 64 + c % 64 ≡ c
third b c h = omega (arith, h)

bytes_of-groups : (bytes : List ℕ) → All IsByte bytes → bytes_of (groups bytes) ≡ some bytes
unfolding groups
bytes_of-groups [] h = refl
bytes_of-groups (a ∷ []) h = ap (λ x. some (x ∷ [])) (omega arith)
bytes_of-groups (a ∷ b ∷ []) h =
    ap₂ (λ x y. some (x ∷ y ∷ [])) (first a (b / 16) (omega (arith, h.1.0))) (omega (arith, h.1.0))
bytes_of-groups (a ∷ b ∷ c ∷ rest) h = rw (bytes_of-groups rest h.1.1.1) (
    ap₂ (λ x y. some (x ∷ y ∷ ((b % 16 * 4 + c / 64) % 4 * 64 + c % 64) ∷ rest))
      (first a (b / 16) (omega (arith, h.1.0))) (second a b (c / 64) h.1.0 (omega (arith, h.1.1.0)))
    ∙ ap (λ z. some (a ∷ b ∷ z ∷ rest)) (third b c h.1.1.0))

-- Decoding what was encoded gives the bytes back, for every list of bytes.
pub decode-encode : (bytes : List ℕ) → All IsByte bytes → decode (encode bytes) ≡ some bytes
unfolding decode
decode-encode bytes h = rw (bits_of-encode bytes h) (bytes_of-groups bytes h)
