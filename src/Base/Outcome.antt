-- ===== src/Base/Outcome.antt =====
-- Results of calls that may raise.
use mathlib.Core.Path.{◌≡◌, refl}
use mathlib.Core.Logic.{◌⊎◌, inl, inr}

pub data Result {ℓ κ} (E : Type ℓ) (A : Type κ) : Type (ℓ ⊔ κ) where
  err : E → Result E A
  ok : A → Result E A

infixl 5 ◌>>=◌
abbrev pub ◌>>=◌ {ℓ κ μ} :
    {E : Type ℓ} {A : Type κ} {B : Type μ} → Result E A → (A → Result E B) → Result E B
err raised >>= rest = err raised
ok value >>= rest = rest value

infixl 5 ◌>>◌
abbrev pub ◌>>◌ {ℓ κ} : {E : Type ℓ} {B : Type κ} → Result E (Unit {0}) → Result E B → Result E B
first >> second = first >>= λ done. second

-- Inversion of a successful bind, for proofs where the parts stay shut.
pub >>=-eq-ok {ℓ κ μ} :
    {E : Type ℓ} {A : Type κ} {B : Type μ} (first : Result E A) (rest : A → Result E B) {b : B}
    → first >>= rest ≡ ok b
    → (value : A) × (first ≡ ok value) × (rest value ≡ ok b)
>>=-eq-ok (err raised) rest returns = cc
>>=-eq-ok (ok value) rest returns = (value, refl, returns)

pub Result-cases {ℓ κ} :
    {E : Type ℓ} {A : Type κ} (result : Result E A)
    → ((raised : E) × (result ≡ err raised)) ⊎ ((value : A) × (result ≡ ok value))
Result-cases (err raised) = inl (raised, refl)
Result-cases (ok value) = inr (value, refl)
