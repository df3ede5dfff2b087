-- ===== src/Base/Lists.antt =====
-- Lists measured by native numbers, the tests that run over them, and predicates by recursion.
use Prim.Native.Nat.{ℕ, zero, suc, ◌+◌}
use mathlib.Core.Path.{◌≡◌, refl}
use mathlib.Core.Bool.{Bool, true, false, ◌&&◌, ◌||◌}
use mathlib.Core.Option.{Option, none, some}
use mathlib.Core.List.{List, [], ◌∷◌, ◌++◌}
use native.Mathlib.Omega.{arith}
use ce_local_studio.Base.Tests.{if◌then◌else◌, ◌==◌}

module _ {ℓ} {A : Type ℓ} where
  abbrev pub length : List A → ℕ
  length [] = 0
  length (_ ∷ xs) = suc (length xs)

  abbrev pub drop : ℕ → List A → List A
  drop zero xs = xs
  drop (suc n) [] = []
  drop (suc n) (_ ∷ xs) = drop n xs

  abbrev pub take : ℕ → List A → List A
  take zero xs = []
  take (suc n) [] = []
  take (suc n) (x ∷ xs) = x ∷ take n xs

  abbrev pub any : (A → Bool) → List A → Bool
  any p [] = false
  any p (x ∷ xs) = p x || any p xs

  -- The first row of a query, in the order of the list.
  abbrev pub find : (A → Bool) → List A → Option A
  find p [] = none
  find p (x ∷ xs) = if p x then some x else find p xs

  abbrev pub select : (A → Bool) → List A → List A
  select p [] = []
  select p (x ∷ xs) = let rest = select p xs in if p x then x ∷ rest else rest

  pub length-append : (xs ys : List A) → length (xs ++ ys) ≡ length xs + length ys
  length-append [] ys = omega arith
  length-append (x ∷ xs) ys = omega (arith, length-append xs ys)

-- `P` holds of every element.
abbrev pub All {ℓ κ} : {A : Type ℓ} → (A → Type κ) → List A → Type κ
All Q [] = Unit
All Q (a ∷ rest) = Q a × All Q rest

pub All-append {ℓ κ} :
    {A : Type ℓ} (Q : A → Type κ) (front back : List A)
    → All Q front
    → All Q back
    → All Q (front ++ back)
All-append Q [] back h k = k
All-append Q (a ∷ front) back h k = (h.0, All-append Q front back h.1 k)

-- Equality of texts, given as their code points.
abbrev pub same_text : List ℕ → List ℕ → Bool
same_text [] [] = true
same_text (a ∷ as') (b ∷ bs) = (a == b) && same_text as' bs
same_text _ _ = false

pub same_text_refl : (a : List ℕ) → same_text a a ≡ true
same_text_refl [] = refl
same_text_refl (x ∷ xs) = ground (arith, same_text_refl xs)

pub same_text_eq : (a b : List ℕ) → same_text a b ≡ true → a ≡ b
same_text_eq [] [] h = refl
same_text_eq [] (y ∷ ys) h = cc
same_text_eq (x ∷ xs) [] h = cc
same_text_eq (x ∷ xs) (y ∷ ys) h = ground (arith, same_text_eq xs ys)

abbrev pub same_text_option : Option (List ℕ) → Option (List ℕ) → Bool
same_text_option none none = true
same_text_option (some a) (some b) = same_text a b
same_text_option _ _ = false

pub same_text_option_refl : (a : Option (List ℕ)) → same_text_option a a ≡ true
same_text_option_refl none = refl
same_text_option_refl (some a) = same_text_refl a
