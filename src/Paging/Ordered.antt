-- ===== src/Paging/Ordered.antt =====
-- The order of a query, and the part of it after an anchor.
use ce_local_studio.Base.{
  ℕ, ◌≡◌, refl, sym, ap, ◌∙◌, Bool, true, false, some, List, [], ◌∷◌, ◌++◌, select, find, ◌==◌,
  if◌then◌else◌, All, arith, inl, inr, Bool-cases, eqb_refl,
}
use ce_local_studio.Paging.{older_than, insert_row, order_by}

module _ {ℓ} {A : Type ℓ} (created_at : A → ℕ) (id : A → ℕ) where
  abbrev older : A → A → Bool
  older = older_than created_at id

  -- Different rows have different ids.
  abbrev pub DistinctIds : List A → Type 0
  DistinctIds [] = Unit
  DistinctIds (x ∷ xs) = All (λ y. (id y == id x) ≡ false) xs × DistinctIds xs

  -- Every row is older than the ones before it.
  abbrev pub Newest : List A → Type 0
  Newest [] = Unit
  Newest (x ∷ xs) = All (λ y. older x y ≡ true) xs × Newest xs

  pub older_trans : (x y z : A) → older x y ≡ true → older y z ≡ true → older x z ≡ true
  older_trans x y z h k = ground (arith, h, k)

  older-total : (x y : A) → (id x == id y) ≡ false → older y x ≡ false → older x y ≡ true
  older-total x y n h = ground (arith, n, h)

  older_irrefl : (x : A) → older x x ≡ false
  older_irrefl x = ground arith

  older-asym : (x y : A) → older x y ≡ true → older y x ≡ false
  older-asym x y h = ground (arith, h)

  All-insert {κ} :
      (Q : A → Type κ) (x : A) (ys : List A)
      → Q x
      → All Q ys
      → All Q (insert_row created_at id x ys)
  All-insert Q x [] q a = (q, tt)
  All-insert Q x (y ∷ ys) q a = elim (Bool-cases (older y x)) [
    | inl h ↦ rw h (a.0, All-insert Q x ys q a.1)
    | inr h ↦ rw h (q, a)
  ]

  pub All-order_by {κ} :
      (Q : A → Type κ) (xs : List A) → All Q xs → All Q (order_by created_at id xs)
  All-order_by Q [] a = tt
  All-order_by Q (x ∷ xs) a = All-insert Q x _ a.0 (All-order_by Q xs a.1)

  All-older :
      (x y : A) (ys : List A)
      → older x y ≡ true
      → All (λ z. older y z ≡ true) ys
      → All (λ z. older x z ≡ true) ys
  All-older x y [] h a = tt
  All-older x y (z ∷ ys) h a = (older_trans x y z h a.0, All-older x y ys h a.1)

  insert_row-Newest :
      (x : A) (ys : List A)
      → All (λ y. (id y == id x) ≡ false) ys
      → Newest ys
      → Newest (insert_row created_at id x ys)
  insert_row-Newest x [] d s = (tt, tt)
  insert_row-Newest x (y ∷ ys) d s = elim (Bool-cases (older y x)) [
    | inl h ↦ rw h (All-insert (λ z. older y z ≡ true) x ys h s.0, insert_row-Newest x ys d.1 s.1)
    | inr h ↦
        let k = older-total x y (ground (arith, d.0)) h in rw h ((k, All-older x y ys k s.0), s)
  ]

  -- The query's order is strict, where the ids differ.
  pub order_by-Newest : (xs : List A) → DistinctIds xs → Newest (order_by created_at id xs)
  order_by-Newest [] d = tt
  order_by-Newest (x ∷ xs) d =
      insert_row-Newest x _ (All-order_by (λ y. (id y == id x) ≡ false) xs d.0)
        (order_by-Newest xs d.1)

  insert_row-first :
      (x : A) (ys : List A)
      → All (λ y. older y x ≡ false) ys
      → insert_row created_at id x ys ≡ x ∷ ys
  insert_row-first x [] a = refl
  insert_row-first x (y ∷ ys) a = rw a.0

  All-select : (Q : A → Type 0) (p : A → Bool) (ys : List A) → All Q ys → All Q (select p ys)
  All-select Q p [] a = tt
  All-select Q p (y ∷ ys) a = elim (Bool-cases (p y)) [
    | inl h ↦ rw h (a.0, All-select Q p ys a.1)
    | inr h ↦ rw h (All-select Q p ys a.1)
  ]

  not_older :
      (x y : A) (ys : List A)
      → older y x ≡ false
      → All (λ z. older y z ≡ true) ys
      → All (λ z. older z x ≡ false) ys
  not_older x y [] h a = tt
  not_older x y (z ∷ ys) h a = (
    elim (Bool-cases (older z x)) [ inl k ↦ let l = older_trans y z x a.0 k in cc | inr k ↦ k ],
    not_older x y ys h a.1,
  )

  select-insert_row :
      (p : A → Bool) (x : A) (ys : List A)
      → Newest ys
      → select p (insert_row created_at id x ys)
        ≡ (if p x then insert_row created_at id x (select p ys) else select p ys)
  select-insert_row p x [] s = elim (Bool-cases (p x)) [ inl h ↦ rw h | inr h ↦ rw h ]
  select-insert_row p x (y ∷ ys) s =
      let rest = select-insert_row p x ys s.1 in
      elim (Bool-cases (older y x)) [
        | inl h ↦ elim (Bool-cases (p x)) [
          | inl q ↦ elim (Bool-cases (p y)) [
            | inl r ↦ rw (h, q, r, h) (ap (y ∷◌) (rw q at rest))
            | inr r ↦ rw (h, q, r) (rw q at rest)
          ]
          | inr q ↦ elim (Bool-cases (p y)) [
            | inl r ↦ rw (h, q, r) (ap (y ∷◌) (rw q at rest))
            | inr r ↦ rw (h, q, r) (rw q at rest)
          ]
        ]
        | inr h ↦ elim (Bool-cases (p x)) [
          | inl q ↦ elim (Bool-cases (p y)) [
            | inl r ↦ rw (h, q, r, h)
            | inr r ↦
                rw (h, q, r)
                  (sym (insert_row-first x _ (All-select _ p ys (not_older x y ys h s.0))))
          ]
          | inr q ↦ rw (h, q)
        ]
      ]

  -- A query's rows are the order's, in its order.
  pub select-order_by :
      (p : A → Bool) (xs : List A)
      → DistinctIds xs
      → select p (order_by created_at id xs) ≡ order_by created_at id (select p xs)
  select-order_by p [] d = refl
  select-order_by p (x ∷ xs) d =
      select-insert_row p x _ (order_by-Newest xs d.1) ∙ elim (Bool-cases (p x)) [
        | inl q ↦ rw (q, select-order_by p xs d.1)
        | inr q ↦ rw (q, select-order_by p xs d.1)
      ]

  select_all : (p : A → Bool) (xs : List A) → All (λ x. p x ≡ true) xs → select p xs ≡ xs
  select_all p [] a = refl
  select_all p (x ∷ xs) a = rw (a.0, select_all p xs a.1)

  pub All-middle {κ} :
      (Q : A → Type κ) (front : List A) (a : A) (back : List A) → All Q (front ++ a ∷ back) → Q a
  All-middle Q [] a back q = q.0
  All-middle Q (x ∷ front) a back q = All-middle Q front a back q.1

  -- What is older than an anchor is what stands after it.
  pub select-older :
      (front : List A) (anchor : A) (back : List A)
      → Newest (front ++ anchor ∷ back)
      → select (older anchor) (front ++ anchor ∷ back) ≡ back
  select-older [] anchor back s = rw (older_irrefl anchor, select_all (older anchor) back s.0)
  select-older (x ∷ front) anchor back s = rw (
    older-asym x anchor (All-middle (λ z. older x z ≡ true) front anchor back s.0),
    select-older front anchor back s.1,
  )

  found_after :
      (x : A) (xs ys : List A)
      → All (λ y. (id y == id x) ≡ false) ys
      → All (λ y. find (λ row. id row == id y) xs ≡ some y) ys
      → All (λ y. find (λ row. id row == id y) (x ∷ xs) ≡ some y) ys
  found_after x xs [] d f = tt
  found_after x xs (y ∷ ys) d f =
      let apart : (id x == id y) ≡ false = ground (arith, d.0) in
      (rw apart f.0, found_after x xs ys d.1 f.1)

  -- Every row is the one that its id finds.
  pub found :
      (xs : List A) → DistinctIds xs → All (λ x. find (λ row. id row == id x) xs ≡ some x) xs
  found [] d = tt
  found (x ∷ xs) d = (rw (eqb_refl (id x)), found_after x xs xs d.0 (found xs d.1))
