-- ===== src/Paging/Complete.antt =====
-- A client that follows the cursors of an unchanged list reads every row once, in order.
use mathlib.Core.Path.{subst}
use mathlib.Core.List.{Permᴰ}
use mathlib.Core.List.Permᴰ
use ce_local_studio.Base.{
  ℕ, zero, suc, ◌-◌, ◌≤◌, ◌<◌, ◌≡◌, refl, sym, ap, ◌∙◌, true, false, ◌&&◌, Option, none, some, List,
  [], ◌∷◌, ◌++◌, length, take, drop, select, find, ltb, leb, ◌==◌, if◌then◌else◌, All, arith, inl,
  inr, Bool-cases, ok, append_assoc, append-nil,
}
use ce_local_studio.Paging.{
  older_than, insert_row, order_by, within, query, page_of, last_id, find_anchor, list_page, follow,
  max_list_page_size,
}
use ce_local_studio.Paging.Ordered.{
  DistinctIds, Newest, All-order_by, All-middle, order_by-Newest, select-order_by, select-older,
  found,
}

module _ {ℓ} {A : Type ℓ} where
  take-take : (n : ℕ) (xs : List A) → take n (take (suc n) xs) ≡ take n xs
  take-take zero xs = refl
  take-take (suc n) [] = refl
  take-take (suc n) (x ∷ xs) = ap (x ∷◌) (take-take n xs)

  more-take : (n : ℕ) (xs : List A) → ltb n (length (take (suc n) xs)) ≡ ltb n (length xs)
  more-take n [] = refl
  more-take zero (x ∷ xs) = ground arith
  more-take (suc n) (x ∷ xs) = ground (arith, more-take n xs)

  take_all : (n : ℕ) (xs : List A) → ltb n (length xs) ≡ false → take n xs ≡ xs
  take_all zero [] h = refl
  take_all zero (x ∷ xs) h = ground (arith, h)
  take_all (suc n) [] h = refl
  take_all (suc n) (x ∷ xs) h = ap (x ∷◌) (take_all n xs (ground (arith, h)))

  length-drop : (n : ℕ) (xs : List A) → length (drop n xs) ≡ length xs - n
  length-drop zero xs = omega arith
  length-drop (suc n) [] = omega arith
  length-drop (suc n) (x ∷ xs) = omega (arith, length-drop n xs)

  take-drop : (n : ℕ) (xs : List A) → take n xs ++ drop n xs ≡ xs
  take-drop zero xs = refl
  take-drop (suc n) [] = refl
  take-drop (suc n) (x ∷ xs) = ap (x ∷◌) (take-drop n xs)

  -- A full page has a last row.
  last_row :
      (n : ℕ) (xs : List A)
      → 1 ≤ n
      → ltb n (length xs) ≡ true
      → (front : List A) × (a : A) × (take n xs ≡ front ++ a ∷ [])
  last_row zero xs p h = absurd (omega (arith, p))
  last_row (suc n) [] p h = absurd (ground (arith, h))
  last_row (suc zero) (x ∷ xs) p h = ([], x, refl)
  last_row (suc (suc n)) (x ∷ xs) p h =
      let (front, a, e) = last_row (suc n) xs (omega arith) (ground (arith, h)) in
      (x ∷ front, a, ap (x ∷◌) e)

ltb-true : (a b : ℕ) → ltb a b ≡ true → a < b
ltb-true a b h = ground (arith, h)

module _ {ℓ} {A : Type ℓ} (created_at : A → ℕ) (id : A → ℕ) where
  length-insert_row :
      (x : A) (ys : List A) → length (insert_row created_at id x ys) ≡ suc (length ys)
  length-insert_row x [] = refl
  length-insert_row x (y ∷ ys) = elim (Bool-cases (older_than created_at id y x)) [
    | inl h ↦ rw h (ap suc (length-insert_row x ys))
    | inr h ↦ rw h
  ]

  length-order_by : (xs : List A) → length (order_by created_at id xs) ≡ length xs
  length-order_by [] = refl
  length-order_by (x ∷ xs) = length-insert_row x _ ∙ ap suc (length-order_by xs)

  last_id-append : (front : List A) (a : A) → last_id created_at id (front ++ a ∷ []) ≡ some (id a)
  last_id-append [] a = refl
  last_id-append (x ∷ []) a = refl
  last_id-append (x ∷ y ∷ front) a = last_id-append (y ∷ front) a

  -- The page of the rows that are left.
  page_of-query :
      (limit : ℕ) (anchor : Option A) (table rest : List A)
      → order_by created_at id (within created_at id anchor table) ≡ rest
      → page_of created_at id limit (query created_at id limit anchor table) ≡ record {
        rows = take limit rest;
        next_cursor =
            if ltb limit (length rest) then last_id created_at id (take limit rest) else none;
      }
  page_of-query limit anchor table rest e = rw (e, take-take limit rest, more-take limit rest)

  module _ (limit : ℕ) (least : 1 ≤ limit) (most : limit ≤ max_list_page_size) (table : List A)
      (distinct : DistinctIds created_at id table) where
    list_page-runs :
        (cursor : Option ℕ) (anchor : Option A) (rest : List A)
        → find_anchor created_at id cursor table ≡ ok anchor
        → order_by created_at id (within created_at id anchor table) ≡ rest
        → list_page created_at id limit cursor table
          ≡ ok (record {
            rows = take limit rest;
            next_cursor =
                if ltb limit (length rest) then last_id created_at id (take limit rest) else none;
          })
    unfolding list_page
    list_page-runs cursor anchor rest f e =
        let inside : (leb 1 limit && leb limit max_list_page_size) ≡ true =
          ground (arith, least, most) in
        rw (inside, f) (ap ok (page_of-query limit anchor table rest e))

    -- A row of the order is an anchor, and what follows it are the rows that are left.
    anchored :
        (front : List A) (a : A) (back : List A)
        → order_by created_at id table ≡ front ++ a ∷ back
        → (find_anchor created_at id (some (id a)) table ≡ ok (some a))
          × (order_by created_at id (within created_at id (some a) table) ≡ back)
    anchored front a back e =
        let ordered =
          subst (Newest created_at id) e (order_by-Newest created_at id table distinct) in
        let finds = All-middle created_at id _ front a back (
          subst (All (λ x. find (λ row. id row == id x) table ≡ some x)) e
            (All-order_by created_at id _ table (found created_at id table distinct))) in
        (
          rw (find_anchor, finds),
          sym (select-order_by created_at id (older_than created_at id a) table distinct)
              ∙ ap (select (older_than created_at id a)) e
              ∙ select-older created_at id front a back ordered,
        )

    follow-rest :
        (fuel : ℕ) (cursor : Option ℕ) (anchor : Option A) (front rest : List A)
        → find_anchor created_at id cursor table ≡ ok anchor
        → order_by created_at id (within created_at id anchor table) ≡ rest
        → order_by created_at id table ≡ front ++ rest
        → length rest < fuel
        → follow created_at id fuel limit cursor table ≡ some rest
    unfolding follow
    follow-rest zero cursor anchor front rest f e w l = absurd (omega (arith, l))
    follow-rest (suc fuel) cursor anchor front rest f e w l =
        elim (Bool-cases (ltb limit (length rest))) [
          | inr h ↦
              rw (list_page-runs cursor anchor rest f e, h)
                (ap some (append-nil _ ∙ take_all limit rest h))
          | inl h ↦
              let (begun, a, t) = last_row limit rest least h in
              let split : rest ≡ begun ++ a ∷ drop limit rest =
                sym (take-drop limit rest)
                ∙ ap (λ x. x ++ drop limit rest) t
                ∙ append_assoc begun (a ∷ []) (drop limit rest) in
              let whole : order_by created_at id table ≡ (front ++ begun) ++ a ∷ drop limit rest =
                w ∙ ap (front ++◌) split ∙ sym (append_assoc front begun (a ∷ drop limit rest)) in
              let (g, k) = anchored (front ++ begun) a (drop limit rest) whole in
              let shorter : length (drop limit rest) < fuel =
                omega (arith, length-drop limit rest, least, ltb-true limit (length rest) h) in
              let again =
                follow-rest fuel (some (id a)) (some a) ((front ++ begun) ++ a ∷ [])
                  (drop limit rest) g k
                  (whole ∙ sym (append_assoc (front ++ begun) (a ∷ []) (drop limit rest)))
                  shorter in
              rw (list_page-runs cursor anchor rest f e, h, t, last_id-append begun a, again)
                (ap some (append_assoc begun (a ∷ []) (drop limit rest) ∙ sym split))
        ]

  insert_row-Perm : (x : A) (ys : List A) → Permᴰ (insert_row created_at id x ys) (x ∷ ys)
  insert_row-Perm x [] = Permᴰ.refl (x ∷ [])
  insert_row-Perm x (y ∷ ys) = elim (Bool-cases (older_than created_at id y x)) [
    | inl h ↦ rw h (Permᴰ.trans (Permᴰ.cons refl (insert_row-Perm x ys)) (Permᴰ.swap refl refl))
    | inr h ↦ rw h (Permᴰ.refl (x ∷ y ∷ ys))
  ]

  order_by-Perm : (xs : List A) → Permᴰ (order_by created_at id xs) xs
  order_by-Perm [] = Permᴰ.nil
  order_by-Perm (x ∷ xs) = Permᴰ.trans (insert_row-Perm x _) (Permᴰ.cons refl (order_by-Perm xs))

  -- A client that follows the cursors of an unchanged list whose rows have different ids comes to
  -- an end, with any page size from 1 to 100 and after at most one page more than there are rows; the
  -- pages together are the rows of the list, each of them once, every one older than those before.
  pub follow_reads_all :
      (limit : ℕ) (table : List A)
      → 1 ≤ limit
      → limit ≤ max_list_page_size
      → DistinctIds created_at id table
      → (rows : List A) × (follow created_at id (suc (length table)) limit none table ≡ some rows)
        × Newest created_at id rows
        × Permᴰ rows table
  follow_reads_all limit table least most distinct = (
    order_by created_at id table,
    follow-rest limit least most table distinct (suc (length table)) none none []
        (order_by created_at id table) refl refl refl (omega (arith, length-order_by table)),
    order_by-Newest created_at id table distinct,
    order_by-Perm table,
  )
