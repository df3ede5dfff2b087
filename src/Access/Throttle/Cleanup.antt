-- ===== src/Access/Throttle/Cleanup.antt =====
-- What a failure, a success and the clean-up of stale rows leave of a client's bucket.
use ce_local_studio.Base.{
  ℕ, zero, suc, ◌≡◌, refl, ap, ◌∙◌, Bool, true, false, not, ◌&&◌, Option, none, some, List, [], ◌∷◌,
  map, arith, inl, inr, find, select, take, any, ◌==◌, Bool-cases, All, eqb→eq,
}
use ce_local_studio.Access.Throttle.{
  ThrottleSettings, Bucket, has_key, find_bucket, new_bucket, on_conflict, upsert, is_stale, row_id,
  sort, insert_sorted, sorts_before, stale_ids, cleanup_stale, cleanup_limit,
}

-- The unique index on the two hashes.
abbrev pub Unique : List Bucket → Type 0
Unique [] = Unit {0}
Unique (row ∷ rows) =
    All (λ (other : Bucket). has_key row.client_bucket_hash row.username_hash other ≡ false) rows
    × Unique rows

All-select :
    (P : Bucket → Type 0) (p : Bucket → Bool) (rows : List Bucket)
    → All P rows
    → All P (select p rows)
All-select P p [] h = tt
All-select P p (row ∷ rows) h = elim (Bool-cases (p row)) [
  | inl y ↦ rw y (h.0, All-select P p rows h.1)
  | inr n ↦ rw n (All-select P p rows h.1)
]

All-take : (P : Bucket → Type 0) (n : ℕ) (rows : List Bucket) → All P rows → All P (take n rows)
All-take P zero rows h = tt
All-take P (suc n) [] h = tt
All-take P (suc n) (row ∷ rows) h = (h.0, All-take P n rows h.1)

pub Unique-select : (p : Bucket → Bool) (rows : List Bucket) → Unique rows → Unique (select p rows)
Unique-select p [] h = tt
Unique-select p (row ∷ rows) h = elim (Bool-cases (p row)) [
  | inl y ↦ rw y (All-select _ p rows h.0, Unique-select p rows h.1)
  | inr n ↦ rw n (Unique-select p rows h.1)
]

find-select-some :
    (p keep : Bucket → Bool) (rows : List Bucket) {row : Bucket}
    → find p rows ≡ some row
    → keep row ≡ true
    → find p (select keep rows) ≡ some row
find-select-some p keep [] h k = cc
find-select-some p keep (r ∷ rows) {row} h k =
    ground (arith, find-select-some p keep rows {row = row})

find-select-none :
    (p keep : Bucket → Bool) (rows : List Bucket)
    → find p rows ≡ none
    → find p (select keep rows) ≡ none
find-select-none p keep [] h = refl
find-select-none p keep (r ∷ rows) h = ground (arith, find-select-none p keep rows)

pub find-holds :
    (p : Bucket → Bool) (rows : List Bucket) {row : Bucket} → find p rows ≡ some row → p row ≡ true
find-holds p [] h = cc
find-holds p (r ∷ rows) {row} h = ground (arith, find-holds p rows {row = row})

pub key_of :
    (c u : ℕ) (r : Bucket)
    → has_key c u r ≡ true
    → (r.client_bucket_hash ≡ c) × (r.username_hash ≡ u)
key_of c u r own = ground arith

has_key-differs :
    (c u : ℕ) (r : Bucket)
    → has_key c u r ≡ false
    → r.client_bucket_hash ≡ c
    → r.username_hash ≡ u
    → ⊥
has_key-differs c u r apart p q = ground arith

-- Where the bucket of a key is not stale, no stale row has the key.
stale-apart :
    (c u now : ℕ) (rows : List Bucket) {row : Bucket}
    → Unique rows
    → find_bucket c u rows ≡ some row
    → is_stale now row ≡ false
    → All (λ (r : Bucket). has_key c u r ≡ false) (select (is_stale now) rows)
stale-apart c u now [] h f s = tt
stale-apart c u now (r ∷ rows) {row} h f s = elim (Bool-cases (has_key c u r)) [
  | inl own ↦
      let e : r ≡ row = ground (arith, own, f) in
      let (x, y) = key_of c u r own in
      rw (ap (is_stale now) e ∙ s) (All-select _ (is_stale now) rows (rw (x, y) at h.0))
  | inr apart ↦
      let rest = stale-apart c u now rows {row = row} h.1 (ground (arith, apart, f)) s in
      elim (Bool-cases (is_stale now r)) [ inl y ↦ rw y (apart, rest) | inr n ↦ rw n rest ]
]

All-insert_sorted :
    (digest : ℕ → ℕ → ℕ) (P : Bucket → Type 0) (row : Bucket) (rows : List Bucket)
    → P row
    → All P rows
    → All P (insert_sorted digest row rows)
All-insert_sorted digest P row [] h k = (h, tt)
All-insert_sorted digest P row (other ∷ rows) h k =
    elim (Bool-cases (sorts_before digest row other)) [
      | inl y ↦ rw y (h, k)
      | inr n ↦ rw n (k.0, All-insert_sorted digest P row rows h k.1)
    ]

All-sort :
    (digest : ℕ → ℕ → ℕ) (P : Bucket → Type 0) (rows : List Bucket)
    → All P rows
    → All P (sort digest rows)
All-sort digest P [] h = tt
All-sort digest P (row ∷ rows) h =
    All-insert_sorted digest P row (sort digest rows) h.0 (All-sort digest P rows h.1)

-- The hash of the two hashes meets no collision.
abbrev pub Injective : (ℕ → ℕ → ℕ) → Type 0
Injective digest = (a b c d : ℕ) → digest a b ≡ digest c d → (a ≡ c) × (b ≡ d)

module _ (digest : ℕ → ℕ → ℕ) (injective : Injective digest) where
  id_absent :
      (c u : ℕ) (rows : List Bucket)
      → All (λ (r : Bucket). has_key c u r ≡ false) rows
      → any (λ id. id == digest c u) (map (row_id digest) rows) ≡ false
  id_absent c u [] h = refl
  id_absent c u (r ∷ rows) h = elim (Bool-cases (row_id digest r == digest c u)) [
    | inl y ↦
        let (p, q) = injective r.client_bucket_hash r.username_hash c u (eqb→eq _ _ y) in
        absurd (has_key-differs c u r h.0 p q)
    | inr n ↦ rw n (id_absent c u rows h.1)
  ]

  -- The clean-up keeps a bucket that is not stale.
  pub find_bucket-cleanup_stale :
      (c u now : ℕ) (table : List Bucket) {row : Bucket}
      → Unique table
      → find_bucket c u table ≡ some row
      → is_stale now row ≡ false
      → find_bucket c u (cleanup_stale digest now table) ≡ some row
  unfolding cleanup_stale stale_ids
  find_bucket-cleanup_stale c u now table {row} h f s =
      let apart = stale-apart c u now table {row = row} h f s in
      let (x, y) = key_of c u row (find-holds _ table {row = row} f) in
      let sorted = All-sort digest _ _ apart in
      let absent = id_absent c u _ (All-take _ cleanup_limit _ sorted) in
      find-select-some _ _ table f (rw (x, y) (ap not absent))

  find_bucket-gone :
      (c u now : ℕ) (table : List Bucket)
      → find_bucket c u table ≡ none
      → find_bucket c u (cleanup_stale digest now table) ≡ none
  unfolding cleanup_stale
  find_bucket-gone c u now table h = find-select-none _ _ table h

-- The bucket that a failure leaves.
abbrev pub next_bucket : ThrottleSettings → ℕ → ℕ → ℕ → Option Bucket → Bucket
next_bucket settings c u now none = new_bucket c u now
next_bucket settings c u now (some row) = on_conflict settings now row

-- Two keys that differ.
abbrev pub Apart : ℕ → ℕ → ℕ → ℕ → Type 0
Apart c u d v = ((c == d) && (u == v)) ≡ false

pub find_bucket-upsert :
    (settings : ThrottleSettings) (c u now : ℕ) (table : List Bucket)
    → find_bucket c u (upsert settings c u now table)
      ≡ some (next_bucket settings c u now (find_bucket c u table))
unfolding upsert on_conflict
find_bucket-upsert settings c u now [] = ground arith
find_bucket-upsert settings c u now (r ∷ rows) =
    ground (arith, find_bucket-upsert settings c u now rows)

pub find_bucket-upsert-Apart :
    (settings : ThrottleSettings) (c u d v now : ℕ) (table : List Bucket)
    → Apart c u d v
    → find_bucket c u (upsert settings d v now table) ≡ find_bucket c u table
unfolding upsert on_conflict
find_bucket-upsert-Apart settings c u d v now [] a = ground arith
find_bucket-upsert-Apart settings c u d v now (r ∷ rows) a =
    ground (arith, find_bucket-upsert-Apart settings c u d v now rows a)
