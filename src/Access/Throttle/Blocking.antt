-- ===== src/Access/Throttle/Blocking.antt =====
-- Failures, successes and the clean-up, as one key's bucket sees them.
use ce_local_studio.Base.{
  ℕ, ◌≡◌, refl, ◌∙◌, false, not, Option, some, List, [], ◌∷◌, arith, inl, inr, select, Bool-cases,
  All,
}
use ce_local_studio.Access.Throttle.{
  ThrottleSettings, Bucket, has_key, find_bucket, on_conflict, upsert, is_stale, cleanup_stale,
  record_login_failure, clear_login_failures,
}
use ce_local_studio.Access.Throttle.Cleanup.{
  Unique, Unique-select, Injective, Apart, next_bucket, find_bucket-cleanup_stale,
  find_bucket-upsert, find_bucket-upsert-Apart,
}

-- Writing a key's bucket keeps the other keys away.
All-upsert :
    (settings : ThrottleSettings) (a b c u now : ℕ) (rows : List Bucket)
    → Apart c u a b
    → All (λ (r : Bucket). has_key a b r ≡ false) rows
    → All (λ (r : Bucket). has_key a b r ≡ false) (upsert settings c u now rows)
unfolding upsert on_conflict
All-upsert settings a b c u now [] n h = (n, tt)
All-upsert settings a b c u now (r ∷ rows) n h = elim (Bool-cases (has_key c u r)) [
  | inl y ↦ rw y h
  | inr m ↦ rw m (h.0, All-upsert settings a b c u now rows n h.1)
]

pub Unique-upsert :
    (settings : ThrottleSettings) (c u now : ℕ) (rows : List Bucket)
    → Unique rows
    → Unique (upsert settings c u now rows)
unfolding upsert on_conflict
Unique-upsert settings c u now [] h = (tt, tt)
Unique-upsert settings c u now (r ∷ rows) h = elim (Bool-cases (has_key c u r)) [
  | inl y ↦ rw y h
  | inr m ↦ rw m (
    All-upsert settings r.client_bucket_hash r.username_hash c u now rows (ground arith) h.0,
    Unique-upsert settings c u now rows h.1,
  )
]

find_bucket-clear :
    (c u d v : ℕ) (rows : List Bucket)
    → Apart c u d v
    → find_bucket c u (select (λ row. not (has_key d v row)) rows) ≡ find_bucket c u rows
find_bucket-clear c u d v [] a = refl
find_bucket-clear c u d v (r ∷ rows) a = ground (arith, find_bucket-clear c u d v rows a)

fresh_bucket :
    (settings : ThrottleSettings) (c u now : ℕ) (o : Option Bucket)
    → is_stale now (next_bucket settings c u now o) ≡ false
unfolding on_conflict
fresh_bucket settings c u now o = ground arith

module _ (digest : ℕ → ℕ → ℕ) where
  pub Unique-record_login_failure :
      (settings : ThrottleSettings) (c u now : ℕ) (table : List Bucket)
      → Unique table
      → Unique (record_login_failure digest settings c u now table)
  unfolding record_login_failure cleanup_stale
  Unique-record_login_failure settings c u now table h =
      Unique-select _ _ (Unique-upsert settings c u now table h)

  pub Unique-clear_login_failures :
      (c u now : ℕ) (table : List Bucket)
      → Unique table
      → Unique (clear_login_failures digest c u now table)
  unfolding clear_login_failures cleanup_stale
  Unique-clear_login_failures c u now table h = Unique-select _ _ (Unique-select _ _ h)

  module _ (injective : Injective digest) where
    -- A failure counts for its own key, whatever the clean-up deletes.
    pub record_login_failure-own :
        (settings : ThrottleSettings) (c u now : ℕ) (table : List Bucket)
        → Unique table
        → find_bucket c u (record_login_failure digest settings c u now table)
          ≡ some (next_bucket settings c u now (find_bucket c u table))
    unfolding record_login_failure
    record_login_failure-own settings c u now table h =
        find_bucket-cleanup_stale digest injective c u now (upsert settings c u now table)
          (Unique-upsert settings c u now table h) (find_bucket-upsert settings c u now table)
          (fresh_bucket settings c u now (find_bucket c u table))

    pub record_login_failure-Apart :
        (settings : ThrottleSettings) (c u d v now : ℕ) (table : List Bucket) {row : Bucket}
        → Unique table
        → Apart c u d v
        → find_bucket c u table ≡ some row
        → is_stale now row ≡ false
        → find_bucket c u (record_login_failure digest settings d v now table) ≡ some row
    unfolding record_login_failure
    record_login_failure-Apart settings c u d v now table h a f s =
        find_bucket-cleanup_stale digest injective c u now (upsert settings d v now table)
          (Unique-upsert settings d v now table h)
          (find_bucket-upsert-Apart settings c u d v now table a ∙ f) s

    pub clear_login_failures-Apart :
        (c u d v now : ℕ) (table : List Bucket) {row : Bucket}
        → Unique table
        → Apart c u d v
        → find_bucket c u table ≡ some row
        → is_stale now row ≡ false
        → find_bucket c u (clear_login_failures digest d v now table) ≡ some row
    unfolding clear_login_failures
    clear_login_failures-Apart c u d v now table h a f s =
        find_bucket-cleanup_stale digest injective c u now _ (Unique-select _ _ h)
          (find_bucket-clear c u d v table a ∙ f) s
