-- ===== src/Access/Throttle/Counting.antt =====
-- Counting the failures of one key within a window.
use native.Mathlib.Nat.{add-zero}
use ce_local_studio.Base.{
  ℕ, suc, ◌+◌, ◌*◌, ◌≤◌, ◌<◌, ◌≡◌, refl, ap, ◌∙◌, Option, none, some, List, [], ◌∷◌, arith,
  if◌then◌else◌, All, leb, length,
}
use ce_local_studio.Access.Throttle.{
  second, ThrottleSettings, Bucket, find_bucket, new_bucket, on_conflict, record_login_failure,
}
use ce_local_studio.Access.Throttle.Cleanup.{Unique, Injective, next_bucket}
use ce_local_studio.Access.Throttle.Blocking.{record_login_failure-own, Unique-record_login_failure}

-- The failures of one key, in the order of their instants.
abbrev pub failures : (ℕ → ℕ → ℕ) → ThrottleSettings → ℕ → ℕ → List ℕ → List Bucket → List Bucket
failures digest settings c u [] table = table
failures digest settings c u (now ∷ later) table =
    failures digest settings c u later (record_login_failure digest settings c u now table)

abbrev pub last_of : ℕ → List ℕ → ℕ
last_of now [] = now
last_of now (next ∷ later) = last_of next later

-- The block that a failure at `now` puts on a bucket that counts `count` with it.
abbrev pub block_at : ThrottleSettings → ℕ → ℕ → Option ℕ
block_at settings count now =
    if leb settings.max_failures count then some (now + settings.block_seconds * second) else none

abbrev pub Counted : ThrottleSettings → ℕ → ℕ → ℕ → ℕ → ℕ → Bucket → Type 0
Counted settings c u start count now row =
    (row.window_started_at ≡ start)
    × (row.failure_count ≡ count)
    × (row.blocked_until ≡ block_at settings count now)

abbrev pub Within : ThrottleSettings → ℕ → ℕ → Type 0
Within settings start now = now < start + settings.window_seconds * second

counts_on :
    (settings : ThrottleSettings) (c u start count before now : ℕ) (row : Bucket)
    → Counted settings c u start count before row
    → count < settings.max_failures
    → Within settings start now
    → Counted settings c u start (suc count) now (on_conflict settings now row)
unfolding on_conflict
counts_on settings c u start count before now row h l w = ground arith

module _ (digest : ℕ → ℕ → ℕ) (injective : Injective digest) (settings : ThrottleSettings)
    (c u start : ℕ) where
  failures-Counted :
      (later : List ℕ) (count before : ℕ) (table : List Bucket) (row : Bucket)
      → Unique table
      → find_bucket c u table ≡ some row
      → Counted settings c u start count before row
      → All (Within settings start) later
      → count + length later ≤ settings.max_failures
      → (row' : Bucket) × (find_bucket c u (failures digest settings c u later table) ≡ some row')
        × Counted settings c u start (count + length later) (last_of before later) row'
  failures-Counted [] count before table row v f h w m = (row, f, rw add-zero h)
  failures-Counted (now ∷ later) count before table row v f h w m =
      let row1 = on_conflict settings now row in
      let (row', f', h') =
        failures-Counted later (suc count) now (record_login_failure digest settings c u now table)
          row1 (Unique-record_login_failure digest settings c u now table v)
          (record_login_failure-own digest injective settings c u now table v
            ∙ ap (λ o. some (next_bucket settings c u now o)) f)
          (counts_on settings c u start count before now row h (omega arith) w.0) w.1
          (omega arith) in
      (row', f', rw (shift count (length later)) h')
    where
      shift : (k n : ℕ) → k + suc n ≡ suc k + n
      shift k n = omega arith

-- For a client that has no bucket and a limit of at least two, `n` failures within one window are
-- counted as `n`; fewer than the limit do not block, and the one that reaches it blocks the client
-- for the configured time from its instant.
pub max_failures_block :
    (digest : ℕ → ℕ → ℕ) (settings : ThrottleSettings) (c u first : ℕ) (later : List ℕ)
    (table : List Bucket)
    → Injective digest
    → Unique table
    → find_bucket c u table ≡ none
    → 2 ≤ settings.max_failures
    → All (Within settings first) later
    → 1 + length later ≤ settings.max_failures
    → (row : Bucket) × (find_bucket c u (failures digest settings c u (first ∷ later) table)
        ≡ some row)
      × Counted settings c u first (1 + length later) (last_of first later) row
max_failures_block digest settings c u first later table injective v f two w m =
    failures-Counted digest injective settings c u first later 1 first
      (record_login_failure digest settings c u first table) (new_bucket c u first)
      (Unique-record_login_failure digest settings c u first table v)
      (record_login_failure-own digest injective settings c u first table v
        ∙ ap (λ o. some (next_bucket settings c u first o)) f)
      (refl, refl, ground arith) w m
