-- ===== src/Access/Throttle.antt =====
-- The login throttle, app/context_engine/services/login_throttle.py. An instant is a number of
-- microseconds. The hashes of the client and of the user name are numbers; `digest` is the hash of
-- the two that becomes the row's id, so a row has no id of its own here.
pub mod Cleanup
pub mod Blocking
pub mod Counting
use ce_local_studio.Base.{
  ℕ, ◌+◌, ◌-◌, ◌*◌, ◌/◌, max, Bool, true, false, not, ◌&&◌, ◌||◌, Option, none, some, List, [], ◌∷◌,
  map, Result, ok, err, find, select, take, any, ltb, leb, ◌==◌, if◌then◌else◌,
}

abbrev pub second : ℕ
second = 1000000

-- `CLEANUP_AGE` and `CLEANUP_LIMIT`.
abbrev pub cleanup_age : ℕ
cleanup_age = 24 * 3600 * 1000000

abbrev pub cleanup_limit : ℕ
cleanup_limit = 100

pub record ThrottleSettings : Type 0 where
  pub window_seconds : ℕ
  pub max_failures : ℕ
  pub block_seconds : ℕ

pub record Bucket : Type 0 where
  pub client_bucket_hash : ℕ
  pub username_hash : ℕ
  pub window_started_at : ℕ
  pub failure_count : ℕ
  pub blocked_until : Option ℕ
  pub updated_at : ℕ

abbrev pub has_key : ℕ → ℕ → Bucket → Bool
has_key client username row = (row.client_bucket_hash == client) && (row.username_hash == username)

abbrev pub find_bucket : ℕ → ℕ → List Bucket → Option Bucket
find_bucket client username table = find (has_key client username) table

-- `LoginRateLimited`
pub data RateLimited : Type 0 where
  login_rate_limited : (retry_after : ℕ) → RateLimited

-- `max(1, math.ceil((blocked_until - now).total_seconds()))`, where `blocked_until > now`.
unfoldable pub retry_after : ℕ → ℕ → ℕ
retry_after blocked_until now = max 1 ((blocked_until - now + (second - 1)) / second)

abbrev pub check_block : Option ℕ → ℕ → Result RateLimited (Unit {0})
unfolding retry_after
check_block none now = ok tt
check_block (some blocked_until) now =
    if ltb now blocked_until
    then err (login_rate_limited (retry_after blocked_until now))
    else ok tt

abbrev pub check_bucket : Option Bucket → ℕ → Result RateLimited (Unit {0})
check_bucket none now = ok tt
check_bucket (some row) now = check_block row.blocked_until now

unfoldable pub assert_login_allowed : List Bucket → ℕ → ℕ → ℕ → Result RateLimited (Unit {0})
assert_login_allowed table client username now =
    check_bucket (find_bucket client username table) now

-- `window_started_at <= now - window`
abbrev pub window_expired : ThrottleSettings → ℕ → Bucket → Bool
window_expired settings now row = leb (row.window_started_at + settings.window_seconds * second) now

abbrev pub new_bucket : ℕ → ℕ → ℕ → Bucket
new_bucket client username now = record {
  client_bucket_hash = client;
  username_hash = username;
  window_started_at = now;
  failure_count = 1;
  blocked_until = none;
  updated_at = now;
}

abbrev pub still_blocked : Option ℕ → ℕ → Bool
still_blocked none now = false
still_blocked (some blocked_until) now = ltb now blocked_until

-- `ON CONFLICT … DO UPDATE SET`
unfoldable pub on_conflict : ThrottleSettings → ℕ → Bucket → Bucket
on_conflict settings now row =
    let expired = window_expired settings now row in
    let next_count = if expired then 1 else row.failure_count + 1 in
    record row {
      window_started_at = if expired then now else row.window_started_at;
      failure_count = next_count;
      blocked_until =
          if expired
          then none
          else if still_blocked row.blocked_until now
          then row.blocked_until
          else if leb settings.max_failures next_count
          then some (now + settings.block_seconds * second)
          else none;
      updated_at = now;
    }

unfoldable pub upsert : ThrottleSettings → ℕ → ℕ → ℕ → List Bucket → List Bucket
unfolding on_conflict
upsert settings client username now [] = new_bucket client username now ∷ []
upsert settings client username now (row ∷ rows) =
    let rest = upsert settings client username now rows in
    if has_key client username row then on_conflict settings now row ∷ rows else row ∷ rest

-- `updated_at < now - CLEANUP_AGE`
abbrev pub is_stale : ℕ → Bucket → Bool
is_stale now row = ltb (row.updated_at + cleanup_age) now

module _ (digest : ℕ → ℕ → ℕ) where
  abbrev pub row_id : Bucket → ℕ
  row_id row = digest row.client_bucket_hash row.username_hash

  -- `ORDER BY updated_at, id`
  abbrev sorts_before : Bucket → Bucket → Bool
  sorts_before a b =
      ltb a.updated_at b.updated_at || (a.updated_at == b.updated_at) && leb (row_id a) (row_id b)

  abbrev insert_sorted : Bucket → List Bucket → List Bucket
  insert_sorted row [] = row ∷ []
  insert_sorted row (other ∷ rows) =
      let rest = insert_sorted row rows in
      if sorts_before row other then row ∷ other ∷ rows else other ∷ rest

  abbrev pub sort : List Bucket → List Bucket
  sort [] = []
  sort (row ∷ rows) = insert_sorted row (sort rows)

  unfoldable pub stale_ids : ℕ → List Bucket → List ℕ
  stale_ids now table = map row_id (take cleanup_limit (sort (select (is_stale now) table)))

  unfoldable pub cleanup_stale : ℕ → List Bucket → List Bucket
  unfolding stale_ids
  cleanup_stale now table =
      let ids = stale_ids now table in select (λ row. not (any (λ id. id == row_id row) ids)) table

  unfoldable pub record_login_failure : ThrottleSettings → ℕ → ℕ → ℕ → List Bucket → List Bucket
  unfolding upsert cleanup_stale
  record_login_failure settings client username now table =
      cleanup_stale now (upsert settings client username now table)

  unfoldable pub clear_login_failures : ℕ → ℕ → ℕ → List Bucket → List Bucket
  unfolding cleanup_stale
  clear_login_failures client username now table =
      cleanup_stale now (select (λ row. not (has_key client username row)) table)
