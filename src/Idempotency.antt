-- ===== src/Idempotency.antt =====
-- Idempotency keys of HTTP requests, app/context_engine/services/idempotency.py. The hash of a key
-- and the JSON text of the response's references are parameters; a table is a list of rows.
pub mod Replay
pub mod Once
pub mod Lookup
mod Tests
use ce_local_studio.Base.{
  ℕ, Bool, true, false, not, ◌&&◌, ◌||◌, Option, none, some, List, [], ◌∷◌, ◌++◌, Result, ok, err,
  ◌>>=◌, ◌>>◌, find, length, ◌==◌, same_text, if◌then◌else◌, or_else,
}
use ce_local_studio.Turn.Types.{Text}
use ce_local_studio.Turn.Stream.{strip, is_empty}

pub data State : Type 0 where
  pending completed : State

pub record HttpIdempotencyRecord : Type 0 where
  pub principal_user_id : ℕ
  pub route_class : ℕ
  pub key_hash : ℕ
  pub fingerprint : Text
  pub state : State
  pub http_status : Option ℕ
  pub response_kind : Option Text
  pub response_refs_json : Option Text
  pub completed_at : Option ℕ

-- `IdempotencyError` by its status and code.
pub data IdempotencyError : Type 0 where
  internal_error validation_error idempotency_conflict capacity_unavailable : IdempotencyError

abbrev pub require : Bool → IdempotencyError → Result IdempotencyError (Unit {0})
require true e = ok tt
require false e = err e

abbrev pub is_pending : State → Bool
is_pending pending = true
is_pending completed = false

abbrev pub is_for : ℕ → ℕ → ℕ → HttpIdempotencyRecord → Bool
is_for principal route_class key_hash row =
    (row.principal_user_id == principal)
    && (row.route_class == route_class)
    && (row.key_hash == key_hash)

abbrev pub lookup : ℕ → ℕ → ℕ → List HttpIdempotencyRecord → Option HttpIdempotencyRecord
lookup principal route_class key_hash table = find (is_for principal route_class key_hash) table

abbrev pub new_record : ℕ → ℕ → ℕ → Text → HttpIdempotencyRecord
new_record principal route_class key_hash fingerprint = record {
  principal_user_id = principal;
  route_class = route_class;
  key_hash = key_hash;
  fingerprint = fingerprint;
  state = pending;
  http_status = none;
  response_kind = none;
  response_refs_json = none;
  completed_at = none;
}

-- `IdempotencyOutcome`: the new record, or the answer of the first request.
pub data IdempotencyOutcome (Refs : Type 0) : Type 0 where
  claimed : HttpIdempotencyRecord → IdempotencyOutcome Refs
  replay :
      (http_status : Option ℕ) (response_kind : Option Text) (response_refs : Refs)
      → IdempotencyOutcome Refs

module _ (hash : Text → ℕ) where
  unfoldable pub hash_idempotency_key : Text → Result IdempotencyError ℕ
  hash_idempotency_key raw_key =
      if is_empty raw_key || is_empty (strip raw_key)
      then err validation_error
      else ok (hash raw_key)

-- `loads` is `json.loads`, where it gives a mapping.
module _ {Refs : Type 0} (loads : Text → Option Refs) (no_refs : Text) where
  abbrev pub mapping : Option Refs → Result IdempotencyError Refs
  mapping none = err internal_error
  mapping (some refs) = ok refs

  unfoldable pub resolve_existing :
      HttpIdempotencyRecord → Text → Result IdempotencyError (IdempotencyOutcome Refs)
  resolve_existing row fingerprint = do
    require (same_text row.fingerprint fingerprint) idempotency_conflict
    require (not (is_pending row.state)) capacity_unavailable
    refs ← mapping (loads (or_else row.response_refs_json no_refs))
    ok (replay row.http_status row.response_kind refs)

  abbrev pub Began : Type 0
  Began = Result IdempotencyError (IdempotencyOutcome Refs × List HttpIdempotencyRecord)

  abbrev pub resolve : HttpIdempotencyRecord → Text → List HttpIdempotencyRecord → Began
  unfolding resolve_existing
  resolve row fingerprint table = do outcome ← resolve_existing row fingerprint; ok (outcome, table)

  -- The insert in its savepoint: it fails on the unique index, or on another constraint.
  abbrev pub insert_record :
      HttpIdempotencyRecord
      → Bool
      → List HttpIdempotencyRecord
      → Option HttpIdempotencyRecord
      → Began
  insert_record row refused table (some raced) = resolve raced row.fingerprint table
  insert_record row true table none = err internal_error
  insert_record row false table none = ok (claimed row, table ++ row ∷ [])

  abbrev pub begin_with :
      HttpIdempotencyRecord
      → Bool
      → (List HttpIdempotencyRecord → List HttpIdempotencyRecord)
      → List HttpIdempotencyRecord
      → Option HttpIdempotencyRecord
      → Began
  begin_with row refused meanwhile table (some existing) = resolve existing row.fingerprint table
  begin_with row refused meanwhile table none =
      insert_record row refused (meanwhile table)
        (lookup row.principal_user_id row.route_class row.key_hash (meanwhile table))

  -- `meanwhile` is what others commit between the first look and the insert; `refused` says whether
  -- a constraint other than the unique index refuses the row.
  unfoldable pub begin_idempotent :
      (Text → ℕ)
      → (ℕ → Bool)
      → Bool
      → (List HttpIdempotencyRecord → List HttpIdempotencyRecord)
      → ℕ
      → ℕ
      → Text
      → Text
      → List HttpIdempotencyRecord
      → Began
  unfolding hash_idempotency_key resolve_existing
  begin_idempotent hash known_class refused meanwhile principal route_class raw_key fingerprint
        table =
      do
        require (known_class route_class) internal_error
        require (length fingerprint == 64) internal_error
        key_hash ← hash_idempotency_key hash raw_key
        begin_with (new_record principal route_class key_hash fingerprint) refused meanwhile table
            (lookup principal route_class key_hash table)

-- The row of a record, changed.
abbrev pub write_row :
    HttpIdempotencyRecord → List HttpIdempotencyRecord → List HttpIdempotencyRecord
write_row row [] = []
write_row row (r ∷ rs) =
    let rest = write_row row rs in
    if is_for row.principal_user_id row.route_class row.key_hash r then row ∷ rs else r ∷ rest

abbrev pub delete_row :
    HttpIdempotencyRecord → List HttpIdempotencyRecord → List HttpIdempotencyRecord
delete_row row [] = []
delete_row row (r ∷ rs) =
    let rest = delete_row row rs in
    if is_for row.principal_user_id row.route_class row.key_hash r then rs else r ∷ rest

abbrev pub completed_record : ℕ → Text → Text → ℕ → HttpIdempotencyRecord → HttpIdempotencyRecord
completed_record http_status response_kind refs_json now row = record row {
  state = completed;
  http_status = some http_status;
  response_kind = some response_kind;
  response_refs_json = some refs_json;
  completed_at = some now;
}

-- `refs_json` is `json.dumps` of the references, a mapping.
unfoldable pub complete_idempotent :
    HttpIdempotencyRecord
    → ℕ
    → Text
    → Text
    → ℕ
    → List HttpIdempotencyRecord
    → Result IdempotencyError (List HttpIdempotencyRecord)
complete_idempotent row http_status response_kind refs_json now table = do
  require (is_pending row.state) internal_error
  require (not (is_empty response_kind)) internal_error
  ok (write_row (completed_record http_status response_kind refs_json now row) table)

unfoldable pub abandon_idempotent :
    HttpIdempotencyRecord → List HttpIdempotencyRecord → List HttpIdempotencyRecord
abandon_idempotent row table = if is_pending row.state then delete_row row table else table
