-- ===== src/Preparation/Worker.antt =====
-- `SourcePreparationWorker`: the claim, the lease and one run. The session reads the operation's row
-- again at each heartbeat and after a rollback; its copy of the source is the one it began with.
use ce_local_studio.Base.{
  ℕ, ◌+◌, Bool, true, false, not, ◌&&◌, ◌||◌, Option, none, some, List, [], ◌∷◌, find, ltb, ◌==◌,
  if◌then◌else◌, ok, err,
}
use ce_local_studio.Preparation.Types.{
  PreparationType, PreparationStatus, PreparationError, source_preparation_invalid,
  PreparationOperation, SourceDocument, SourceRows, reported, stale_data, has_status_running,
  is_prepare,
}
use ce_local_studio.Preparation.Requests.{Answer, update_row}
use ce_local_studio.Preparation.Publish.{
  PreparedSource, prep_lease_current, publish_prepared_source,
}

pub record PreparationSettings : Type 0 where
  pub source_prep_worker_id : ℕ
  pub source_prep_lease_seconds : ℕ

abbrev pub find_row : ℕ → List PreparationOperation → Option PreparationOperation
find_row id = find (λ (o : PreparationOperation). o.id == id)

abbrev lapsed : Option ℕ → ℕ → Bool
lapsed none now = false
lapsed (some expires) now = ltb expires now

abbrev is_queued : PreparationStatus → Bool
is_queued PreparationStatus.queued = true
is_queued _ = false

abbrev has_type : PreparationType → PreparationOperation → Bool
has_type PreparationType.prepare operation = is_prepare operation.operation_type
has_type PreparationType.delete operation = not (is_prepare operation.operation_type)

-- The `WHERE` of the two `_claim_next_operation`.
unfoldable pub is_claimable : PreparationType → ℕ → PreparationOperation → Bool
is_claimable type now operation =
    has_type type operation
    && (is_queued operation.status
        || has_status_running operation.status && lapsed operation.lease_expires_at now)

abbrev older_of : PreparationOperation → Option PreparationOperation → PreparationOperation
older_of o none = o
older_of o (some p) =
    if ltb p.created_at o.created_at || ((p.created_at == o.created_at) && ltb p.id o.id)
    then p
    else o

unfoldable pub oldest_claimable :
    PreparationType → ℕ → List PreparationOperation → Option PreparationOperation
unfolding is_claimable
oldest_claimable type now [] = none
oldest_claimable type now (o ∷ os) =
    let rest = oldest_claimable type now os in
    if is_claimable type now o then some (older_of o rest) else rest

abbrev pub since : Option ℕ → ℕ → Option ℕ
since none now = some now
since (some began) now = some began

abbrev claimed : PreparationSettings → ℕ → PreparationOperation → PreparationOperation
claimed settings now operation = record operation {
  status = PreparationStatus.running;
  lease_owner = some settings.source_prep_worker_id;
  lease_expires_at = some (now + settings.source_prep_lease_seconds);
  started_at = since operation.started_at now;
  updated_at = now;
}

unfoldable pub claim_next_operation :
    PreparationSettings → ℕ → SourceRows → Option PreparationOperation × SourceRows
unfolding oldest_claimable
claim_next_operation settings now rows =
    elim (oldest_claimable PreparationType.prepare now rows.operations) [
      | none ↦ (none, rows)
      | some operation ↦ (
        some (claimed settings now operation),
        record rows { operations = update_row operation.id (claimed settings now) rows.operations },
      )
    ]

abbrev renewed : PreparationSettings → ℕ → PreparationOperation → PreparationOperation
renewed settings now operation = record operation {
  lease_expires_at = some (now + settings.source_prep_lease_seconds);
  updated_at = now;
}

-- `_heartbeat_prep_lease`: the row is read again, and the lease is renewed where it is held.
unfoldable pub heartbeat_prep_lease :
    PreparationSettings → ℕ → ℕ → SourceRows → Answer (Option PreparationOperation)
unfolding prep_lease_current
heartbeat_prep_lease settings now operation_id rows = elim (find_row operation_id rows.operations) [
  | none ↦ (err stale_data, rows)
  | some row ↦
      if not (prep_lease_current settings.source_prep_worker_id now row) then (ok none, rows) else (
        ok (some (renewed settings now row)),
        record rows { operations = update_row operation_id (renewed settings now) rows.operations },
      )
]

abbrev failed_row : PreparationError → ℕ → PreparationOperation → PreparationOperation
failed_row code now row = record row {
  status = PreparationStatus.failed;
  error_code = some code;
  lease_owner = none;
  lease_expires_at = none;
  finished_at = some now;
  updated_at = now;
}

-- After a rollback, `_fail_operation` where the lease is still held.
unfoldable pub fail_if_held :
    PreparationSettings → ℕ → PreparationError → ℕ → SourceRows → Answer Bool
unfolding prep_lease_current
fail_if_held settings now code operation_id rows = elim (find_row operation_id rows.operations) [
  | none ↦ (ok true, rows)
  | some row ↦
      if prep_lease_current settings.source_prep_worker_id now row
      then (
        ok true,
        record rows { operations = update_row operation_id (failed_row code now) rows.operations },
      )
      else (ok true, rows)
]

-- What the call of the parser comes to; `lost` is a lease that the heartbeat thread lost.
pub data Parsed : Type 0 where
  lost unreadable : Parsed
  parser_error : ℕ → Parsed
  parsed : PreparedSource → Parsed

-- The times of a run, the parser's answer, and what others commit during the call.
pub record PreparationRun : Type 0 where
  pub claimed_at : ℕ
  pub first_beat : ℕ
  pub second_beat : ℕ
  pub checked : ℕ
  pub finishing : ℕ
  pub answer : Parsed
  pub others : SourceRows → SourceRows

-- A publication that raises fails the operation.
abbrev pub ended : PreparationSettings → ℕ → ℕ → Answer Bool → Answer Bool
ended settings now operation_id (ok stored, rows) = (ok true, rows)
ended settings now operation_id (err raised, rows) =
    fail_if_held settings now source_preparation_invalid operation_id rows

-- A heartbeat, and what follows where the lease is held.
abbrev pub if_held :
    Answer (Option PreparationOperation)
    → (PreparationOperation → SourceRows → Answer Bool)
    → Answer Bool
if_held (err raised, rows) rest = (err raised, rows)
if_held (ok none, rows) rest = (ok true, rows)
if_held (ok (some operation), rows) rest = rest operation rows

unfoldable pub after_parse :
    PreparationSettings → PreparationRun → ℕ → SourceDocument → Parsed → SourceRows → Answer Bool
unfolding heartbeat_prep_lease fail_if_held publish_prepared_source
after_parse settings r operation_id source lost rows = (ok true, rows)
after_parse settings r operation_id source unreadable rows =
    fail_if_held settings r.checked source_preparation_invalid operation_id rows
after_parse settings r operation_id source (parser_error code) rows =
    fail_if_held settings r.checked (reported code) operation_id rows
after_parse settings r operation_id source (parsed prepared) rows =
    if_held (heartbeat_prep_lease settings r.second_beat operation_id rows) (λ operation after.
      ended settings r.finishing operation_id (
        publish_prepared_source settings.source_prep_worker_id r.checked r.finishing prepared
          (some operation) (some source) after))

-- The run of a claimed operation, with its source as the session reads it.
unfoldable pub run_claimed :
    PreparationSettings
    → PreparationRun
    → PreparationOperation
    → Option SourceDocument
    → SourceRows
    → Answer Bool
unfolding heartbeat_prep_lease after_parse
run_claimed settings r operation none rows = (ok true, rows)
run_claimed settings r operation (some source) rows =
    if_held (heartbeat_prep_lease settings r.first_beat operation.id rows)
      (λ leased after. after_parse settings r operation.id source r.answer (r.others after))

abbrev run_taken :
    PreparationSettings → PreparationRun → Option PreparationOperation → SourceRows → Answer Bool
run_taken settings r none rows = (ok false, rows)
run_taken settings r (some operation) rows = run_claimed settings r operation rows.source rows

unfoldable pub run_once : PreparationSettings → PreparationRun → SourceRows → Answer Bool
unfolding claim_next_operation run_claimed
run_once settings r rows =
    let (taken, after) = claim_next_operation settings r.claimed_at rows in
    run_taken settings r taken after
