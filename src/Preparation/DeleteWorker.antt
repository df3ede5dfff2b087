-- ===== src/Preparation/DeleteWorker.antt =====
-- `SourceDeleteWorker`: the removal of a source, its index and its files. The clean-up of the index
-- (`cleanup_index_before_source_delete`, see Indexing) is an argument: what it and others commit
-- meanwhile, and the copy of the source that the session then holds.
use ce_local_studio.Base.{
  ℕ, ◌+◌, Bool, true, false, not, ◌||◌, Option, none, some, [], ◌==◌, if◌then◌else◌, Result, ok,
  err,
}
use ce_local_studio.Preparation.Types.{
  PreparationType, PreparationStatus, PreparationError, source_delete_failed, PreparationOperation,
  SourceDocument, SourceRows, stale_data, is_deleting,
}
use ce_local_studio.Preparation.Requests.{Answer, update_row}
use ce_local_studio.Preparation.Publish.{prep_lease_current, succeeded_row}
use ce_local_studio.Preparation.Worker.{
  PreparationSettings, find_row, since, oldest_claimable, heartbeat_prep_lease, fail_if_held,
  if_held,
}

pub record DeleteSettings : Type 0 where
  pub source_delete_worker_id : ℕ
  pub source_delete_lease_seconds : ℕ

-- The owner and the seconds of a lease.
abbrev as_lease : DeleteSettings → PreparationSettings
as_lease settings = record {
  source_prep_worker_id = settings.source_delete_worker_id;
  source_prep_lease_seconds = settings.source_delete_lease_seconds;
}

abbrev claimed_delete : DeleteSettings → ℕ → PreparationOperation → PreparationOperation
claimed_delete settings now operation = record operation {
  status = PreparationStatus.running;
  lease_owner = some settings.source_delete_worker_id;
  lease_expires_at = some (now + settings.source_delete_lease_seconds);
  started_at = since operation.started_at now;
  error_code = none;
  finished_at = none;
  updated_at = now;
}

unfoldable pub claim_next_delete :
    DeleteSettings → ℕ → SourceRows → Option PreparationOperation × SourceRows
unfolding oldest_claimable
claim_next_delete settings now rows =
    elim (oldest_claimable PreparationType.delete now rows.operations) [
      | none ↦ (none, rows)
      | some operation ↦ (
        some (claimed_delete settings now operation),
        record rows {
          operations = update_row operation.id (claimed_delete settings now) rows.operations;
        },
      )
    ]

-- The times of a run, and what happens during it.
pub record DeleteRun : Type 0 where
  pub claimed_at : ℕ
  pub first_beat : ℕ
  pub second_beat : ℕ
  pub checked : ℕ
  pub finishing : ℕ
  pub cleanup_index :
      SourceDocument → SourceRows → Result PreparationError SourceDocument × SourceRows
  pub files_removed : Bool
  pub others : SourceRows → SourceRows

abbrev pub superseded_row : ℕ → PreparationOperation → PreparationOperation
superseded_row now row = record row {
  status = PreparationStatus.cancelled;
  lease_owner = none;
  lease_expires_at = none;
  finished_at = some now;
  updated_at = now;
}

-- A write to the operation's row, which raises where the row is gone.
abbrev pub write_operation :
    ℕ → (PreparationOperation → PreparationOperation) → SourceRows → Answer Bool
write_operation id change rows = elim (find_row id rows.operations) [
  | none ↦ (err stale_data, rows)
  | some row ↦ (ok true, record rows { operations = update_row id change rows.operations })
]

-- The end of a run: the checks read the copies that the session holds, and the source's row takes its
-- operations with it.
unfoldable pub finish_delete :
    DeleteSettings → ℕ → ℕ → ℕ → PreparationOperation → SourceDocument → SourceRows → Answer Bool
unfolding prep_lease_current
finish_delete settings checked now generation operation source rows =
    if not (prep_lease_current settings.source_delete_worker_id checked operation)
    then (ok true, rows)
    else if not (is_deleting source.state) || not (source.preparation_generation == generation)
    then write_operation operation.id (superseded_row now) rows
    else (ok true, record { source = none; operations = [] })

unfoldable pub after_cleanup :
    DeleteSettings
    → DeleteRun
    → PreparationOperation
    → Result PreparationError SourceDocument × SourceRows
    → Answer Bool
unfolding heartbeat_prep_lease fail_if_held finish_delete
after_cleanup settings r operation (err code, rows) =
    fail_if_held (as_lease settings) r.checked code operation.id rows
after_cleanup settings r operation (ok source, rows) =
    if_held (heartbeat_prep_lease (as_lease settings) r.second_beat operation.id rows)
      (λ leased after.
        if r.files_removed
        then finish_delete settings r.checked r.finishing operation.preparation_generation_at_start
            leased source (r.others after)
        else fail_if_held (as_lease settings) r.checked source_delete_failed operation.id
            (r.others after))

-- The run of a claimed operation, with its source as the session reads it.
unfoldable pub run_claimed_delete :
    DeleteSettings
    → DeleteRun
    → PreparationOperation
    → Option SourceDocument
    → SourceRows
    → Answer Bool
unfolding prep_lease_current heartbeat_prep_lease after_cleanup
run_claimed_delete settings r operation none rows =
    if not (prep_lease_current settings.source_delete_worker_id r.checked operation)
    then (ok true, rows)
    else write_operation operation.id (succeeded_row r.finishing) rows
run_claimed_delete settings r operation (some source) rows =
    if_held (heartbeat_prep_lease (as_lease settings) r.first_beat operation.id rows)
      (λ leased after. after_cleanup settings r operation (r.cleanup_index source after))

abbrev run_taken_delete :
    DeleteSettings → DeleteRun → Option PreparationOperation → SourceRows → Answer Bool
run_taken_delete settings r none rows = (ok false, rows)
run_taken_delete settings r (some operation) rows =
    run_claimed_delete settings r operation rows.source rows

unfoldable pub run_delete_once : DeleteSettings → DeleteRun → SourceRows → Answer Bool
unfolding claim_next_delete run_claimed_delete
run_delete_once settings r rows =
    let (taken, after) = claim_next_delete settings r.claimed_at rows in
    run_taken_delete settings r taken after
