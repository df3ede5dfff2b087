-- ===== src/Lifecycle/DeleteWorker.antt =====
-- `DomainDeleteWorker`: the claim of a queued delete, or of one whose lease has lapsed, and the run
-- that removes the domain. The worker's own `operation` and `domain` are copies: `db.refresh` and a
-- rollback read a row again, `db.get` returns the copy that the session holds.
use ce_local_studio.Base.{
  ℕ, Bool, true, false, not, ◌&&◌, ◌||◌, Option, none, some, List, [], ◌∷◌, if◌then◌else◌, ltb,
  ◌==◌, or_else, find, ok, err,
}
use ce_local_studio.Lifecycle.Types.{
  OperationType, OperationStatus, OperationError, Message, reconciling_uncertain_delete,
  removing_runtime, already_removed, not_removed, source_not_removed, delete_superseded, Operation,
  Domain, Rows, ControllerOutcome, RuntimeControllerResult, RuntimeHealth, LifecycleSettings,
  is_type, reported, safe, stale_data,
}
use ce_local_studio.Lifecycle.Rows.{
  Outcome, giving, assign_operation_lease, operation_lease_current, heartbeat_operation_lease,
  write, update_row, finish_operation, cancel_operation, fail_operation, mark_operation_uncertain,
  code_or,
}
use ce_local_studio.Lifecycle.Requests.{and_then}
use ce_local_studio.Lifecycle.Reconcile.{
  older, has_running_status, message_uncertain, reconcile_uncertain_lifecycle_operations,
}

abbrev pub is_queued : OperationStatus → Bool
is_queued OperationStatus.queued = true
is_queued _ = false

abbrev pub lapsed : Option ℕ → ℕ → Bool
lapsed none now = false
lapsed (some expires) now = ltb expires now

-- The `WHERE` of `_claim_next_operation`.
unfoldable pub is_claimable : ℕ → Operation → Bool
is_claimable now operation =
    is_type OperationType.delete operation
    && (is_queued operation.status
        || has_running_status operation.status && lapsed operation.lease_expires_at now)

abbrev pub older_of : Operation → Option Operation → Operation
older_of o none = o
older_of o (some p) = if older p o then p else o

-- `ORDER BY created_at, id`, the first row.
unfoldable pub oldest_claimable : ℕ → List Operation → Option Operation
unfolding is_claimable
oldest_claimable now [] = none
oldest_claimable now (o ∷ os) =
    let rest = oldest_claimable now os in
    if is_claimable now o then some (older_of o rest) else rest

abbrev since : Option ℕ → ℕ → Option ℕ
since none now = some now
since (some began) now = some began

abbrev claim_message : Bool → Message
claim_message true = reconciling_uncertain_delete
claim_message false = removing_runtime

unfoldable pub claimed : (ℕ → Bool) → LifecycleSettings → ℕ → Operation → Operation
claimed says settings now operation =
    record (assign_operation_lease settings.delete_worker_id settings.delete_lease_seconds now
      operation) {
        status = OperationStatus.running;
        started_at = since operation.started_at now;
        message = some (claim_message (message_uncertain says operation.message));
      }

unfoldable pub claim_next_operation :
    (ℕ → Bool) → LifecycleSettings → ℕ → Rows → Option Operation × Rows
unfolding oldest_claimable claimed
claim_next_operation says settings now rows = elim (oldest_claimable now rows.operations) [
  | none ↦ (none, rows)
  | some operation ↦ (
    some (claimed says settings now operation),
    record rows {
      operations = update_row operation.id (claimed says settings now) rows.operations;
    },
  )
]

abbrev pub renewed_row : ℕ → Option ℕ → Operation → Operation
renewed_row now expires row = record row { lease_expires_at = expires; updated_at = now }

-- The renewed lease is committed; `none` is a lease that is lost.
unfoldable pub commit_renewed : ℕ → Operation → Rows → Option Operation → Outcome (Option Operation)
unfolding write
commit_renewed now copy rows none = (ok none, rows)
commit_renewed now copy rows (some renewed) =
    giving (some renewed) (write copy (renewed_row now renewed.lease_expires_at) rows)

-- The copy with its lease renewed, where the copy still holds it.
unfoldable pub heartbeat : LifecycleSettings → ℕ → Operation → Rows → Outcome (Option Operation)
unfolding heartbeat_operation_lease commit_renewed
heartbeat settings now copy rows =
    commit_renewed now copy rows
      (heartbeat_operation_lease settings.delete_worker_id settings.delete_lease_seconds now copy)

abbrev pub find_row : ℕ → List Operation → Option Operation
find_row id = find (λ (o : Operation). o.id == id)

-- `_lease_still_owned`: the copy is read again first.
unfoldable pub lease_still_owned : LifecycleSettings → ℕ → Operation → Rows → Outcome Bool
unfolding operation_lease_current
lease_still_owned settings now copy rows = elim (find_row copy.id rows.operations) [
  | none ↦ (err stale_data, rows)
  | some row ↦ (ok (operation_lease_current settings.delete_worker_id now row), rows)
]

-- After a rollback, the operation is failed where it is still there and leased to this worker.
unfoldable pub fail_if_owned :
    LifecycleSettings → ℕ → OperationError → Message → Operation → Rows → Outcome Bool
unfolding operation_lease_current fail_operation
fail_if_owned settings now code message copy rows = elim (find_row copy.id rows.operations) [
  | none ↦ (ok true, rows)
  | some fresh ↦
      if operation_lease_current settings.delete_worker_id now fresh
      then giving true (fail_operation now code message fresh rows)
      else (ok true, rows)
]

unfoldable pub uncertain_if_there : ℕ → RuntimeControllerResult → Operation → Rows → Outcome Bool
unfolding mark_operation_uncertain
uncertain_if_there now result copy rows = elim (find_row copy.id rows.operations) [
  | none ↦ (ok true, rows)
  | some fresh ↦ giving true (mark_operation_uncertain now result fresh rows)
]

-- `db.delete(current)`: the domain's operations go with its row.
abbrev pub remove_domain : Rows → Rows
remove_domain rows = record { domain = none; operations = [] }

-- What `purge_domain_sources_local` does: it returns, or raises one of two errors.
pub data Purged : Type 0 where
  purged storage_error : Purged
  index_error : ℕ → ℕ → Purged

-- The times of a run and what it finds outside these rows; `others` is what others commit between
-- its transactions.
pub record Removal : Type 0 where
  pub first_beat : ℕ
  pub second_beat : ℕ
  pub third_beat : ℕ
  pub ending : ℕ
  pub purge : Purged
  pub result : RuntimeControllerResult
  pub others : Rows → Rows

-- The end of a run whose resources are gone.
unfoldable pub remove : LifecycleSettings → Removal → Domain → Operation → Rows → Outcome Bool
unfolding lease_still_owned cancel_operation
remove settings r domain copy rows =
    and_then (lease_still_owned settings r.ending copy rows) (λ owned after.
      if not owned
      then (ok true, after)
      else if not (domain.control_generation == copy.control_generation_at_start)
      then giving true (cancel_operation r.ending delete_superseded copy after)
      else (ok true, remove_domain after))

unfoldable pub after_delete : LifecycleSettings → Removal → Domain → Operation → Rows → Outcome Bool
unfolding uncertain_if_there fail_if_owned remove
after_delete settings r domain copy rows = elim r.result.outcome [
  | ControllerOutcome.uncertain ↦ uncertain_if_there r.ending r.result copy rows
  | ControllerOutcome.failed ↦
      fail_if_owned settings r.ending
        (code_or r.result.safe_code OperationError.domain_runtime_unavailable)
        (or_else r.result.message not_removed) copy rows
  | ControllerOutcome.succeeded ↦ remove settings r domain copy rows
]

-- A heartbeat, and the rest of the run where the lease is held.
unfoldable pub if_held :
    LifecycleSettings → ℕ → Operation → Rows → (Operation → Rows → Outcome Bool) → Outcome Bool
unfolding heartbeat
if_held settings now copy rows rest =
    and_then (heartbeat settings now copy rows)
      (λ held after. elim held [ none ↦ (ok true, after) | some renewed ↦ rest renewed after ])

unfoldable pub after_purge : LifecycleSettings → Removal → Domain → Operation → Rows → Outcome Bool
unfolding if_held after_delete fail_if_owned
after_purge settings r domain copy rows = elim r.purge [
  | purged ↦
      if_held settings r.third_beat copy rows
        (λ leased after. after_delete settings r domain leased (r.others after))
  | index_error code text ↦ fail_if_owned settings r.ending (safe code) (reported text) copy rows
  | storage_error ↦
      fail_if_owned settings r.ending OperationError.source_delete_failed source_not_removed copy
        rows
]

-- The run of a claimed operation whose domain is there: turns are redacted, sources purged and the
-- runtime's resources deleted, with a heartbeat before each.
unfoldable pub run_removal : LifecycleSettings → Removal → Domain → Operation → Rows → Outcome Bool
unfolding if_held after_purge
run_removal settings r domain copy rows = if_held settings r.first_beat copy rows (λ first after.
    if_held settings r.second_beat first (r.others after)
      (λ second afterwards. after_purge settings r domain second (r.others afterwards)))

-- A claimed operation whose domain is gone is finished.
unfoldable pub run_for :
    LifecycleSettings → Removal → Operation → Rows → Option Domain → Outcome Bool
unfolding run_removal lease_still_owned finish_operation
run_for settings r copy rows none =
    and_then (lease_still_owned settings r.ending copy rows) (λ owned after.
      if not owned
      then (ok true, after)
      else giving true (finish_operation r.ending already_removed copy after))
run_for settings r copy rows (some domain) = run_removal settings r domain copy rows

unfoldable pub run_claimed : LifecycleSettings → Removal → Operation → Rows → Outcome Bool
unfolding run_for
run_claimed settings r copy rows = run_for settings r copy rows rows.domain

-- One pass of the worker over the rows of a domain id: whether it found work.
unfoldable pub run_once :
    (ℕ → Bool)
    → LifecycleSettings
    → ℕ
    → ℕ
    → (Operation → RuntimeHealth)
    → Removal
    → Rows
    → Outcome Bool
unfolding reconcile_uncertain_lifecycle_operations claim_next_operation run_claimed
run_once says settings now written health r rows =
    and_then (reconcile_uncertain_lifecycle_operations says settings now written health rows)
      (λ resolved reconciled.
        let (taken, after) = claim_next_operation says settings written reconciled in
        elim taken [
          | none ↦ (ok false, after)
          | some operation ↦ run_claimed settings r operation after
        ])
