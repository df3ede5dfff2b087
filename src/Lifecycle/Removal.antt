-- ===== src/Lifecycle/Removal.antt =====
-- `enqueue_delete_domain` and `assign_graph_extraction_profile`, each one transaction. The redaction
-- of the domain's turns, in the same transaction, is in Turn/Redact.antt.
use ce_local_studio.Base.{
  ℕ, ◌+◌, Bool, not, ◌||◌, Option, none, some, List, is_some, Result, ok, ◌>>=◌, ◌>>◌,
}
use ce_local_studio.Indexing.Types.{DomainState}
use ce_local_studio.Lifecycle.Types.{
  OperationType, OperationStatus, Message, delete_queued, superseded_by_delete, Operation, Domain,
  Rows, DomainError, domain_operation_in_progress, domain_state_conflict,
  graph_extraction_assignment_ineligible, is_type, is_stopped, is_valid_domain_id,
}
use ce_local_studio.Lifecycle.Rows.{Outcome, active_operation, insert_operation, update_row, ended}
use ce_local_studio.Lifecycle.Requests.{
  Call, raised_if, resolved, domain_or_404, require_domain_version, new_operation, open_operation,
  after_check, advance,
}

abbrev pub cancelled_row : Message → Operation → ℕ → Operation → Operation
cancelled_row message active now row =
    record (ended OperationStatus.cancelled message none active now row) {
      lease_owner = none;
      lease_expires_at = none;
    }

-- The operation that is under way is cancelled, unless it is a delete.
unfoldable pub cancel_active_lifecycle_operation :
    ℕ → Message → List Operation → Result DomainError (List Operation)
unfolding active_operation
cancel_active_lifecycle_operation now message operations = elim (active_operation operations) [
  | none ↦ ok operations
  | some active ↦
      raised_if (is_type OperationType.delete active) domain_operation_in_progress
        (ok (update_row active.id (cancelled_row message active now) operations))
]

-- The guards of the delete, the domain and the operations it goes on with.
unfoldable pub may_delete : Call → ℕ → Rows → Result DomainError (Domain × List Operation)
unfolding is_valid_domain_id cancel_active_lifecycle_operation
may_delete call expected_version rows = domain_or_404 call.domain_id rows >>= λ domain.
    require_domain_version domain expected_version
    >> cancel_active_lifecycle_operation call.began superseded_by_delete rows.operations
    >>= λ operations. ok (domain, operations)

unfoldable pub enqueue_delete_domain : Call → ℕ → Rows → Outcome (Domain × Operation)
unfolding may_delete insert_operation
enqueue_delete_domain call expected_version rows =
    after_check rows (may_delete call expected_version rows) (λ (domain, operations).
      let doomed = record (advance call.began domain) { state = DomainState.deleting } in
      open_operation
        (new_operation OperationType.delete OperationStatus.queued delete_queued call.operation_id
          doomed.control_generation call.written)
        domain_operation_in_progress doomed operations rows)

abbrev is_assigned : Domain → Bool
is_assigned domain = domain.indexing_ever_started || is_some domain.graph_extraction_profile_id

-- The checks before the profile is resolved, and those on the locked row.
unfoldable pub may_assign : Call → ℕ → Option ℕ → Rows → Result DomainError Domain
unfolding is_valid_domain_id
may_assign call expected_version extraction_error rows =
    domain_or_404 call.domain_id rows >>= λ domain.
    require_domain_version domain expected_version
    >> raised_if (not (is_stopped domain.state)) domain_state_conflict (
        raised_if (is_assigned domain) graph_extraction_assignment_ineligible (
          resolved extraction_error
          >> (domain_or_404 call.domain_id rows >>= λ locked.
              require_domain_version locked expected_version
              >> raised_if (not (is_stopped locked.state) || is_assigned locked)
                  graph_extraction_assignment_ineligible (ok locked))))

unfoldable pub assign_graph_extraction_profile : Call → ℕ → ℕ → Option ℕ → Rows → Outcome Domain
unfolding may_assign
assign_graph_extraction_profile call profile_id expected_version extraction_error rows =
    after_check rows (may_assign call expected_version extraction_error rows) (λ locked.
      let assigned = record locked {
        graph_extraction_profile_id = some profile_id;
        version = locked.version + 1;
        updated_at = call.written;
      } in
      (ok assigned, record rows { domain = some assigned }))
