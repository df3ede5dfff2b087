-- ===== src/Lifecycle/Create.antt =====
-- `create_domain`.
-- A request that calls the controller is two transactions: the first opens an operation, `others` is
-- what others commit during the call, and the second ends it.
use ce_local_studio.Base.{ℕ, false, not, some, is_some, Result, ◌>>◌}
use ce_local_studio.Indexing.Types.{DomainState}
use ce_local_studio.Lifecycle.Types.{
  OperationType, OperationStatus, creating_domain, domain_created, Operation, Domain, Rows,
  RuntimeControllerResult, DomainError, validation_error, operation_conflict, is_valid_domain_id,
}
use ce_local_studio.Lifecycle.Rows.{
  Outcome, insert_operation, finish_operation, raise_for_controller_result,
}
use ce_local_studio.Lifecycle.Requests.{
  Call, Preflight, raised_if, resolved, new_operation, open_operation, after_check, and_then,
}

abbrev pub new_domain : ℕ → ℕ → ℕ → ℕ → Domain
new_domain embedding extraction instance_id now = record {
  state = DomainState.stopped;
  embedding_profile_id = embedding;
  graph_extraction_profile_id = some extraction;
  indexing_ever_started = false;
  runtime_instance_id = instance_id;
  control_generation = 1;
  version = 1;
  updated_at = now;
}

-- The guards of `create_domain`, in their order.
unfoldable pub may_create : Call → Preflight → Rows → Result DomainError (Unit {0})
unfolding is_valid_domain_id
may_create call preflight rows =
    raised_if (not (is_valid_domain_id call.domain_id)) validation_error (
      raised_if (is_some rows.domain) operation_conflict
        (resolved preflight.embedding_error >> resolved preflight.extraction_error))

unfoldable pub begin_create : ℕ → ℕ → ℕ → Call → Preflight → Rows → Outcome (Domain × Operation)
unfolding may_create insert_operation
begin_create embedding extraction instance_id call preflight rows =
    after_check rows (may_create call preflight rows) (λ done.
      open_operation
        (new_operation OperationType.create OperationStatus.running creating_domain
          call.operation_id 1 call.began)
        operation_conflict (new_domain embedding extraction instance_id call.began) rows.operations
        rows)

unfoldable pub end_create :
    Call → RuntimeControllerResult → Domain × Operation → Rows → Outcome (Unit {0})
unfolding raise_for_controller_result finish_operation
end_create call result (domain, operation) rows =
    and_then (raise_for_controller_result call.checked result operation rows)
      (λ done. finish_operation call.written domain_created operation)

unfoldable pub create_domain :
    ℕ
    → ℕ
    → ℕ
    → Call
    → Preflight
    → RuntimeControllerResult
    → (Rows → Rows)
    → Rows
    → Outcome (Unit {0})
unfolding begin_create end_create
create_domain embedding extraction instance_id call preflight result others rows =
    and_then (begin_create embedding extraction instance_id call preflight rows)
      (λ opened after. end_create call result opened (others after))
