-- ===== src/Lifecycle/Control.antt =====
-- `start_domain` and `stop_domain`.
-- A request that calls the controller is two transactions: the first opens an operation, `others` is
-- what others commit during the call, and the second ends it.
use ce_local_studio.Base.{not, is_some, Result, ok, ◌>>=◌, ◌>>◌}
use ce_local_studio.Indexing.Types.{DomainState}
use ce_local_studio.Lifecycle.Types.{
  OperationType, OperationStatus, Message, starting_domain, stopping_domain, domain_started,
  domain_stopped, Operation, Domain, Rows, RuntimeControllerResult, LifecycleSettings, DomainError,
  domain_operation_in_progress, domain_state_conflict, dependency_unavailable,
  graph_extraction_profile_invalid, is_stopped, is_running, is_valid_domain_id,
}
use ce_local_studio.Lifecycle.Rows.{
  Outcome, assign_operation_lease, active_operation, insert_operation, raise_for_controller_result,
}
use ce_local_studio.Lifecycle.Transition.{apply_fenced_state_transition}
use ce_local_studio.Lifecycle.Requests.{
  Call, Preflight, raised_if, resolved, domain_or_404, ensure_no_active_operation, new_operation,
  open_operation, after_check, and_then, advance,
}

-- The new operation is leased to this process.
abbrev pub open_leased :
    LifecycleSettings
    → Call
    → OperationType
    → Message
    → Domain
    → Rows
    → Outcome (Domain × Operation)
open_leased settings call type message domain rows =
    let advanced = advance call.began domain in
    open_operation
      (assign_operation_lease settings.lifecycle_worker_id settings.lifecycle_lease_seconds
        call.began
        (new_operation type OperationStatus.running message call.operation_id
          advanced.control_generation call.began))
      domain_operation_in_progress advanced rows.operations rows

abbrev pub has_profile : Domain → Result DomainError (Unit {0})
has_profile domain =
    raised_if (not (is_some domain.graph_extraction_profile_id)) graph_extraction_profile_invalid
      (ok tt)

-- The guards of `start_domain`, in their order.
unfoldable pub may_start : Call → Preflight → Rows → Result DomainError Domain
unfolding is_valid_domain_id active_operation
may_start call preflight rows = domain_or_404 call.domain_id rows >>= λ domain.
    ensure_no_active_operation rows
    >> raised_if (not (is_stopped domain.state)) domain_state_conflict (
        resolved preflight.embedding_error
        >> has_profile domain
        >> resolved preflight.extraction_error
        >> raised_if (not preflight.sealed) dependency_unavailable (ok domain))

unfoldable pub begin_start :
    LifecycleSettings → Call → Preflight → Rows → Outcome (Domain × Operation)
unfolding may_start insert_operation
begin_start settings call preflight rows =
    after_check rows (may_start call preflight rows)
      (λ domain. open_leased settings call OperationType.start starting_domain domain rows)

unfoldable pub end_start :
    LifecycleSettings
    → Call
    → RuntimeControllerResult
    → Domain × Operation
    → Rows
    → Outcome (Unit {0})
unfolding raise_for_controller_result apply_fenced_state_transition
end_start settings call result (domain, operation) rows =
    and_then (raise_for_controller_result call.checked result operation rows) (λ done.
      apply_fenced_state_transition call.checked call.written settings.lifecycle_worker_id
        DomainState.running domain_started domain.runtime_instance_id operation)

unfoldable pub start_domain :
    LifecycleSettings
    → Call
    → Preflight
    → RuntimeControllerResult
    → (Rows → Rows)
    → Rows
    → Outcome (Unit {0})
unfolding begin_start end_start
start_domain settings call preflight result others rows =
    and_then (begin_start settings call preflight rows)
      (λ opened after. end_start settings call result opened (others after))

unfoldable pub may_stop : Call → Rows → Result DomainError Domain
unfolding is_valid_domain_id active_operation
may_stop call rows = domain_or_404 call.domain_id rows >>= λ domain.
    ensure_no_active_operation rows
    >> raised_if (not (is_running domain.state)) domain_state_conflict (ok domain)

unfoldable pub begin_stop : LifecycleSettings → Call → Rows → Outcome (Domain × Operation)
unfolding may_stop insert_operation
begin_stop settings call rows =
    after_check rows (may_stop call rows)
      (λ domain. open_leased settings call OperationType.stop stopping_domain domain rows)

unfoldable pub end_stop :
    LifecycleSettings
    → Call
    → RuntimeControllerResult
    → Domain × Operation
    → Rows
    → Outcome (Unit {0})
unfolding raise_for_controller_result apply_fenced_state_transition
end_stop settings call result (domain, operation) rows =
    and_then (raise_for_controller_result call.checked result operation rows) (λ done.
      apply_fenced_state_transition call.checked call.written settings.lifecycle_worker_id
        DomainState.stopped domain_stopped domain.runtime_instance_id operation)

unfoldable pub stop_domain :
    LifecycleSettings → Call → RuntimeControllerResult → (Rows → Rows) → Rows → Outcome (Unit {0})
unfolding begin_stop end_stop
stop_domain settings call result others rows =
    and_then (begin_stop settings call rows)
      (λ opened after. end_stop settings call result opened (others after))
