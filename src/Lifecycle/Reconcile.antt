-- ===== src/Lifecycle/Reconcile.antt =====
-- `reconcile_uncertain_lifecycle_operations`: starts and stops whose outcome was uncertain are ended
-- by what the runtime's health shows.
use ce_local_studio.Base.{
  ℕ, ◌+◌, ◌==◌, ltb, Bool, true, false, not, ◌&&◌, ◌||◌, Option, none, some, List, [], ◌∷◌,
  if◌then◌else◌, ok, select, take,
}
use ce_local_studio.Indexing.Types.{DomainState}
use ce_local_studio.Lifecycle.Types.{
  OperationType, OperationStatus, OperationError, Message, domain_removed, stale_reconciliation,
  started_after, stopped_after, not_ready_after, Operation, Domain, Rows, ControllerOutcome,
  RuntimeHealth, LifecycleSettings, is_type, mentions_uncertain,
}
use ce_local_studio.Lifecycle.Rows.{
  Outcome, giving, assign_operation_lease, write, cancel_operation, fail_operation,
}
use ce_local_studio.Lifecycle.Requests.{and_then}
use ce_local_studio.Lifecycle.Transition.{apply_fenced_state_transition}

abbrev pub has_running_status : OperationStatus → Bool
has_running_status OperationStatus.running = true
has_running_status _ = false

abbrev pub message_uncertain : (ℕ → Bool) → Option Message → Bool
message_uncertain says none = false
message_uncertain says (some message) = mentions_uncertain says message

-- The `WHERE` of the query.
unfoldable pub is_uncertain_lifecycle : (ℕ → Bool) → Operation → Bool
is_uncertain_lifecycle says operation =
    (is_type OperationType.start operation || is_type OperationType.stop operation)
    && has_running_status operation.status
    && message_uncertain says operation.message

abbrev pub is_uncertain_outcome : ControllerOutcome → Bool
is_uncertain_outcome ControllerOutcome.uncertain = true
is_uncertain_outcome _ = false

-- The lease is committed on its own.
unfoldable pub renew : LifecycleSettings → ℕ → Operation → Rows → Outcome (Unit {0})
unfolding write
renew settings now copy =
    write copy
      (assign_operation_lease settings.lifecycle_worker_id settings.lifecycle_lease_seconds now)

-- The lease is taken and committed; the transition then has the leased copy.
unfoldable pub settle :
    LifecycleSettings → ℕ → ℕ → DomainState → Message → ℕ → Operation → Rows → Outcome Bool
unfolding renew apply_fenced_state_transition
settle settings now written target success runtime_instance_id copy rows = giving true (
    and_then (renew settings now copy rows) (λ done.
      apply_fenced_state_transition written written settings.lifecycle_worker_id target success
        runtime_instance_id
        (assign_operation_lease settings.lifecycle_worker_id settings.lifecycle_lease_seconds now
          copy)))

-- The body of the loop after the probe, by the type of the operation.
unfoldable pub after_probe :
    LifecycleSettings → ℕ → ℕ → RuntimeHealth → Domain → Operation → Rows → Outcome Bool
unfolding renew settle fail_operation
after_probe settings now written health domain copy rows =
    if is_uncertain_outcome health.outcome
    then giving false (renew settings now copy rows)
    else if is_type OperationType.start copy
    then (if health.healthy
        then settle settings now written DomainState.running started_after
            domain.runtime_instance_id copy rows
        else giving true (
            fail_operation written OperationError.dependency_unavailable not_ready_after copy rows))
    else if is_type OperationType.stop copy
    then (if not health.healthy
        then settle settings now written DomainState.stopped stopped_after
            domain.runtime_instance_id copy rows
        else giving false (renew settings now copy rows))
    else (ok false, rows)

-- The body of the loop for one operation.
unfoldable pub reconcile_operation :
    LifecycleSettings → ℕ → ℕ → RuntimeHealth → Operation → Rows → Outcome Bool
unfolding after_probe cancel_operation
reconcile_operation settings now written health copy rows = elim rows.domain [
  | none ↦ giving true (cancel_operation written domain_removed copy rows)
  | some domain ↦
      if not (domain.control_generation == copy.control_generation_at_start)
      then giving true (cancel_operation written stale_reconciliation copy rows)
      else after_probe settings now written health domain copy rows
]

abbrev pub one_more : Bool → ℕ → ℕ
one_more resolved count = if resolved then count + 1 else count

unfoldable pub reconcile_all :
    LifecycleSettings → ℕ → ℕ → (Operation → RuntimeHealth) → List Operation → ℕ → Rows → Outcome ℕ
unfolding reconcile_operation
reconcile_all settings now written health [] count rows = (ok count, rows)
reconcile_all settings now written health (o ∷ os) count rows =
    and_then (reconcile_operation settings now written (health o) o rows)
      (λ resolved. reconcile_all settings now written health os (one_more resolved count))

-- `ORDER BY created_at, id`
abbrev pub older : Operation → Operation → Bool
older a b = ltb a.created_at b.created_at || (a.created_at == b.created_at) && ltb a.id b.id

abbrev pub insert_in_order : Operation → List Operation → List Operation
insert_in_order o [] = o ∷ []
insert_in_order o (p ∷ ps) =
    let rest = insert_in_order o ps in if older p o then p ∷ rest else o ∷ p ∷ ps

abbrev pub in_order : List Operation → List Operation
in_order [] = []
in_order (o ∷ os) = insert_in_order o (in_order os)

-- The operations of one domain id; `health` is what the controller's probe answers for each.
unfoldable pub reconcile_uncertain_lifecycle_operations :
    (ℕ → Bool) → LifecycleSettings → ℕ → ℕ → (Operation → RuntimeHealth) → Rows → Outcome ℕ
unfolding is_uncertain_lifecycle reconcile_all
reconcile_uncertain_lifecycle_operations says settings now written health rows =
    reconcile_all settings now written health
      (take 20 (in_order (select (is_uncertain_lifecycle says) rows.operations))) 0 rows
