-- ===== src/Lifecycle/Unresolved.antt =====
-- Reconciliation finds an uncertain operation by the word `uncertain` in its message; the message of a
-- controller that timed out does not have it.
use ce_local_studio.Base.{
  ℕ, ◌≡◌, refl, Bool, true, false, none, some, List, [], ◌∷◌, ◌++◌, arith, inl, inr, ok, err,
  Bool-cases, is_some, eqb_refl, select,
}
use ce_local_studio.Lifecycle.Types.{
  Message, Operation, Domain, Rows, LifecycleSettings, RuntimeControllerResult, RuntimeHealth,
  ControllerOutcome, DomainError, is_active,
}
use ce_local_studio.Lifecycle.Rows.{
  active_operation, has_row, write, mark_operation_uncertain, raise_for_controller_result,
}
use ce_local_studio.Lifecycle.Requests.{Call, Preflight, advance, and_then}
use ce_local_studio.Lifecycle.Control.{may_start, end_start, start_domain}
use ce_local_studio.Lifecycle.Reconcile.{
  is_uncertain_lifecycle, reconcile_all, reconcile_uncertain_lifecycle_operations,
}
use ce_local_studio.Lifecycle.Undisturbed.{
  NoneActive, inactive, may_start-idle, begin_start-opens, start_row, has_row-append,
  update_row-append,
}

select-append :
    (p : Operation → Bool) (os : List Operation) (o : Operation)
    → select p os ≡ []
    → p o ≡ false
    → select p (os ++ o ∷ []) ≡ []
select-append p [] o h n = rw n
select-append p (x ∷ os) o h n = elim (Bool-cases (p x)) [
  | inl e ↦ ground (arith, e, h)
  | inr e ↦ rw e (select-append p os o (rw e at h) n)
]

-- Where no operation is active, the query finds none.
unselected :
    (says : ℕ → Bool) (os : List Operation)
    → NoneActive os
    → select (is_uncertain_lifecycle says) os ≡ []
unfolding is_uncertain_lifecycle
unselected says [] n = refl
unselected says (o ∷ os) n = ground (arith, unselected says os, n)

-- The operation that a timed-out start leaves.
abbrev left_row : LifecycleSettings → Call → Domain → Operation
left_row settings call d = record (start_row settings call d) {
  message = some Message.unknown_remote_outcome;
  updated_at = call.checked;
  version = 2;
}

timed_out_rows :
    (settings : LifecycleSettings) (call : Call) (preflight : Preflight)
    (result : RuntimeControllerResult) (rows : Rows) (d : Domain)
    → may_start call preflight rows ≡ ok d
    → has_row call.operation_id rows.operations ≡ false
    → result.outcome ≡ ControllerOutcome.uncertain
    → result.message ≡ some Message.unknown_remote_outcome
    → start_domain settings call preflight result (λ x. x) rows ≡ (
      err DomainError.dependency_unavailable,
      record {
        domain = some (advance call.began d);
        operations = rows.operations ++ left_row settings call d ∷ [];
      },
    )
unfolding start_domain end_start raise_for_controller_result mark_operation_uncertain write
timed_out_rows settings call preflight result rows d m h o t =
    let opened = start_row settings call d in
    rw (
      begin_start-opens settings call preflight rows d m h,
      and_then,
      o,
      t,
      has_row-append call.operation_id rows.operations opened (eqb_refl call.operation_id),
      update_row-append call.operation_id
          (λ row. record row {
            message = some Message.unknown_remote_outcome;
            error_code = none;
            updated_at = call.checked;
            version = 2;
          })
          rows.operations opened h (eqb_refl call.operation_id),
    )

active-append :
    (os : List Operation) (o : Operation)
    → is_active o.status ≡ true
    → is_some (active_operation (os ++ o ∷ [])) ≡ true
unfolding active_operation
active-append [] o a = rw a
active-append (p ∷ os) o a = ground (arith, active-append os o a)

-- A start whose call of the controller times out fails with `dependency_unavailable` and leaves its
-- operation running, and no pass of the reconciliation finds it: whatever the runtime's health, the
-- rows stay as they are. The guards of the start let it through, its operation's id is fresh and nobody
-- disturbs it.
pub timed_out_start_unreconciled :
    (says : ℕ → Bool) (settings : LifecycleSettings) (call : Call) (preflight : Preflight)
    (result : RuntimeControllerResult) (rows : Rows) (d : Domain) (now written : ℕ)
    (health : Operation → RuntimeHealth)
    → may_start call preflight rows ≡ ok d
    → has_row call.operation_id rows.operations ≡ false
    → result.outcome ≡ ControllerOutcome.uncertain
    → result.message ≡ some Message.unknown_remote_outcome
    → let (answer, after) = start_domain settings call preflight result (λ x. x) rows in
      (answer ≡ err DomainError.dependency_unavailable)
      × (is_some (active_operation after.operations) ≡ true)
      × (reconcile_uncertain_lifecycle_operations says settings now written health after
          ≡ (ok 0, after))
unfolding reconcile_uncertain_lifecycle_operations reconcile_all is_uncertain_lifecycle
timed_out_start_unreconciled says settings call preflight result rows d now written health m h o t =
    let idle = inactive rows.operations (may_start-idle call preflight rows m) in
    rw (timed_out_rows settings call preflight result rows d m h o t) (
      refl,
      active-append rows.operations (left_row settings call d) refl,
      rw (
          select-append (is_uncertain_lifecycle says) rows.operations (left_row settings call d)
            (unselected says rows.operations idle) refl),
    )
