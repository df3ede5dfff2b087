-- ===== src/Lifecycle/Undisturbed.antt =====
-- A start that nobody disturbs.
use ce_local_studio.Base.{
  ℕ, ◌+◌, ◌≤◌, ◌≡◌, refl, ap, Bool, true, false, none, some, List, [], ◌∷◌, ◌++◌, arith, ◌==◌,
  if◌then◌else◌, inl, inr, ok, Bool-cases, any, is_some, eqb_refl,
}
use ce_local_studio.Indexing.Types.{DomainState}
use ce_local_studio.Lifecycle.Types.{
  OperationType, OperationStatus, Message, Operation, Domain, Rows, LifecycleSettings,
  RuntimeControllerResult, ControllerOutcome, is_active,
}
use ce_local_studio.Lifecycle.Rows.{
  active_operation, has_row, update_row, insert_operation, write, operation_lease_current,
  assign_operation_lease, raise_for_controller_result,
}
use ce_local_studio.Lifecycle.Transition.{
  update_domain_state_if_current, apply_fenced_state_transition,
}
use ce_local_studio.Lifecycle.Requests.{
  Call, Preflight, new_operation, open_operation, advance, and_then,
}
use ce_local_studio.Lifecycle.Control.{may_start, begin_start, end_start, start_domain, open_leased}
use ce_local_studio.Lifecycle.Views.{domain_available}
use ce_local_studio.Lifecycle.Fence.{with_state, succeeded_row}

abbrev pub NoneActive : List Operation → Type 0
NoneActive os = any (λ (o : Operation). is_active o.status) os ≡ false

pub inactive : (os : List Operation) → is_some (active_operation os) ≡ false → NoneActive os
unfolding active_operation
inactive [] h = refl
inactive (o ∷ os) h = ground (arith, inactive os, h)

pub active_operation-none : (os : List Operation) → NoneActive os → active_operation os ≡ none
unfolding active_operation
active_operation-none [] h = refl
active_operation-none (o ∷ os) h = ground (arith, active_operation-none os, h)

pub update_row-append :
    (id : ℕ) (change : Operation → Operation) (os : List Operation) (new : Operation)
    → has_row id os ≡ false
    → (new.id == id) ≡ true
    → update_row id change (os ++ new ∷ []) ≡ os ++ change new ∷ []
update_row-append id change [] new h e = rw e
update_row-append id change (o ∷ os) new h e = elim (Bool-cases (o.id == id)) [
  | inl f ↦ ground (arith, f, h)
  | inr f ↦ rw (f, update_row-append id change os new (rw f at h) e)
]

pub has_row-append :
    (id : ℕ) (os : List Operation) (new : Operation)
    → (new.id == id) ≡ true
    → has_row id (os ++ new ∷ []) ≡ true
has_row-append id [] new e = rw e
has_row-append id (o ∷ os) new e = ground (arith, has_row-append id os new e)

pub may_start-idle :
    (call : Call) (preflight : Preflight) (rows : Rows) {d : Domain}
    → may_start call preflight rows ≡ ok d
    → is_some (active_operation rows.operations) ≡ false
unfolding may_start
may_start-idle call preflight rows h = ground (arith, h)

pub insert_operation-fresh :
    (new : Operation) (os : List Operation)
    → has_row new.id os ≡ false
    → NoneActive os
    → insert_operation new os ≡ some (os ++ new ∷ [])
unfolding insert_operation
insert_operation-fresh new os h n = elim (Bool-cases (is_active new.status)) [
  | inl a ↦ rw (h, a, n)
  | inr a ↦ rw (h, a)
]

-- The row that a start opens.
abbrev pub start_row : LifecycleSettings → Call → Domain → Operation
start_row settings call d =
    assign_operation_lease settings.lifecycle_worker_id settings.lifecycle_lease_seconds call.began
      (new_operation OperationType.start OperationStatus.running Message.starting_domain
        call.operation_id (d.control_generation + 1) call.began)

-- The row that a stop opens.
abbrev pub stop_row : LifecycleSettings → Call → Domain → Operation
stop_row settings call d =
    assign_operation_lease settings.lifecycle_worker_id settings.lifecycle_lease_seconds call.began
      (new_operation OperationType.stop OperationStatus.running Message.stopping_domain
        call.operation_id (d.control_generation + 1) call.began)

-- A start that its guards let through, with a fresh id, opens its operation.
pub begin_start-opens :
    (settings : LifecycleSettings) (call : Call) (preflight : Preflight) (rows : Rows) (d : Domain)
    → may_start call preflight rows ≡ ok d
    → has_row call.operation_id rows.operations ≡ false
    → begin_start settings call preflight rows ≡ (
      ok (advance call.began d, start_row settings call d),
      record {
        domain = some (advance call.began d);
        operations = rows.operations ++ start_row settings call d ∷ [];
      },
    )
unfolding begin_start
begin_start-opens settings call preflight rows d m h = rw (
  m,
  insert_operation-fresh (start_row settings call d) rows.operations h
      (inactive rows.operations (may_start-idle call preflight rows m)),
  open_operation,
  open_leased,
)

lease_held :
    (owner until now : ℕ) (o : Operation)
    → o.lease_owner ≡ some owner
    → o.lease_expires_at ≡ some until
    → now ≤ until
    → operation_lease_current owner now o ≡ true
unfolding operation_lease_current
lease_held owner until now o e f h = ground (arith, e, f, h)

-- The end of a start whose row and domain are as it left them.
end_start-undisturbed :
    (settings : LifecycleSettings) (call : Call) (result : RuntimeControllerResult) (d : Domain)
    (os : List Operation)
    → result.outcome ≡ ControllerOutcome.succeeded
    → call.checked ≤ call.began + settings.lifecycle_lease_seconds
    → has_row call.operation_id os ≡ false
    → end_start settings call result
        (advance call.began d, start_row settings call d)
        (record {
          domain = some (advance call.began d);
          operations = os ++ start_row settings call d ∷ [];
        })
      ≡ (
        ok tt,
        record {
          domain = some (with_state DomainState.running call.written (advance call.began d));
          operations =
              os
              ++ succeeded_row Message.domain_started
                  (start_row settings call d)
                  call.written
                  (start_row settings call d)
                ∷ [];
        },
      )
unfolding end_start raise_for_controller_result apply_fenced_state_transition
    update_domain_state_if_current write
end_start-undisturbed settings call result d os o t h = rw (
  o,
  lease_held settings.lifecycle_worker_id (call.began + settings.lifecycle_lease_seconds)
      call.checked (start_row settings call d) refl refl t,
  eqb_refl d.runtime_instance_id,
  eqb_refl (d.control_generation + 1),
  has_row-append call.operation_id os (start_row settings call d) (eqb_refl call.operation_id),
  update_row-append call.operation_id
      (succeeded_row Message.domain_started (start_row settings call d) call.written) os
      (start_row settings call d) h (eqb_refl call.operation_id),
)

any-append :
    (os : List Operation) (o : Operation)
    → NoneActive os
    → is_active o.status ≡ false
    → NoneActive (os ++ o ∷ [])
any-append [] o n a = rw a
any-append (p ∷ os) o n a = ground (arith, any-append os o, n, a)

-- A start that its guards let through, with a fresh operation id, whose call of the controller
-- succeeds within the lease and that nobody disturbs returns and leaves the domain running at its
-- next generation, with no operation active: it can be queried exactly where its runtime is healthy.
pub start_domain_undisturbed :
    (settings : LifecycleSettings) (call : Call) (preflight : Preflight)
    (result : RuntimeControllerResult) (rows : Rows) (d : Domain) (healthy : Bool)
    → may_start call preflight rows ≡ ok d
    → has_row call.operation_id rows.operations ≡ false
    → result.outcome ≡ ControllerOutcome.succeeded
    → call.checked ≤ call.began + settings.lifecycle_lease_seconds
    → let (answer, after) = start_domain settings call preflight result (λ x. x) rows in
      (answer ≡ ok tt)
      × (d' : Domain) × (after.domain ≡ some d')
      × (d'.state ≡ DomainState.running)
      × (d'.control_generation ≡ d.control_generation + 1)
      × (domain_available healthy d' after.operations ≡ healthy)
unfolding start_domain domain_available
start_domain_undisturbed settings call preflight result rows d healthy m h o t =
    let opened = start_row settings call d in
    let finished = succeeded_row Message.domain_started opened call.written opened in
    let idle = inactive rows.operations (may_start-idle call preflight rows m) in
    rw
      (
        begin_start-opens settings call preflight rows d m h,
        and_then,
        end_start-undisturbed settings call result d rows.operations o t h,
      )
      (
        refl,
        with_state DomainState.running call.written (advance call.began d),
        refl,
        refl,
        refl,
        ap (λ x. if is_some x then false else healthy)
            (active_operation-none (rows.operations ++ finished ∷ [])
              (any-append rows.operations finished idle refl)),
      )
