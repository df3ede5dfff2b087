-- ===== src/Lifecycle/Reconciled.antt =====
-- Reconciliation keeps the rows valid.
use ce_local_studio.Base.{
  ℕ, ◌≡◌, refl, true, false, arith, ◌==◌, inl, inr, Bool-cases, Option-cases,
}
use ce_local_studio.Indexing.Types.{DomainState}
use ce_local_studio.Lifecycle.Types.{
  OperationType, OperationError, Message, Operation, Domain, Rows, LifecycleSettings, RuntimeHealth,
  is_deleting, is_type,
}
use ce_local_studio.Lifecycle.Rows.{
  Outcome, assign_operation_lease, fail_operation, cancel_operation,
}
use ce_local_studio.Lifecycle.Transition.{apply_fenced_state_transition}
use ce_local_studio.Lifecycle.Requests.{and_then}
use ce_local_studio.Lifecycle.Reconcile.{
  renew, settle, after_probe, reconcile_operation, is_uncertain_outcome,
}
use ce_local_studio.Lifecycle.Valid.{is_delete, IsValid, CopyOf}
use ce_local_studio.Lifecycle.Endings.{
  cancel_operation-IsValid, renew-CopyOf, fail_operation-IsValid, renew-IsValid, and_then-rows,
  giving-rows,
}
use ce_local_studio.Lifecycle.Fence.{apply_fenced_state_transition-IsValid}

pub settle-IsValid :
    (settings : LifecycleSettings) (now written : ℕ) (target : DomainState) (success : Message)
    (instance_id : ℕ) (copy : Operation) (rows : Rows)
    → is_deleting target ≡ false
    → is_delete copy ≡ false
    → CopyOf rows copy
    → IsValid rows
    → IsValid (settle settings now written target success instance_id copy rows).1
unfolding settle
settle-IsValid settings now written target success instance_id copy rows t n c v =
    let leased =
      assign_operation_lease settings.lifecycle_worker_id settings.lifecycle_lease_seconds now
        copy in
    let renewed = renew settings now copy rows in
    let end_ : Rows → Outcome (Unit {0}) =
      apply_fenced_state_transition written written settings.lifecycle_worker_id target success
        instance_id leased in
    rw (giving-rows true (and_then renewed (λ done. end_))) (
      and_then-rows IsValid renewed (λ done. end_) (renew-IsValid settings now copy rows v)
        (λ done.
          apply_fenced_state_transition-IsValid written written settings.lifecycle_worker_id target
            success instance_id leased renewed.1 t n (renew-CopyOf settings now copy copy rows c)
            (renew-IsValid settings now copy rows v)))

module _ {κ} (P : Rows → Type κ) (settings : LifecycleSettings) (now written : ℕ)
    (health : RuntimeHealth) (copy : Operation) (rows : Rows) (rest : P rows)
    (renewed : P (renew settings now copy rows).1)
    (fails : (code : OperationError) (message : Message)
      → P (fail_operation written code message copy rows).1)
    (settles : (target : DomainState) (success : Message) (instance_id : ℕ)
      → is_deleting target ≡ false
      → is_delete copy ≡ false
      → P (settle settings now written target success instance_id copy rows).1) where
  after_probe-rows : (d : Domain) → P (after_probe settings now written health d copy rows).1
  unfolding after_probe
  after_probe-rows d = elim (Bool-cases (is_uncertain_outcome health.outcome)) [
    | inl u ↦ rw (u, giving-rows false (renew settings now copy rows)) renewed
    | inr u ↦ elim (Bool-cases (is_type OperationType.start copy)) [
      | inl s ↦ elim (Bool-cases health.healthy) [
        | inl h ↦
            rw (u, s, h)
              (settles DomainState.running Message.started_after d.runtime_instance_id refl
                (ground (arith, s)))
        | inr h ↦
            rw
              (
                u,
                s,
                h,
                giving-rows true (
                    fail_operation written OperationError.dependency_unavailable
                      Message.not_ready_after copy rows),
              )
              (fails _ _)
      ]
      | inr s ↦ elim (Bool-cases (is_type OperationType.stop copy)) [
        | inl p ↦ elim (Bool-cases health.healthy) [
          | inl h ↦ rw (u, s, p, h, giving-rows false (renew settings now copy rows)) renewed
          | inr h ↦
              rw (u, s, p, h)
                (settles DomainState.stopped Message.stopped_after d.runtime_instance_id refl
                  (ground (arith, p)))
        ]
        | inr p ↦ rw (u, s, p) rest
      ]
    ]
  ]

  -- The ways a reconciled operation ends.
  pub reconcile_operation-rows :
      ((message : Message) → P (cancel_operation written message copy rows).1)
      → P (reconcile_operation settings now written health copy rows).1
  unfolding reconcile_operation
  reconcile_operation-rows cancels = elim (Option-cases rows.domain) [
    | inl e ↦
        rw
          (
            e,
            reconcile_operation,
            giving-rows true (cancel_operation written Message.domain_removed copy rows),
          )
          (cancels _)
    | inr (d, e) ↦ elim (Bool-cases (d.control_generation == copy.control_generation_at_start)) [
      | inl g ↦ rw (e, reconcile_operation, g) (after_probe-rows d)
      | inr g ↦
          rw
            (
              e,
              reconcile_operation,
              g,
              giving-rows true (cancel_operation written Message.stale_reconciliation copy rows),
            )
            (cancels _)
    ]
  ]

pub reconcile_operation-IsValid :
    (settings : LifecycleSettings) (now written : ℕ) (health : RuntimeHealth) (copy : Operation)
    (rows : Rows)
    → CopyOf rows copy
    → IsValid rows
    → IsValid (reconcile_operation settings now written health copy rows).1
reconcile_operation-IsValid settings now written health copy rows c v =
    reconcile_operation-rows IsValid settings now written health copy rows v
      (renew-IsValid settings now copy rows v)
      (λ code message. fail_operation-IsValid written code message copy rows v)
      (λ target success instance_id t n.
        settle-IsValid settings now written target success instance_id copy rows t n c v)
      (λ message. cancel_operation-IsValid written message copy rows v)
