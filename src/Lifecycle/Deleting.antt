-- ===== src/Lifecycle/Deleting.antt =====
-- A domain that is being deleted is left so until its row is removed.
use ce_local_studio.Base.{
  ℕ, ◌+◌, ◌≤◌, ◌≡◌, refl, sym, ap, ◌∙◌, Bool, true, false, Option, none, some, List, arith, inl,
  inr, ◌⊎◌, Option-cases,
}
use ce_local_studio.Indexing.Types.{DomainState}
use ce_local_studio.Lifecycle.Types.{
  OperationType, OperationStatus, Message, Operation, Domain, Rows, DomainError, LifecycleSettings,
  RuntimeControllerResult, RuntimeHealth, is_deleting, is_stopped, is_running,
}
use ce_local_studio.Lifecycle.Rows.{
  Outcome, has_row, insert_operation, finish_operation, assign_operation_lease,
}
use ce_local_studio.Lifecycle.Transition.{apply_fenced_state_transition}
use ce_local_studio.Lifecycle.Requests.{
  Call, Preflight, and_then, advance, new_operation, open_operation,
}
use ce_local_studio.Lifecycle.Create.{may_create, begin_create, end_create}
use ce_local_studio.Lifecycle.Control.{
  may_start, may_stop, begin_start, end_start, begin_stop, end_stop,
}
use ce_local_studio.Lifecycle.Removal.{
  may_delete, enqueue_delete_domain, may_assign, assign_graph_extraction_profile,
}
use ce_local_studio.Lifecycle.Reconcile.{renew, settle, reconcile_operation}
use ce_local_studio.Lifecycle.DeleteWorker.{Removal, remove}
use ce_local_studio.Lifecycle.Valid.{is_delete, IsValid, CopyOf}
use ce_local_studio.Lifecycle.Endings.{
  giving-rows, after_controller, and_then-rows, renew-CopyOf, renew-IsValid,
}
use ce_local_studio.Lifecycle.Begun.{
  may_create-ok, may_start-ok, may_stop-ok, may_delete-ok, may_assign-ok, after_check-rows,
  valid_of,
}
use ce_local_studio.Lifecycle.Fence.{apply_fenced_state_transition_lem, not_deleting}
use ce_local_studio.Lifecycle.Reachable.{remove-cases}
use ce_local_studio.Lifecycle.Reconciled.{reconcile_operation-rows}
use ce_local_studio.Lifecycle.Removing.{fail_if_owned-rows, uncertain_if_there-rows}
use ce_local_studio.Lifecycle.Keeps.{
  Keeps, cancel_operation-Keeps, fail_operation-Keeps, mark_operation_uncertain-Keeps,
  finish_operation-Keeps, renew-Keeps, heartbeat-Keeps, claim_next_operation-Keeps,
}
use ce_local_studio.Lifecycle.Steps.{
  Step, creating, created, starting, started, stopping, stopped, deleting, assigning, reconciling,
  claiming, beating, failing, doubting, removing, finishing,
}

-- An end of a start or a stop that may write the state leaves the domain's row alone, where the
-- operation's generation or instance is not the domain's.
pub fenced-Keeps :
    (now written owner : ℕ) (target : DomainState) (success : Message) (instance_id : ℕ)
    (copy : Operation) (rows : Rows)
    → ((d : Domain)
        → rows.domain ≡ some d
        → d.runtime_instance_id ≡ instance_id
        → d.control_generation ≡ copy.control_generation_at_start
        → has_row copy.id rows.operations ≡ true
        → ⊥)
    → Keeps rows
        (apply_fenced_state_transition now written owner target success instance_id copy rows).1
fenced-Keeps now written owner target success instance_id copy rows stale =
    elim (apply_fenced_state_transition_lem now written owner target success instance_id copy
      rows) [
        | inl (message, e) ↦ rw e (cancel_operation-Keeps written message copy rows)
        | inr (inl e) ↦ rw e
        | inr (inr (d, e, l, i, g, r, f)) ↦ absurd (stale d e i g r)
      ]

-- The row of a start or a stop is of an earlier generation than a domain that is being deleted.
fenced_off :
    (copy : Operation) (rows : Rows) (d : Domain)
    → rows.domain ≡ some d
    → is_deleting d.state ≡ true
    → is_delete copy ≡ false
    → CopyOf rows copy
    → IsValid rows
    → (d' : Domain) → rows.domain ≡ some d'
    → d'.control_generation ≡ copy.control_generation_at_start
    → has_row copy.id rows.operations ≡ true
    → ⊥
fenced_off copy rows d e x n c v d' f g r =
    let (s, u, k) = valid_of rows f v in
    let y = not_deleting d' copy rows.operations r c s n (sym g) in
    let same : some d ≡ some d' = sym e ∙ f in
    let z : is_deleting d.state ≡ is_deleting d'.state = ground (arith, same) in cc

-- The domain is gone, or it is being deleted at a generation that is no earlier.
abbrev pub HeldBy : Domain → Option Domain → Type 0
HeldBy d domain =
    (domain ≡ none)
    ⊎ ((d' : Domain) × (domain ≡ some d')
        × (is_deleting d'.state ≡ true)
        × (d'.runtime_instance_id ≡ d.runtime_instance_id)
        × (d.control_generation ≤ d'.control_generation))

abbrev pub Held : Domain → Rows → Type 0
Held d after = HeldBy d after.domain

kept-Held :
    (d : Domain) (rows : Rows) (domain : Option Domain)
    → rows.domain ≡ some d
    → is_deleting d.state ≡ true
    → domain ≡ rows.domain
    → HeldBy d domain
kept-Held d rows domain e x k = inr (d, k ∙ e, x, refl, omega arith)

same_some : {d d' : Domain} → some d ≡ some d' → d ≡ d'
same_some h = ground (arith, h)

not_both : (d : Domain) → is_stopped d.state ≡ true → is_deleting d.state ≡ true → ⊥
not_both d s x = ground (arith, s, x)

not_running : (d : Domain) → is_running d.state ≡ true → is_deleting d.state ≡ true → ⊥
not_running d s x = ground (arith, s, x)

not_none : {d : Domain} → none ≡ some d → ⊥
not_none h = ground (arith, h)

opened-Held :
    (d d' : Domain) (new : Operation) (refused : DomainError) (os : List Operation) (rows : Rows)
    → Held d rows
    → is_deleting d'.state ≡ true
    → d'.runtime_instance_id ≡ d.runtime_instance_id
    → d.control_generation ≤ d'.control_generation
    → Held d (open_operation new refused d' os rows).1
opened-Held d d' new refused os rows h x i g = elim (Option-cases (insert_operation new os)) [
  | inl e ↦ rw (e, open_operation) h
  | inr (os', e) ↦ rw (e, open_operation) (inr (d', refl, x, i, g))
]

module _ (rows : Rows) (d : Domain) (e : rows.domain ≡ some d)
    (x : is_deleting d.state ≡ true) where
  at_rest : Held d rows
  at_rest = kept-Held d rows rows.domain e x refl

  kept : {domain : Option Domain} → domain ≡ rows.domain → HeldBy d domain
  kept k = kept-Held d rows _ e x k

  enqueue-Held : (call : Call) (version : ℕ) → Held d (enqueue_delete_domain call version rows).1
  unfolding enqueue_delete_domain
  enqueue-Held call version =
      after_check-rows (Held d) rows (may_delete call version rows) _ at_rest (λ (a, os) h.
        let same = same_some (sym (may_delete-ok call version rows h).0 ∙ e) in
        opened-Held d (record (advance call.began a) { state = DomainState.deleting })
          (new_operation OperationType.delete OperationStatus.queued Message.delete_queued
            call.operation_id (a.control_generation + 1) call.written)
          DomainError.domain_operation_in_progress os rows at_rest refl
          (ap (λ (y : Domain). y.runtime_instance_id) same)
          (omega (arith, ap (λ (y : Domain). y.control_generation) same)))

  -- The requests that a domain being deleted refuses.
  refused : (a : Domain) → rows.domain ≡ some a → is_stopped a.state ≡ true → ⊥
  refused a f s =
      not_both a s (ap (λ (y : Domain). is_deleting y.state) (same_some (sym f ∙ e)) ∙ x)

  begin_create-Held :
      (embedding extraction instance_id : ℕ) (call : Call) (preflight : Preflight)
      → Held d (begin_create embedding extraction instance_id call preflight rows).1
  unfolding begin_create
  begin_create-Held embedding extraction instance_id call preflight =
      after_check-rows (Held d) rows (may_create call preflight rows) _ at_rest
        (λ done h. absurd (not_none (sym (may_create-ok call preflight rows h) ∙ e)))

  begin_start-Held :
      (settings : LifecycleSettings) (call : Call) (preflight : Preflight)
      → Held d (begin_start settings call preflight rows).1
  unfolding begin_start
  begin_start-Held settings call preflight =
      after_check-rows (Held d) rows (may_start call preflight rows) _ at_rest
        (λ a h. let (f, s) = may_start-ok call preflight rows h in absurd (refused a f s))

  begin_stop-Held :
      (settings : LifecycleSettings) (call : Call) → Held d (begin_stop settings call rows).1
  unfolding begin_stop
  begin_stop-Held settings call =
      after_check-rows (Held d) rows (may_stop call rows) _ at_rest (λ a h.
        let (f, s) = may_stop-ok call rows h in
        absurd
          (not_running a s (ap (λ (y : Domain). is_deleting y.state) (same_some (sym f ∙ e)) ∙ x)))

  assign-Held :
      (call : Call) (profile version : ℕ) (error : Option ℕ)
      → Held d (assign_graph_extraction_profile call profile version error rows).1
  unfolding assign_graph_extraction_profile
  assign-Held call profile version error =
      after_check-rows (Held d) rows (may_assign call version error rows) _ at_rest
        (λ a h. let (f, s) = may_assign-ok call version error rows h in absurd (refused a f s))

  end_create-Held :
      (call : Call) (result : RuntimeControllerResult) (domain : Domain) (copy : Operation)
      → Held d (end_create call result (domain, copy) rows).1
  unfolding end_create
  end_create-Held call result domain copy =
      after_controller (Held d) call.checked result copy
        (finish_operation call.written Message.domain_created copy) rows
        (λ code message. kept (fail_operation-Keeps call.checked code message copy rows))
        (kept (mark_operation_uncertain-Keeps call.checked result copy rows))
        (kept (finish_operation-Keeps call.written Message.domain_created copy rows))

  module _ (v : IsValid rows) (copy : Operation) (n : is_delete copy ≡ false)
      (c : CopyOf rows copy) where
    fenced-Held :
        (now written owner : ℕ) (target : DomainState) (success : Message) (instance_id : ℕ)
        → Held d
            (apply_fenced_state_transition now written owner target success instance_id copy rows).1
    fenced-Held now written owner target success instance_id = kept (
        fenced-Keeps now written owner target success instance_id copy rows
          (λ a f i g r. fenced_off copy rows d e x n c v a f g r))

    end_start-Held :
        (settings : LifecycleSettings) (call : Call) (result : RuntimeControllerResult)
        (domain : Domain)
        → Held d (end_start settings call result (domain, copy) rows).1
    unfolding end_start
    end_start-Held settings call result domain =
        after_controller (Held d) call.checked result copy
          (apply_fenced_state_transition call.checked call.written settings.lifecycle_worker_id
            DomainState.running Message.domain_started domain.runtime_instance_id copy)
          rows (λ code message. kept (fail_operation-Keeps call.checked code message copy rows))
          (kept (mark_operation_uncertain-Keeps call.checked result copy rows))
          (fenced-Held call.checked call.written settings.lifecycle_worker_id DomainState.running
            Message.domain_started domain.runtime_instance_id)

    end_stop-Held :
        (settings : LifecycleSettings) (call : Call) (result : RuntimeControllerResult)
        (domain : Domain)
        → Held d (end_stop settings call result (domain, copy) rows).1
    unfolding end_stop
    end_stop-Held settings call result domain =
        after_controller (Held d) call.checked result copy
          (apply_fenced_state_transition call.checked call.written settings.lifecycle_worker_id
            DomainState.stopped Message.domain_stopped domain.runtime_instance_id copy)
          rows (λ code message. kept (fail_operation-Keeps call.checked code message copy rows))
          (kept (mark_operation_uncertain-Keeps call.checked result copy rows))
          (fenced-Held call.checked call.written settings.lifecycle_worker_id DomainState.stopped
            Message.domain_stopped domain.runtime_instance_id)

  remove-Held :
      (settings : LifecycleSettings) (r : Removal) (domain : Domain) (copy : Operation)
      → Held d (remove settings r domain copy rows).1
  remove-Held settings r domain copy = elim (remove-cases settings r domain copy rows) [
    | inl f ↦ rw f at_rest
    | inr (inl f) ↦
        rw f (kept (cancel_operation-Keeps r.ending Message.delete_superseded copy rows))
    | inr (inr (f, l, g)) ↦ rw f (inl refl)
  ]

settle-Held :
    (rows : Rows) (d : Domain) (settings : LifecycleSettings) (now written : ℕ) (copy : Operation)
    (target : DomainState) (success : Message) (instance_id : ℕ)
    → rows.domain ≡ some d
    → is_deleting d.state ≡ true
    → IsValid rows
    → is_delete copy ≡ false
    → CopyOf rows copy
    → Held d (settle settings now written target success instance_id copy rows).1
unfolding settle
settle-Held rows d settings now written copy target success instance_id e x v n c =
    let renewed = renew settings now copy rows in
    let f = renew-Keeps settings now copy rows ∙ e in
    let leased =
      assign_operation_lease settings.lifecycle_worker_id settings.lifecycle_lease_seconds now
        copy in
    let end_ : Rows → Outcome (Unit {0}) =
      apply_fenced_state_transition written written settings.lifecycle_worker_id target success
        instance_id leased in
    rw (giving-rows true (and_then renewed (λ done. end_))) (
      and_then-rows (Held d) renewed (λ done. end_) (at_rest renewed.1 d f x)
        (λ done.
          fenced-Held renewed.1 d f x (renew-IsValid settings now copy rows v) leased n
            (renew-CopyOf settings now copy copy rows c) written written
            settings.lifecycle_worker_id target success instance_id))

reconcile-Held :
    (rows : Rows) (d : Domain)
    → rows.domain ≡ some d
    → is_deleting d.state ≡ true
    → IsValid rows
    → (copy : Operation) → CopyOf rows copy
    → (settings : LifecycleSettings) (now written : ℕ) (health : RuntimeHealth)
    → Held d (reconcile_operation settings now written health copy rows).1
reconcile-Held rows d e x v copy c settings now written health =
    reconcile_operation-rows (Held d) settings now written health copy rows (at_rest rows d e x)
      (kept rows d e x (renew-Keeps settings now copy rows))
      (λ code message. kept rows d e x (fail_operation-Keeps written code message copy rows))
      (λ target success instance_id t n.
        settle-Held rows d settings now written copy target success instance_id e x v n c)
      (λ message. kept rows d e x (cancel_operation-Keeps written message copy rows))

-- From a domain that is being deleted, every transaction leaves it being deleted, as the same
-- instance and at no earlier generation, or removes its row: no start or stop that ends late, no
-- request and no reconciliation brings it back. The rows are valid, and the sessions' copies are of
-- the generation and the type of their rows.
pub Step-Held :
    {says : ℕ → Bool} {settings : LifecycleSettings} {rows after : Rows}
    → Step says settings rows after
    → (d : Domain) → IsValid rows
    → rows.domain ≡ some d
    → is_deleting d.state ≡ true
    → Held d after
Step-Held {rows = rows} (creating embedding extraction instance_id call preflight) d v e x =
    begin_create-Held rows d e x embedding extraction instance_id call preflight
Step-Held {rows = rows} (created call result domain copy) d v e x =
    end_create-Held rows d e x call result domain copy
Step-Held {settings = settings} {rows} (starting call preflight) d v e x =
    begin_start-Held rows d e x settings call preflight
Step-Held {settings = settings} {rows} (started call result domain copy n c) d v e x =
    end_start-Held rows d e x v copy n c settings call result domain
Step-Held {settings = settings} {rows} (stopping call) d v e x =
    begin_stop-Held rows d e x settings call
Step-Held {settings = settings} {rows} (stopped call result domain copy n c) d v e x =
    end_stop-Held rows d e x v copy n c settings call result domain
Step-Held {rows = rows} (deleting call version) d v e x = enqueue-Held rows d e x call version
Step-Held {rows = rows} (assigning call profile version error) d v e x =
    assign-Held rows d e x call profile version error
Step-Held {settings = settings} {rows} (reconciling now written health copy c) d v e x =
    reconcile-Held rows d e x v copy c settings now written health
Step-Held {says} {settings} {rows} (claiming now) d v e x =
    kept rows d e x (claim_next_operation-Keeps says settings now rows)
Step-Held {settings = settings} {rows} (beating now copy) d v e x =
    kept rows d e x (heartbeat-Keeps settings now copy rows)
Step-Held {settings = settings} {rows} (failing now code message copy) d v e x =
    fail_if_owned-rows (Held d) settings now code message copy rows (at_rest rows d e x)
      (λ fresh. kept rows d e x (fail_operation-Keeps now code message fresh rows))
Step-Held {rows = rows} (doubting now result copy) d v e x =
    uncertain_if_there-rows (Held d) now result copy rows (at_rest rows d e x)
      (λ fresh. kept rows d e x (mark_operation_uncertain-Keeps now result fresh rows))
Step-Held {settings = settings} {rows} (removing r domain copy t c) d v e x =
    remove-Held rows d e x settings r domain copy
Step-Held {rows = rows} (finishing now copy) d v e x =
    kept rows d e x (finish_operation-Keeps now Message.already_removed copy rows)
