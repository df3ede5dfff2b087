-- ===== src/Lifecycle/Reachable.antt =====
-- Every order of the transactions keeps the rows valid.
use ce_local_studio.Base.{
  ℕ, ◌≡◌, refl, Bool, true, false, ◌==◌, inl, inr, ◌⊎◌, eqb→eq, ok, Bool-cases, Option-cases,
}
use ce_local_studio.Indexing.Types.{DomainState}
use ce_local_studio.Lifecycle.Types.{
  Message, Operation, Domain, Rows, LifecycleSettings, RuntimeControllerResult,
}
use ce_local_studio.Lifecycle.Rows.{finish_operation, operation_lease_current, cancel_operation}
use ce_local_studio.Lifecycle.Transition.{apply_fenced_state_transition}
use ce_local_studio.Lifecycle.Requests.{Call}
use ce_local_studio.Lifecycle.Create.{end_create}
use ce_local_studio.Lifecycle.Control.{end_start, end_stop}
use ce_local_studio.Lifecycle.DeleteWorker.{
  Removal, remove, lease_still_owned, find_row, remove_domain,
}
use ce_local_studio.Lifecycle.Valid.{is_delete, IsValid, CopyOf}
use ce_local_studio.Lifecycle.Endings.{
  finish_operation-IsValid, cancel_operation-IsValid, heartbeat-IsValid, giving-rows,
  after_controller, fail_operation-IsValid, mark_operation_uncertain-IsValid,
}
use ce_local_studio.Lifecycle.Begun.{
  begin_create-IsValid, begin_start-IsValid, begin_stop-IsValid, enqueue_delete_domain-IsValid,
  assign_graph_extraction_profile-IsValid,
}
use ce_local_studio.Lifecycle.Fence.{apply_fenced_state_transition-IsValid}
use ce_local_studio.Lifecycle.Removing.{
  claim_next_operation-IsValid, fail_if_owned-rows, uncertain_if_there-rows,
}
use ce_local_studio.Lifecycle.Reconciled.{reconcile_operation-IsValid}
use ce_local_studio.Lifecycle.Steps.{
  Step, creating, created, starting, started, stopping, stopped, deleting, assigning, reconciling,
  claiming, beating, failing, doubting, removing, finishing, Transactions, here, next,
}

end_create-IsValid :
    (call : Call) (result : RuntimeControllerResult) (domain : Domain) (copy : Operation)
    (rows : Rows)
    → IsValid rows
    → IsValid (end_create call result (domain, copy) rows).1
unfolding end_create
end_create-IsValid call result domain copy rows v =
    after_controller IsValid call.checked result copy
      (finish_operation call.written Message.domain_created copy) rows
      (λ code message. fail_operation-IsValid call.checked code message copy rows v)
      (mark_operation_uncertain-IsValid call.checked result copy rows v)
      (finish_operation-IsValid call.written Message.domain_created copy rows v)

module _ (settings : LifecycleSettings) (call : Call) (result : RuntimeControllerResult)
    (domain : Domain) (copy : Operation) (rows : Rows) (n : is_delete copy ≡ false)
    (c : CopyOf rows copy) (v : IsValid rows) where
  end_start-IsValid : IsValid (end_start settings call result (domain, copy) rows).1
  unfolding end_start
  end_start-IsValid =
      after_controller IsValid call.checked result copy
        (apply_fenced_state_transition call.checked call.written settings.lifecycle_worker_id
          DomainState.running Message.domain_started domain.runtime_instance_id copy)
        rows (λ code message. fail_operation-IsValid call.checked code message copy rows v)
        (mark_operation_uncertain-IsValid call.checked result copy rows v)
        (apply_fenced_state_transition-IsValid call.checked call.written
          settings.lifecycle_worker_id DomainState.running Message.domain_started
          domain.runtime_instance_id copy rows refl n c v)

  end_stop-IsValid : IsValid (end_stop settings call result (domain, copy) rows).1
  unfolding end_stop
  end_stop-IsValid =
      after_controller IsValid call.checked result copy
        (apply_fenced_state_transition call.checked call.written settings.lifecycle_worker_id
          DomainState.stopped Message.domain_stopped domain.runtime_instance_id copy)
        rows (λ code message. fail_operation-IsValid call.checked code message copy rows v)
        (mark_operation_uncertain-IsValid call.checked result copy rows v)
        (apply_fenced_state_transition-IsValid call.checked call.written
          settings.lifecycle_worker_id DomainState.stopped Message.domain_stopped
          domain.runtime_instance_id copy rows refl n c v)

lease_still_owned-rows :
    (settings : LifecycleSettings) (now : ℕ) (copy : Operation) (rows : Rows)
    → (lease_still_owned settings now copy rows).1 ≡ rows
unfolding lease_still_owned
lease_still_owned-rows settings now copy rows =
    elim (Option-cases (find_row copy.id rows.operations)) [
      | inl e ↦ rw (e, lease_still_owned)
      | inr (row, e) ↦ rw (e, lease_still_owned)
    ]

-- The end of a run leaves the rows, cancels its operation or removes the domain with them.
pub remove-cases :
    (settings : LifecycleSettings) (r : Removal) (domain : Domain) (copy : Operation) (rows : Rows)
    → ((remove settings r domain copy rows).1 ≡ rows)
      ⊎ ((remove settings r domain copy rows).1
          ≡ (cancel_operation r.ending Message.delete_superseded copy rows).1)
      ⊎ (((remove settings r domain copy rows).1 ≡ remove_domain rows)
          × (lease_still_owned settings r.ending copy rows ≡ (ok true, rows))
          × (domain.control_generation ≡ copy.control_generation_at_start))
unfolding remove lease_still_owned
remove-cases settings r domain copy rows = elim (Option-cases (find_row copy.id rows.operations)) [
  | inl e ↦ inl (rw (e, lease_still_owned, remove))
  | inr (row, e) ↦
      elim (Bool-cases (operation_lease_current settings.delete_worker_id r.ending row)) [
        | inr l ↦ inl (rw (e, lease_still_owned, remove, l))
        | inl l ↦
            elim (Bool-cases (domain.control_generation == copy.control_generation_at_start)) [
              | inl g ↦ inr (
                  inr (
                    rw (e, lease_still_owned, remove, l, g),
                    rw (e, lease_still_owned, l),
                    eqb→eq _ _ g,
                  ))
              | inr g ↦ inr (
                  inl (
                    rw (
                      e,
                      lease_still_owned,
                      remove,
                      l,
                      g,
                      giving-rows true
                          (cancel_operation r.ending Message.delete_superseded copy rows),
                    )))
            ]
      ]
]

remove-IsValid :
    (settings : LifecycleSettings) (r : Removal) (domain : Domain) (copy : Operation) (rows : Rows)
    → IsValid rows
    → IsValid (remove settings r domain copy rows).1
remove-IsValid settings r domain copy rows v = elim (remove-cases settings r domain copy rows) [
  | inl e ↦ rw e v
  | inr (inl e) ↦ rw e (cancel_operation-IsValid r.ending Message.delete_superseded copy rows v)
  | inr (inr (e, l, g)) ↦ rw e refl
]

pub Step-IsValid :
    {says : ℕ → Bool} {settings : LifecycleSettings} {rows after : Rows}
    → Step says settings rows after
    → IsValid rows
    → IsValid after
Step-IsValid (creating embedding extraction instance_id call preflight) v =
    begin_create-IsValid embedding extraction instance_id call preflight _ v
Step-IsValid (created call result domain copy) v = end_create-IsValid call result domain copy _ v
Step-IsValid {settings = settings} (starting call preflight) v =
    begin_start-IsValid settings call preflight _ v
Step-IsValid {settings = settings} (started call result domain copy n c) v =
    end_start-IsValid settings call result domain copy _ n c v
Step-IsValid {settings = settings} (stopping call) v = begin_stop-IsValid settings call _ v
Step-IsValid {settings = settings} (stopped call result domain copy n c) v =
    end_stop-IsValid settings call result domain copy _ n c v
Step-IsValid (deleting call version) v = enqueue_delete_domain-IsValid call version _ v
Step-IsValid (assigning call profile version error) v =
    assign_graph_extraction_profile-IsValid call profile version error _ v
Step-IsValid {settings = settings} (reconciling now written health copy c) v =
    reconcile_operation-IsValid settings now written health copy _ c v
Step-IsValid {says} {settings} (claiming now) v = claim_next_operation-IsValid says settings now _ v
Step-IsValid {settings = settings} (beating now copy) v = heartbeat-IsValid settings now copy _ v
Step-IsValid {settings = settings} (failing now code message copy) v =
    fail_if_owned-rows IsValid settings now code message copy _ v
      (λ fresh. fail_operation-IsValid now code message fresh _ v)
Step-IsValid (doubting now result copy) v =
    uncertain_if_there-rows IsValid now result copy _ v
      (λ fresh. mark_operation_uncertain-IsValid now result fresh _ v)
Step-IsValid {settings = settings} (removing r domain copy d c) v =
    remove-IsValid settings r domain copy _ v
Step-IsValid (finishing now copy) v = finish_operation-IsValid now _ copy _ v

-- Every order of the transactions keeps the rows of a domain valid, whichever stale copies the
-- sessions hold: at most one operation is active, it is of the domain's present generation, and while
-- the domain is being deleted every start and stop is of an earlier one. The copies are of the
-- generation and the type of their rows.
pub Transactions-IsValid :
    {says : ℕ → Bool} {settings : LifecycleSettings} {rows after : Rows}
    → Transactions says settings rows after
    → IsValid rows
    → IsValid after
Transactions-IsValid here v = v
Transactions-IsValid (next path step) v = Step-IsValid step (Transactions-IsValid path v)
