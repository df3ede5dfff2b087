-- ===== src/Lifecycle/Superseded.antt =====
-- An end of a start or a stop that has been superseded is without effect on the domain.
use ce_local_studio.Base.{ℕ, ◌≡◌, ◌≢◌, sym, ◌∙◌, some, arith, inl, inr, ◌⊎◌}
use ce_local_studio.Indexing.Types.{DomainState}
use ce_local_studio.Lifecycle.Types.{
  Message, Operation, Domain, Rows, LifecycleSettings, RuntimeControllerResult,
}
use ce_local_studio.Lifecycle.Transition.{apply_fenced_state_transition}
use ce_local_studio.Lifecycle.Requests.{Call, and_then}
use ce_local_studio.Lifecycle.Control.{end_start, end_stop}
use ce_local_studio.Lifecycle.Rows.{raise_for_controller_result}
use ce_local_studio.Lifecycle.Endings.{after_controller}
use ce_local_studio.Lifecycle.Keeps.{Keeps, fail_operation-Keeps, mark_operation_uncertain-Keeps}
use ce_local_studio.Lifecycle.Deleting.{fenced-Keeps}

module _ (d : Domain) (domain : Domain) (copy : Operation) (rows : Rows) where
  -- The row is of another instance, or of another generation, than the session holds.
  abbrev pub IsSuperseded : Type 0
  IsSuperseded =
      (rows.domain ≡ some d)
      × ((d.runtime_instance_id ≢ domain.runtime_instance_id)
          ⊎ (d.control_generation ≢ copy.control_generation_at_start))

  superseded-Keeps :
      (now written owner : ℕ) (target : DomainState) (success : Message)
      → IsSuperseded
      → Keeps rows
          (apply_fenced_state_transition now written owner target success domain.runtime_instance_id
            copy rows).1
  superseded-Keeps now written owner target success (e, other) =
      fenced-Keeps now written owner target success domain.runtime_instance_id copy rows
        (λ a f i g r.
          let same : some d ≡ some a = sym e ∙ f in
          let p : d.runtime_instance_id ≡ a.runtime_instance_id = ground (arith, same) in
          let q : d.control_generation ≡ a.control_generation = ground (arith, same) in
          elim other [ inl n ↦ n (p ∙ i) | inr n ↦ n (q ∙ g) ])

-- Where the domain's row is of another instance or another generation than the operation began
-- with, the end of a start and the end of a stop leave the row as it is, whatever the controller
-- answered.
pub superseded_start_and_stop :
    (settings : LifecycleSettings) (call : Call) (result : RuntimeControllerResult)
    (d domain : Domain) (copy : Operation) (rows : Rows)
    → IsSuperseded d domain copy rows
    → ((end_start settings call result (domain, copy) rows).1.domain ≡ some d)
      × ((end_stop settings call result (domain, copy) rows).1.domain ≡ some d)
unfolding end_start end_stop
superseded_start_and_stop settings call result d domain copy rows s = (
  ended DomainState.running Message.domain_started ∙ s.0,
  ended DomainState.stopped Message.domain_stopped ∙ s.0,
)
  where
    ended :
        (target : DomainState) (success : Message)
        → Keeps rows
            (and_then (raise_for_controller_result call.checked result copy rows) (λ done.
              apply_fenced_state_transition call.checked call.written settings.lifecycle_worker_id
                target success domain.runtime_instance_id copy)).1
    ended target success =
        after_controller (Keeps rows) call.checked result copy
          (apply_fenced_state_transition call.checked call.written settings.lifecycle_worker_id
            target success domain.runtime_instance_id copy)
          rows (λ code message. fail_operation-Keeps call.checked code message copy rows)
          (mark_operation_uncertain-Keeps call.checked result copy rows)
          (superseded-Keeps d domain copy rows call.checked call.written
            settings.lifecycle_worker_id target success s)
