-- ===== src/Lifecycle/Transition.antt =====
-- The end of a start or a stop: the state is written only at the generation and the instance that the
-- operation began with.
use ce_local_studio.Base.{ℕ, ◌+◌, not, ◌&&◌, Option, none, some, ◌==◌, if◌then◌else◌, ok, err}
use ce_local_studio.Indexing.Types.{DomainState}
use ce_local_studio.Lifecycle.Types.{
  OperationStatus, Message, lease_lost, stale_generation, Operation, Domain, Rows,
}
use ce_local_studio.Lifecycle.Rows.{
  Outcome, operation_lease_current, write, ended, cancel_operation,
}

-- `UPDATE ... WHERE`: whether a row was changed, and the domain.
unfoldable pub update_domain_state_if_current :
    ℕ → ℕ → DomainState → ℕ → Option Domain → Option (Option Domain)
update_domain_state_if_current runtime_instance_id control_generation state now none = none
update_domain_state_if_current runtime_instance_id control_generation state now (some domain) =
    if (domain.runtime_instance_id == runtime_instance_id)
      && (domain.control_generation == control_generation)
    then some
        (some (record domain { state = state; updated_at = now; version = domain.version + 1 }))
    else none

-- A commit that fails takes the update of the state back with it.
abbrev pub or_rollback : Rows → Outcome (Unit {0}) → Outcome (Unit {0})
or_rollback before (ok _, after) = (ok tt, after)
or_rollback before (err raised, after) = (err raised, before)

-- `now` is the time of the lease's test, `written` that of the writes. `copy` is the operation and
-- `runtime_instance_id` the domain's instance as the session holds them.
unfoldable pub apply_fenced_state_transition :
    ℕ → ℕ → ℕ → DomainState → Message → ℕ → Operation → Rows → Outcome (Unit {0})
unfolding operation_lease_current update_domain_state_if_current cancel_operation write
apply_fenced_state_transition now written lease_owner target success runtime_instance_id copy rows =
    if not (operation_lease_current lease_owner now copy)
    then cancel_operation written lease_lost copy rows
    else elim (update_domain_state_if_current runtime_instance_id copy.control_generation_at_start
        target written rows.domain) [
          | none ↦ cancel_operation written stale_generation copy rows
          | some updated ↦ or_rollback rows (
              write copy
                (λ (row : Operation).
                  record (ended OperationStatus.succeeded success none copy written row) {
                    lease_owner = none;
                    lease_expires_at = none;
                  })
                (record rows { domain = updated }))
        ]
