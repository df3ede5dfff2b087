-- ===== src/Lifecycle/Tests.antt =====
-- Runs of the lifecycle on a small domain, and the theorems at these inputs.
use ce_local_studio.Base.{
  ℕ, ◌≡◌, refl, Bool, true, false, none, some, [], ◌∷◌, arith, ok, err, inr, ◌&&◌, not, is_some,
}
use ce_local_studio.Indexing.Types.{DomainState}
use ce_local_studio.Lifecycle.Types.{
  OperationType, OperationStatus, Message, Operation, Domain, Rows, LifecycleSettings,
  RuntimeControllerResult, ControllerOutcome, DomainError, is_valid_domain_id,
}
use ce_local_studio.Lifecycle.Rows.{active_operation, insert_operation}
use ce_local_studio.Lifecycle.Requests.{Call, Preflight, advance}
use ce_local_studio.Lifecycle.Control.{
  may_start, begin_start, end_start, end_stop, start_domain, begin_stop,
}
use ce_local_studio.Lifecycle.Removal.{
  enqueue_delete_domain, may_delete, cancel_active_lifecycle_operation,
}
use ce_local_studio.Lifecycle.Views.{ActionName, domain_allowed_actions, domain_available}
use ce_local_studio.Lifecycle.Reconcile.{reconcile_uncertain_lifecycle_operations}
use ce_local_studio.Lifecycle.DeleteWorker.{
  Removal, purged, claim_next_operation, oldest_claimable, run_claimed, is_claimable,
}
use ce_local_studio.Lifecycle.Valid.{IsValid}
use ce_local_studio.Lifecycle.Steps.{here, next, starting, started, deleting}
use ce_local_studio.Lifecycle.Reachable.{Transactions-IsValid}
use ce_local_studio.Lifecycle.Deleting.{Step-Held, Held}
use ce_local_studio.Lifecycle.Superseded.{superseded_start_and_stop}
use ce_local_studio.Lifecycle.Undisturbed.{start_domain_undisturbed, start_row}
use ce_local_studio.Lifecycle.Actions.{offered_as_accepted, is_ok, offers}
use ce_local_studio.Lifecycle.Unresolved.{timed_out_start_unreconciled}
use ce_local_studio.Lifecycle.Removed.{claimed_delete_ends}

abbrev settings : LifecycleSettings
settings = record {
  lifecycle_worker_id = 1;
  lifecycle_lease_seconds = 60;
  delete_worker_id = 2;
  delete_lease_seconds = 60;
}

-- The id `pumps`.
abbrev call : ℕ → ℕ → Call
call operation_id now = record {
  domain_id = 112 ∷ 117 ∷ 109 ∷ 112 ∷ 115 ∷ [];
  operation_id = operation_id;
  began = now;
  checked = now;
  written = now;
}

abbrev ready : Preflight
ready = record { embedding_error = none; extraction_error = none; sealed = true }

abbrev pumps : Domain
pumps = record {
  state = DomainState.stopped;
  embedding_profile_id = 7;
  graph_extraction_profile_id = some 8;
  indexing_ever_started = false;
  runtime_instance_id = 40;
  control_generation = 1;
  version = 1;
  updated_at = 0;
}

abbrev at_first : Rows
at_first = record { domain = some pumps; operations = [] }

abbrev succeeds : RuntimeControllerResult
succeeds = record { outcome = ControllerOutcome.succeeded; safe_code = none; message = none }

abbrev times_out : RuntimeControllerResult
times_out = record {
  outcome = ControllerOutcome.uncertain;
  safe_code = none;
  message = some Message.unknown_remote_outcome;
}

abbrev no_text : ℕ → Bool
no_text _ = false

at_first-IsValid : IsValid at_first
at_first-IsValid = (tt, tt, omega arith)

may_start-at_first : may_start (call 5 100) ready at_first ≡ ok pumps
unfolding may_start is_valid_domain_id active_operation
may_start-at_first = refl

start_domain_undisturbed_example :
    let (answer, after) = start_domain settings (call 5 100) ready succeeds (λ x. x) at_first in
    (answer ≡ ok tt)
    × (d' : Domain) × (after.domain ≡ some d')
    × (d'.state ≡ DomainState.running)
    × (d'.control_generation ≡ 2)
    × (domain_available true d' after.operations ≡ true)
start_domain_undisturbed_example =
    start_domain_undisturbed settings (call 5 100) ready succeeds at_first pumps true
      may_start-at_first refl refl (omega arith)

timed_out_start_unreconciled_example :
    let (answer, after) = start_domain settings (call 5 100) ready times_out (λ x. x) at_first in
    (answer ≡ err DomainError.dependency_unavailable)
    × (is_some (active_operation after.operations) ≡ true)
    × (reconcile_uncertain_lifecycle_operations no_text settings 200 200
          (λ o. record { healthy = true; outcome = ControllerOutcome.succeeded })
          after
        ≡ (ok 0, after))
timed_out_start_unreconciled_example =
    timed_out_start_unreconciled no_text settings (call 5 100) ready times_out at_first pumps 200
      200 (λ o. record { healthy = true; outcome = ControllerOutcome.succeeded }) may_start-at_first
      refl refl refl

offered_as_accepted_example :
    let offered : ActionName → Bool =
      λ name. offers name (domain_allowed_actions pumps (active_operation [])) in
    (is_ok (begin_start settings (call 5 100) ready at_first).0 ≡ offered ActionName.start)
    × (is_ok (begin_stop settings (call 5 100) at_first).0 ≡ offered ActionName.stop)
    × ((offered ActionName.delete && not (is_ok (enqueue_delete_domain (call 5 100) 1 at_first).0))
        ≡ false)
unfolding is_valid_domain_id
offered_as_accepted_example =
    offered_as_accepted settings (call 5 100) ready at_first pumps refl
      (refl, refl, refl, refl, refl) refl

-- A start is open when a delete is asked for.
abbrev begun : Rows
begun = (begin_start settings (call 5 100) ready at_first).1

abbrev doomed : Rows
doomed = (enqueue_delete_domain (call 6 110) 2 begun).1

Transactions-IsValid_example : IsValid doomed
Transactions-IsValid_example =
    Transactions-IsValid {says = no_text} {settings = settings}
      (next (next here (starting (call 5 100) ready)) (deleting (call 6 110) 2)) at_first-IsValid

abbrev pumps_doomed : Domain
pumps_doomed = record pumps {
  state = DomainState.deleting;
  control_generation = 3;
  version = 3;
  updated_at = 110;
}

doomed-domain : doomed.domain ≡ some pumps_doomed
unfolding begin_start may_start is_valid_domain_id active_operation insert_operation
    enqueue_delete_domain may_delete cancel_active_lifecycle_operation
doomed-domain = refl

Step-Held_example :
    Held pumps_doomed
      (end_start settings
        (call 5 120)
        succeeds
        (advance 100 pumps, start_row settings (call 5 100) pumps)
        doomed).1
unfolding begin_start may_start is_valid_domain_id active_operation insert_operation
    enqueue_delete_domain may_delete cancel_active_lifecycle_operation
Step-Held_example =
    Step-Held {says = no_text}
      (started (call 5 120) succeeds (advance 100 pumps) (start_row settings (call 5 100) pumps)
        refl (λ e. (refl, refl), (λ e. cc, tt)))
      pumps_doomed Transactions-IsValid_example doomed-domain refl

superseded_start_and_stop_example :
    let held : Domain × Operation = (advance 100 pumps, start_row settings (call 5 100) pumps) in
    ((end_start settings (call 5 120) succeeds held doomed).1.domain ≡ some pumps_doomed)
    × ((end_stop settings (call 5 120) succeeds held doomed).1.domain ≡ some pumps_doomed)
superseded_start_and_stop_example =
    superseded_start_and_stop settings (call 5 120) succeeds pumps_doomed (advance 100 pumps)
      (start_row settings (call 5 100) pumps) doomed (doomed-domain, inr (λ e. omega (arith, e)))

abbrev clean : Removal
clean = record {
  first_beat = 130;
  second_beat = 140;
  third_beat = 150;
  ending = 160;
  purge = purged;
  result = succeeds;
  others = λ x. x;
}

abbrev delete_row : Operation
delete_row = record {
  id = 6;
  operation_type = OperationType.delete;
  status = OperationStatus.queued;
  control_generation_at_start = 3;
  message = some Message.delete_queued;
  error_code = none;
  lease_owner = none;
  lease_expires_at = none;
  started_at = none;
  finished_at = none;
  created_at = 110;
  updated_at = 110;
  version = 1;
}

delete_is_oldest : oldest_claimable 120 doomed.operations ≡ some delete_row
unfolding begin_start may_start is_valid_domain_id active_operation insert_operation
    enqueue_delete_domain may_delete cancel_active_lifecycle_operation oldest_claimable is_claimable
delete_is_oldest = refl

claimed_delete_ends_example :
    let (taken, after) = claim_next_operation no_text settings 120 doomed in
    (copy : Operation) × (taken ≡ some copy)
    × (run_claimed settings clean copy after ≡ (ok true, record { domain = none; operations = [] }))
claimed_delete_ends_example =
    claimed_delete_ends no_text settings 120 clean doomed pumps_doomed delete_row
      Transactions-IsValid_example doomed-domain delete_is_oldest (λ x. refl) refl refl
      (omega arith) (omega arith) (omega arith) (omega arith)
