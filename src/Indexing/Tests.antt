-- ===== src/Indexing/Tests.antt =====
-- The results on indexes, at a concrete source, and two runs of interest.
use ce_local_studio.Base.{ℕ, ◌≡◌, refl, true, false, none, some, arith, ◌&&◌, ◌⊎◌, ◌<◌}
use ce_local_studio.Indexing.Types.{
  RequestId, Source, Domain, running, not_requested, accepted, ready, cancelling, cancelled,
  is_state, source_is_query_eligible,
}
use ce_local_studio.Indexing.Requests.{
  deleted, delete_raises, queue_source_index_after_publish, Outcome, cancel_source_index,
  needs_remote_delete, delete_remote_if_needed, queue_new_generation, remote_delete_required,
  start_cancel, finish_cancel,
}
use ce_local_studio.Indexing.Results.{
  is_index_claimable, mark_index_accepted_if_current, heartbeat_index_lease, index_lease_current,
  worker_result_is_current, claim_source,
}
use ce_local_studio.Indexing.Fence.{LeftToOthers, Raises}
use ce_local_studio.Indexing.Overtaken.{superseded_run}
use ce_local_studio.Indexing.Consistent.{IsConsistent}
use ce_local_studio.Indexing.Serial.{
  Happens, publishes, claims, runs, Serial, untouched, then_happens, claimed_session,
  Serial-IsConsistent, source_is_query_eligible-Serial,
}
use ce_local_studio.Indexing.Deleted.{Cancelled, Confirmed, IsIdle, cancel_source_index-Confirmed}
use ce_local_studio.Indexing.Undisturbed.{run_once-IsConsistent}
use ce_local_studio.Indexing.Worker.{
  Session, Run, run_once, run_submitting, flush, Others, Submission,
}

abbrev prefix : ℕ → ℕ
prefix hash = hash

abbrev fresh : Source
fresh = record {
  id = 1;
  prepared = true;
  index_state = not_requested;
  index_generation = 0;
  index_request_id = none;
  index_content_hash = none;
  index_remote_document_id = none;
  index_error_code = none;
  index_lease_owner = none;
  index_lease_expires_at = none;
  index_accepted_at = none;
  index_ready_at = none;
  index_updated_at = none;
  updated_at = 0;
  version = 1;
}

abbrev domain : Domain
domain = record {
  state = running;
  indexing_ever_started = false;
  graph_desired_generation = 3;
  graph_applied_generation = 3;
  updated_at = 0;
}

fresh-IsConsistent : IsConsistent prefix fresh
fresh-IsConsistent = record { identified = λ h. cc; landed = λ h. cc; finished = λ h. cc }

abbrev queued_source : Source
queued_source = queue_new_generation prefix 70 10 fresh

queues : Happens prefix fresh queued_source
unfolding queue_new_generation queue_source_index_after_publish
queues = publishes 70 10

abbrev request : RequestId
request = record { source_id = 1; generation = 1; content_prefix = 70 }

-- A source at generation 2.
abbrev requeued : Source
requeued = queue_new_generation prefix 71 20 queued_source

abbrev submitted_source : Source
submitted_source = claim_source 5 60 11 queued_source

cancels : Outcome.raised (cancel_source_index (deleted true) 40 domain submitted_source) ≡ none
unfolding cancel_source_index needs_remote_delete delete_remote_if_needed claim_source
    queue_new_generation
cancels = refl

cancel_source_index-Confirmed_example :
    Cancelled submitted_source
      (Outcome.source (cancel_source_index (deleted true) 40 domain submitted_source))
    × (Confirmed
          (deleted true)
          domain
          (Outcome.domain (cancel_source_index (deleted true) 40 domain submitted_source))
        ⊎ IsIdle submitted_source)
cancel_source_index-Confirmed_example =
    cancel_source_index-Confirmed (deleted true) 40 domain submitted_source (omega arith) cancels

-- A source that is cancelled while it is submitted, where the runtime fails to delete: a second
-- cancellation ends it without asking the runtime again.
abbrev half_cancelled : Source
half_cancelled = Outcome.source (cancel_source_index (delete_raises 9) 40 domain submitted_source)

cancel_again :
    (is_state cancelling half_cancelled ≡ true)
    × (needs_remote_delete half_cancelled ≡ false)
    × (is_state cancelled
          (Outcome.source (cancel_source_index (delete_raises 9) 50 domain half_cancelled))
        ≡ true)
unfolding cancel_source_index needs_remote_delete delete_remote_if_needed claim_source
    queue_new_generation start_cancel finish_cancel remote_delete_required
cancel_again = (refl, refl, refl)

-- A cancellation that commits while the worker waits for the runtime is overwritten: the worker
-- checks the copy of the row that its session keeps.
abbrev cancelled_meanwhile : Others
cancelled_meanwhile = record {
  source = λ s. Outcome.source (cancel_source_index (deleted true) 40 domain s);
  domain = λ d. d;
}

abbrev run : Run
run = record {
  generation = 1;
  request_id = request;
  owner = 5;
  lease_seconds = 60;
  backoff_seconds = 30;
  now = 12;
  private_remote_id = 8;
  probing = cancelled_meanwhile;
  readiness = record { ready = false; failed = false; error_code = none };
  allows_submit = true;
  seal_error = none;
  submitting = cancelled_meanwhile;
  submission = Submission.lease_lost;
}

abbrev after_run : Session
after_run =
    run_once run (record { held = submitted_source; row = submitted_source; domain = domain })

cancel_overwritten :
    (is_state accepted after_run.row ≡ true) × (after_run.row.index_request_id ≡ none)
unfolding run_once cancel_source_index needs_remote_delete delete_remote_if_needed claim_source
    queue_new_generation start_cancel finish_cancel remote_delete_required run_submitting flush
    heartbeat_index_lease index_lease_current mark_index_accepted_if_current
    worker_result_is_current
cancel_overwritten = (refl, refl)

submits : is_index_claimable 11 queued_source ≡ true
unfolding is_index_claimable queue_new_generation
submits = refl

abbrev nobody : Others
nobody = record { source = λ s. s; domain = λ d. d }

abbrev quiet_run : Run
quiet_run = record run { probing = nobody; submitting = nobody }

submitted-IsConsistent : IsConsistent prefix submitted_source
submitted-IsConsistent =
    Serial-IsConsistent prefix fresh-IsConsistent
      (then_happens (then_happens untouched queues) (claims 5 60 11 submits))

run_once-IsConsistent_example :
    let s' = run_once quiet_run (claimed_session submitted_source domain) in
    (s'.held ≡ s'.row) × IsConsistent prefix s'.row
run_once-IsConsistent_example =
    run_once-IsConsistent prefix quiet_run submitted_source domain ((λ y. refl), (λ y. refl))
      submitted-IsConsistent

-- A worker claims the source, finds it in the runtime, not ready yet, and accepts it.
serves : Serial prefix fresh (run_once quiet_run (claimed_session submitted_source domain)).row
serves =
    then_happens (then_happens (then_happens untouched queues) (claims 5 60 11 submits))
      (runs quiet_run domain ((λ y. refl), (λ y. refl)))

Serial-IsConsistent_example :
    IsConsistent prefix (run_once quiet_run (claimed_session submitted_source domain)).row
Serial-IsConsistent_example = Serial-IsConsistent prefix fresh-IsConsistent serves

source_is_query_eligible-Serial_example :
    let x = (run_once quiet_run (claimed_session submitted_source domain)).row in
    source_is_query_eligible prefix true x ≡ (true && x.prepared && is_state ready x)
source_is_query_eligible-Serial_example =
    source_is_query_eligible-Serial prefix true fresh-IsConsistent serves

-- A session that still holds the source as it was submitted, while the row is published again.
abbrev overtaken : Session
overtaken = record {
  held = submitted_source;
  row = queue_new_generation prefix 71 20 submitted_source;
  domain = domain;
}

requested : submitted_source.index_request_id ≡ some request
unfolding claim_source queue_new_generation
requested = refl

cancel-Raises : Raises cancelled_meanwhile
unfolding cancel_source_index needs_remote_delete delete_remote_if_needed start_cancel finish_cancel
cancel-Raises x = ground arith

later : 1 < overtaken.row.index_generation
unfolding claim_source queue_new_generation
later = omega arith

superseded_run_example : LeftToOthers run overtaken.row (run_once run overtaken).row
superseded_run_example =
    superseded_run run overtaken request later requested cancel-Raises cancel-Raises
