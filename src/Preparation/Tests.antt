-- ===== src/Preparation/Tests.antt =====
-- Runs of the preparation (app/context_engine/services/sources.py) on concrete rows.
use ce_local_studio.Base.{◌≡◌, refl, true, none, some, [], ◌∷◌, ◌++◌, ok, arith}
use ce_local_studio.Indexing.Types.{DomainState}
use ce_local_studio.Preparation.Types.{
  PreparationType, PreparationStatus, PreparationOperation, SourceDocument, SourceState, SourceRows,
}
use ce_local_studio.Preparation.Requests.{
  cancel_source, retry_source, enqueue_delete_source, queued_operation,
}
use ce_local_studio.Preparation.Publish.{PreparedSource, publish_prepared_source}
use ce_local_studio.Preparation.Worker.{
  PreparationSettings, PreparationRun, Parsed, claim_next_operation, run_once,
}
use ce_local_studio.Preparation.DeleteWorker.{DeleteSettings, DeleteRun, run_delete_once}
use ce_local_studio.Preparation.Steps.{Step, Steps}
use ce_local_studio.Preparation.Kept.{Kept}
use ce_local_studio.Preparation.Doomed.{Doomed, accepted_deletion_final}
use ce_local_studio.Preparation.Stale.{superseded_preparation}

abbrev settings : PreparationSettings
settings = record { source_prep_worker_id = 7; source_prep_lease_seconds = 30 }

abbrev queued : PreparationOperation
queued = record {
  id = 1;
  operation_type = PreparationType.prepare;
  status = PreparationStatus.queued;
  preparation_generation_at_start = 1;
  error_code = none;
  lease_owner = none;
  lease_expires_at = none;
  started_at = none;
  finished_at = none;
  created_at = 5;
  updated_at = 5;
  version = 1;
}

abbrev running : PreparationOperation
running = record queued {
  status = PreparationStatus.running;
  lease_owner = some 7;
  lease_expires_at = some 40;
  started_at = some 10;
  updated_at = 10;
}

abbrev pending : SourceDocument
pending = record {
  id = 3;
  state = SourceState.pending;
  preparation_generation = 1;
  parser_kind = 0;
  content = none;
  version = 1;
  updated_at = 5;
}

abbrev uploaded : SourceRows
uploaded = record { source = some pending; operations = queued ∷ [] }

abbrev prepared : PreparedSource
prepared = record {
  source_document_id = 3;
  parser_kind = 0;
  content = 99;
  valid = true;
  stored = true;
}

abbrev undisturbed : PreparationRun
undisturbed = record {
  claimed_at = 10;
  first_beat = 11;
  second_beat = 20;
  checked = 21;
  finishing = 22;
  answer = Parsed.parsed prepared;
  others = λ rows. rows;
}

run_once_publishes : run_once settings undisturbed uploaded ≡ (
  ok true,
  record {
    source = some (record pending {
      state = SourceState.prepared;
      content = some 99;
      version = 2;
      updated_at = 22;
    });
    operations =
        record running {
          status = PreparationStatus.succeeded;
          lease_owner = none;
          lease_expires_at = none;
          finished_at = some 22;
          updated_at = 22;
        }
        ∷ [];
  },
)
unfolding run_once
run_once_publishes = refl

abbrev again : SourceDocument
again = record pending { preparation_generation = 2; version = 2; updated_at = 15 }

abbrev stopped : SourceRows
stopped = record {
  source = some again;
  operations =
      record running {
        status = PreparationStatus.cancelled;
        lease_owner = none;
        lease_expires_at = none;
        finished_at = some 15;
        updated_at = 15;
        version = 2;
      }
      ∷ [];
}

cancel_source_stops :
    cancel_source (some DomainState.running) 1 15 (record uploaded { operations = running ∷ [] })
    ≡ (ok tt, stopped)
unfolding cancel_source
cancel_source_stops = refl

superseded_preparation_example :
    (publish_prepared_source 7 21 22 prepared
      (some running)
      (some pending)
      (claim_next_operation settings 17
        (retry_source (some DomainState.running) 2 16 stopped).1).1).1
    ≡ (claim_next_operation settings 17 (retry_source (some DomainState.running) 2 16 stopped).1).1
superseded_preparation_example =
    superseded_preparation
      (Steps.next (Steps.next Steps.here (Step.retrying (some DomainState.running) 2 16))
        (Step.claiming 17))
      running again refl (omega arith) 7 21 22 prepared (some pending)

abbrev deleter : DeleteSettings
deleter = record { source_delete_worker_id = 8; source_delete_lease_seconds = 60 }

abbrev removal : DeleteRun
removal = record {
  claimed_at = 20;
  first_beat = 21;
  second_beat = 22;
  checked = 23;
  finishing = 24;
  cleanup_index = λ source rows. (ok source, rows);
  files_removed = true;
  others = λ rows. rows;
}

-- A request to delete cancels the preparation that runs, and the delete worker removes the source.
deletion_removes :
    run_delete_once deleter removal
      (enqueue_delete_source
        (some DomainState.running)
        1
        2
        15
        (record uploaded { operations = running ∷ [] })).1
    ≡ (ok true, record { source = none; operations = [] })
unfolding run_delete_once enqueue_delete_source
deletion_removes = refl

abbrev doomed : SourceRows
doomed = record {
  source = some (record pending {
    state = SourceState.deleting;
    preparation_generation = 2;
    version = 2;
    updated_at = 15;
  });
  operations = stopped.operations ++ queued_operation PreparationType.delete 2 2 15 ∷ [];
}

accepts :
    enqueue_delete_source
      (some DomainState.running)
      1
      2
      15
      (record uploaded { operations = running ∷ [] })
    ≡ (ok (queued_operation PreparationType.delete 2 2 15), doomed)
unfolding enqueue_delete_source
accepts = refl

-- A publication that comes late.
accepted_deletion_final_example :
    Kept
      (Doomed 2)
      (publish_prepared_source 7 21 22 prepared (some running) (some pending) doomed).1.source
accepted_deletion_final_example =
    accepted_deletion_final {settings = settings} (some DomainState.running) 1 2 15
      (record uploaded { operations = running ∷ [] }) doomed
      (publish_prepared_source 7 21 22 prepared (some running) (some pending) doomed).1
      (queued_operation PreparationType.delete 2 2 15) accepts
      (Steps.next Steps.here (Step.publishing 7 21 22 prepared (some running) (some pending)))
