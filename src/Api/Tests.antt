-- ===== src/Api/Tests.antt =====
-- Requests with keys on the rows of a source: a retry, the same again, and the key for another payload.
use ce_local_studio.Base.{
  ℕ, ◌≡◌, refl, Option, none, some, List, [], ◌∷◌, ok, err, zero, suc, length,
}
use ce_local_studio.Turn.Types.{Text}
use ce_local_studio.Turn.Stream.{strip}
use ce_local_studio.Indexing.Types.{DomainState}
use ce_local_studio.Idempotency.{
  HttpIdempotencyRecord, idempotency_conflict, new_record, completed_record, begin_idempotent,
  hash_idempotency_key,
}
use ce_local_studio.Idempotency.Once.{done}
use ce_local_studio.Preparation.Types.{
  PreparationType, PreparationOperation, SourceDocument, SourceState, SourceRows, SourceError,
}
use ce_local_studio.Preparation.Requests.{queued_operation}
use ce_local_studio.Api.Request.{State, Keyed, RouteError, Arrival, keyed_request, serve}
use ce_local_studio.Api.Domains.{is_route_class}
use ce_local_studio.Api.Sources.{admin_retry_source, source_retry, source_operation_kind}
use ce_local_studio.Api.Spec.{spec_serve, abstraction}
use ce_local_studio.Api.Refines.{abstracted_all, serve-promised}
use ce_local_studio.Api.Released.{failed_request_releases}
use ce_local_studio.Api.Settled.{performed_once}

abbrev repeated : ℕ → ℕ → Text
repeated zero c = []
repeated (suc n) c = c ∷ repeated n c

abbrev who : ℕ → Keyed
who c = record { principal_user_id = 5; raw_key = 107 ∷ []; fingerprint = repeated 64 c }

-- References are texts of one number.
abbrev read : Text → Option ℕ
read [] = none
read (c ∷ cs) = some c

abbrev pending : SourceDocument
pending = record {
  id = 3;
  state = SourceState.pending;
  preparation_generation = 1;
  parser_kind = 0;
  content = none;
  version = 1;
  updated_at = 5;
}

abbrev idle_source : State SourceRows
idle_source = record { table = []; world = record { source = some pending; operations = [] } }

abbrev operation : PreparationOperation
operation = queued_operation PreparationType.prepare 2 2 16

abbrev claim : HttpIdempotencyRecord
claim = new_record 5 source_retry 1 (repeated 64 97)

abbrev retried : State SourceRows
retried = record {
  table = completed_record 202 source_operation_kind (2 ∷ []) 20 claim ∷ [];
  world = record {
    source = some (record pending { preparation_generation = 2; version = 2; updated_at = 16 });
    operations = operation ∷ [];
  };
}

first_retry :
    keyed_request some [] read length is_route_class
      (admin_retry_source (λ n. n ∷ []) (some DomainState.running) 2 16)
      (who 97)
      20
      (λ t. t)
      idle_source
    ≡ (ok (202, operation), retried)
unfolding keyed_request admin_retry_source begin_idempotent hash_idempotency_key strip
first_retry = refl

performed_once_example :
    (keyed_request some [] read length is_route_class
      (admin_retry_source (λ n. n ∷ []) (some DomainState.running) 4 30)
      (who 98)
      31
      (λ t. t)
      retried).1
    ≡ retried
unfolding admin_retry_source
performed_once_example =
    performed_once some [] read length is_route_class
      (admin_retry_source (λ n. n ∷ []) (some DomainState.running) 2 16) (who 97) 20 (λ t. t)
      idle_source (202, operation) retried (λ t. refl) first_retry retried.table done
      (admin_retry_source (λ n. n ∷ []) (some DomainState.running) 4 30) (who 98) 31 (λ t. t)
      retried.world refl refl refl

abbrev arrivals : List (Arrival SourceRows SourceError PreparationOperation)
arrivals =
    record {
      handler = admin_retry_source (λ n. n ∷ []) (some DomainState.running) 2 16;
      key = some (who 97);
      now = 20;
    }
    ∷ record {
      handler = admin_retry_source (λ n. n ∷ []) (some DomainState.running) 4 30;
      key = some (who 97);
      now = 31;
    }
    ∷ record {
      handler = admin_retry_source (λ n. n ∷ []) (some DomainState.running) 6 40;
      key = some (who 98);
      now = 41;
    }
    ∷ []

-- The second retry answers with the first one's operation, the third is refused.
three_retries : serve some [] read length is_route_class arrivals idle_source ≡ (
  ok (202, operation)
      ∷ ok (202, operation)
      ∷ err (RouteError.idempotency idempotency_conflict)
      ∷ [],
  retried,
)
unfolding serve keyed_request admin_retry_source begin_idempotent hash_idempotency_key strip
three_retries = refl

serve-promised_example :
    abstracted_all [] (serve some [] read length is_route_class arrivals idle_source)
    ≡ spec_serve some read length is_route_class arrivals (abstraction [] idle_source)
serve-promised_example = serve-promised some [] read length is_route_class arrivals idle_source

conflict_raised :
    (admin_retry_source (λ n. n ∷ []) (some DomainState.running) 4 30).perform retried.world
    ≡ (err SourceError.operation_conflict, retried.world)
unfolding admin_retry_source
conflict_raised = refl

failed_request_releases_example :
    keyed_request some [] read length is_route_class
      (admin_retry_source (λ n. n ∷ []) (some DomainState.running) 4 30)
      (who 97)
      31
      (λ t. t)
      (record { table = []; world = retried.world })
    ≡ (
      err (RouteError.service SourceError.operation_conflict),
      record { table = []; world = retried.world },
    )
unfolding admin_retry_source strip
failed_request_releases_example =
    failed_request_releases some [] read length is_route_class
      (admin_retry_source (λ n. n ∷ []) (some DomainState.running) 4 30) (who 97) 31
      (record { table = []; world = retried.world }) SourceError.operation_conflict retried.world
      (refl, refl, refl) refl conflict_raised refl
