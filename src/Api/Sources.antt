-- ===== src/Api/Sources.antt =====
-- `admin_retry_source`, `admin_delete_source` and `admin_retry_source_index`; the world is the rows of the
-- source that the path names, and for its index the source and its domain, which are found.
use ce_local_studio.Base.{ℕ, Bool, true, false, Option, none, some, [], ◌∷◌, Result, ok, err}
use ce_local_studio.Turn.Types.{Text}
use ce_local_studio.Indexing.Types.{DomainState, Domain, Source}
use ce_local_studio.Indexing.Requests.{Deletion, Outcome, IndexError, retry_source_index}
use ce_local_studio.Preparation.Types.{
  PreparationOperation, SourceRows, SourceError, not_found, stale_data,
}
use ce_local_studio.Preparation.Requests.{Answer, retry_source, enqueue_delete_source}
use ce_local_studio.Preparation.Worker.{find_row}
use ce_local_studio.Api.Request.{Handler}

abbrev pub source_retry : ℕ
source_retry = 7

abbrev pub source_delete : ℕ
source_delete = 9

-- The text `source_operation`.
abbrev pub source_operation_kind : Text
source_operation_kind =
    115 ∷ 111 ∷ 117 ∷ 114 ∷ 99 ∷ 101 ∷ 95 ∷ 111 ∷ 112 ∷ 101 ∷ 114 ∷ 97 ∷ 116 ∷ 105 ∷ 111 ∷ 110 ∷ []

-- The handlers catch `SourceError`, not the error of the session for a row that is gone.
abbrev is_caught_source : SourceError → Bool
is_caught_source stale_data = false
is_caught_source _ = true

module _ (dumps : ℕ → Text) where
  abbrev pub answering_source_operation :
      ℕ
      → (SourceRows → Answer PreparationOperation)
      → Handler SourceRows SourceError PreparationOperation
  answering_source_operation route_class service = record {
    route_class = route_class;
    http_status = 202;
    response_kind = source_operation_kind;
    perform = service;
    response_refs = λ operation. dumps operation.id;
    stored_row = λ id rows. elim (find_row id rows.operations) [
      | none ↦ err not_found
      | some operation ↦ ok operation
    ];
    caught = is_caught_source;
  }

  unfoldable pub admin_retry_source :
      Option DomainState → ℕ → ℕ → Handler SourceRows SourceError PreparationOperation
  unfolding retry_source
  admin_retry_source domain operation_id now =
      answering_source_operation source_retry (retry_source domain operation_id now)

  -- The version is that of `If-Match`, parsed.
  unfoldable pub admin_delete_source :
      Option DomainState → ℕ → ℕ → ℕ → Handler SourceRows SourceError PreparationOperation
  unfolding enqueue_delete_source
  admin_delete_source domain expected_version operation_id now =
      answering_source_operation source_delete
        (enqueue_delete_source domain expected_version operation_id now)

abbrev pub source_index_retry : ℕ
source_index_retry = 8

-- The text `source_index`.
abbrev source_index_kind : Text
source_index_kind = 115 ∷ 111 ∷ 117 ∷ 114 ∷ 99 ∷ 101 ∷ 95 ∷ 105 ∷ 110 ∷ 100 ∷ 101 ∷ 120 ∷ []

-- A source and its domain, as the index sees them.
pub record Indexed : Type 0 where
  pub source : Source
  pub domain : Domain

abbrev outcome_of : Option IndexError → Source → Result IndexError Source
outcome_of none source = ok source
outcome_of (some raised) source = err raised

abbrev requeued : Outcome → Result IndexError Source × Indexed
requeued outcome = (
  outcome_of (Outcome.raised outcome) (Outcome.source outcome),
  record { source = Outcome.source outcome; domain = Outcome.domain outcome },
)

unfoldable pub admin_retry_source_index :
    (ℕ → Text) → (ℕ → ℕ) → ℕ → Deletion → ℕ → Handler Indexed IndexError Source
unfolding retry_source_index
admin_retry_source_index dumps prefix content_hash deletion now = record {
  route_class = source_index_retry;
  http_status = 202;
  response_kind = source_index_kind;
  perform = λ indexed.
      requeued (retry_source_index prefix content_hash deletion now indexed.domain indexed.source);
  response_refs = λ source. dumps source.id;
  stored_row = λ id indexed. ok indexed.source;
  caught = λ raised. true;
}
