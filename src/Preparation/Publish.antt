-- ===== src/Preparation/Publish.antt =====
-- `publish_prepared_source`: a parsed source is stored where its operation still is the current one,
-- first by the session's copies and at the end by conditional updates of the rows.
use ce_local_studio.Base.{
  ℕ, ◌+◌, Bool, true, false, not, ◌&&◌, ◌||◌, Option, none, some, List, [], ◌∷◌, same_option, ◌==◌,
  if◌then◌else◌, ok, err,
}
use ce_local_studio.Turn.Lease.{not_expired}
use ce_local_studio.Preparation.Types.{
  PreparationStatus, PreparationOperation, SourceDocument, SourceState, SourceRows,
  storage_unavailable, preparation_invalid, is_pending, has_status_running,
}
use ce_local_studio.Preparation.Requests.{Answer}

-- What the parser returned; `valid` says that `validate_prepared_source` lets it through, `stored` that
-- its images could be written.
pub record PreparedSource : Type 0 where
  pub source_document_id : ℕ
  pub parser_kind : ℕ
  pub content : ℕ
  pub valid : Bool
  pub stored : Bool

unfoldable pub prep_lease_current : ℕ → ℕ → PreparationOperation → Bool
prep_lease_current owner current operation =
    if not (has_status_running operation.status)
    then false
    else if not (same_option operation.lease_owner (some owner))
    then false
    else not_expired operation.lease_expires_at current

-- The condition of the operation's update.
abbrev pub is_current_row : ℕ → ℕ → ℕ → ℕ → PreparationOperation → Bool
is_current_row operation_id owner generation now row =
    (row.id == operation_id)
    && has_status_running row.status
    && same_option row.lease_owner (some owner)
    && not_expired row.lease_expires_at now
    && (row.preparation_generation_at_start == generation)

abbrev pub succeeded_row : ℕ → PreparationOperation → PreparationOperation
succeeded_row now row = record row {
  status = PreparationStatus.succeeded;
  error_code = none;
  lease_owner = none;
  lease_expires_at = none;
  finished_at = some now;
  updated_at = now;
}

-- The operations after the update, where it changed a row.
unfoldable pub cas_operation :
    ℕ → ℕ → ℕ → ℕ → List PreparationOperation → Option (List PreparationOperation)
cas_operation operation_id owner generation now [] = none
cas_operation operation_id owner generation now (row ∷ rows) =
    let rest = cas_operation operation_id owner generation now rows in
    if is_current_row operation_id owner generation now row
    then some (succeeded_row now row ∷ rows)
    else elim rest [ none ↦ none | some changed ↦ some (row ∷ changed) ]

unfoldable pub cas_source : ℕ → ℕ → ℕ → Option SourceDocument → Option SourceDocument
cas_source generation content now none = none
cas_source generation content now (some source) =
    if is_pending source.state && (source.preparation_generation == generation)
    then some
        (record source { state = SourceState.prepared; content = some content; updated_at = now })
    else none

-- What `queue_source_index_after_publish` writes to these columns; the columns of the index are those
-- of Indexing. A prepared source, as the update leaves it, is never refused there.
abbrev pub index_queued : SourceDocument → SourceDocument
index_queued source = record source { version = source.version + 1 }

-- `_cas_finalize_preparation` with the blocks, the images and the new index generation of the same
-- transaction: the rows where both updates changed one.
unfoldable pub cas_finalize_preparation : ℕ → ℕ → ℕ → ℕ → ℕ → SourceRows → Option SourceRows
unfolding cas_operation cas_source
cas_finalize_preparation operation_id owner generation content now rows =
    elim (cas_operation operation_id owner generation now rows.operations) [
      | none ↦ none
      | some operations ↦ elim (cas_source generation content now rows.source) [
        | none ↦ none
        | some source ↦
            some (record { source = some (index_queued source); operations = operations })
      ]
    ]

abbrev pub published : SourceRows → Option SourceRows → Answer Bool
published rows none = (ok false, rows)
published rows (some after) = (ok true, after)

-- The checks of the copies that the session holds.
unfoldable pub publish_copies :
    ℕ → ℕ → ℕ → PreparedSource → PreparationOperation → SourceDocument → SourceRows → Answer Bool
unfolding prep_lease_current cas_finalize_preparation
publish_copies owner now finishing prepared operation source rows =
    if not (is_pending source.state)
      || not (source.preparation_generation == operation.preparation_generation_at_start)
    then (ok false, rows)
    else if not (source.id == prepared.source_document_id)
        || not (source.parser_kind == prepared.parser_kind)
    then (err preparation_invalid, rows)
    else if not prepared.stored
    then (err storage_unavailable, rows)
    else published rows (
        cas_finalize_preparation operation.id owner operation.preparation_generation_at_start
          prepared.content finishing rows)

unfoldable pub publish_found :
    ℕ
    → ℕ
    → ℕ
    → PreparedSource
    → Option PreparationOperation
    → Option SourceDocument
    → SourceRows
    → Answer Bool
unfolding prep_lease_current publish_copies
publish_found owner now finishing prepared none source rows = (ok false, rows)
publish_found owner now finishing prepared (some operation) none rows = (ok false, rows)
publish_found owner now finishing prepared (some operation) (some source) rows =
    if not (prep_lease_current owner now operation)
    then (ok false, rows)
    else publish_copies owner now finishing prepared operation source rows

unfoldable pub publish_prepared_source :
    ℕ
    → ℕ
    → ℕ
    → PreparedSource
    → Option PreparationOperation
    → Option SourceDocument
    → SourceRows
    → Answer Bool
unfolding publish_found
publish_prepared_source owner now finishing prepared operation source rows =
    if not prepared.valid
    then (err preparation_invalid, rows)
    else publish_found owner now finishing prepared operation source rows
