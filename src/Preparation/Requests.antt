-- ===== src/Preparation/Requests.antt =====
-- `retry_source`, `cancel_source` and `enqueue_delete_source`, each one transaction. The domain's state
-- is given; the turns that a delete redacts are in Turn/Redact.antt.
use ce_local_studio.Base.{
  ℕ, ◌+◌, Bool, true, false, not, ◌&&◌, ◌||◌, Option, none, some, List, [], ◌∷◌, ◌++◌, is_some, any,
  ltb, ◌==◌, if◌then◌else◌, Result, ok, err, ◌>>=◌, ◌>>◌,
}
use ce_local_studio.Indexing.Types.{DomainState}
use ce_local_studio.Preparation.Types.{
  PreparationType, PreparationStatus, PreparationOperation, SourceDocument, SourceState, SourceRows,
  SourceError, domain_not_found, domain_state_conflict, source_not_found, stale_revision,
  source_state_conflict, operation_conflict, is_pending, is_deleting, is_active, is_prepare,
}

abbrev pub Answer {ℓ} : Type ℓ → Type ℓ
Answer A = Result SourceError A × SourceRows

abbrev pub raised_if {ℓ} :
    {A : Type ℓ} → Bool → SourceError → Result SourceError A → Result SourceError A
raised_if true error rest = err error
raised_if false error rest = rest

abbrev pub domain_or_404 : Option DomainState → Result SourceError (Unit {0})
domain_or_404 none = err domain_not_found
domain_or_404 (some DomainState.deleting) = err domain_state_conflict
domain_or_404 (some _) = ok tt

abbrev pub source_or_404 : SourceRows → Result SourceError SourceDocument
source_or_404 rows = elim rows.source [ none ↦ err source_not_found | some source ↦ ok source ]

abbrev pub require_source_version : SourceDocument → ℕ → Result SourceError (Unit {0})
require_source_version source expected_version =
    raised_if (not (source.version == expected_version)) stale_revision (ok tt)

abbrev pub first_of : PreparationOperation → Option PreparationOperation → PreparationOperation
first_of o none = o
first_of o (some p) =
    if ltb o.created_at p.created_at || ((o.created_at == p.created_at) && ltb p.id o.id)
    then p
    else o

-- `ORDER BY created_at DESC, id`, the first row of the active ones.
unfoldable pub active_operation : List PreparationOperation → Option PreparationOperation
active_operation [] = none
active_operation (o ∷ os) =
    let rest = active_operation os in if is_active o.status then some (first_of o rest) else rest

abbrev pub has_row : ℕ → List PreparationOperation → Bool
has_row id = any (λ (o : PreparationOperation). o.id == id)

-- `INSERT`, under the primary key and the index that lets a source have one active operation.
unfoldable pub insert_operation :
    PreparationOperation → List PreparationOperation → Option (List PreparationOperation)
insert_operation new operations =
    if has_row new.id operations
      || any (λ (o : PreparationOperation). is_active o.status) operations
    then none
    else some (operations ++ new ∷ [])

abbrev pub update_row :
    ℕ
    → (PreparationOperation → PreparationOperation)
    → List PreparationOperation
    → List PreparationOperation
update_row id change [] = []
update_row id change (o ∷ os) = (if o.id == id then change o else o) ∷ update_row id change os

-- A queued operation of the source's generation.
abbrev pub queued_operation : PreparationType → ℕ → ℕ → ℕ → PreparationOperation
queued_operation type id generation now = record {
  id = id;
  operation_type = type;
  status = PreparationStatus.queued;
  preparation_generation_at_start = generation;
  error_code = none;
  lease_owner = none;
  lease_expires_at = none;
  started_at = none;
  finished_at = none;
  created_at = now;
  updated_at = now;
  version = 1;
}

abbrev pub next_generation : ℕ → SourceDocument → SourceDocument
next_generation now source = record source {
  preparation_generation = source.preparation_generation + 1;
  version = source.version + 1;
  updated_at = now;
}

abbrev pub after_check {ℓ κ} :
    {A : Type ℓ} {B : Type κ} → SourceRows → Result SourceError A → (A → Answer B) → Answer B
after_check rows (err raised) rest = (err raised, rows)
after_check rows (ok value) rest = rest value

-- The commit of a new operation with the source it changes; a refused row is rolled back.
abbrev pub open_operation :
    PreparationOperation
    → SourceDocument
    → List PreparationOperation
    → SourceRows
    → Answer PreparationOperation
open_operation operation source operations rows = elim (insert_operation operation operations) [
  | none ↦ (err operation_conflict, rows)
  | some inserted ↦ (ok operation, record { source = some source; operations = inserted })
]

unfoldable pub may_retry : Option DomainState → SourceRows → Result SourceError SourceDocument
unfolding active_operation
may_retry domain rows = domain_or_404 domain >> source_or_404 rows >>= λ source.
    raised_if (not (is_pending source.state)) source_state_conflict
      (raised_if (is_some (active_operation rows.operations)) operation_conflict (ok source))

unfoldable pub retry_source : Option DomainState → ℕ → ℕ → SourceRows → Answer PreparationOperation
unfolding may_retry insert_operation
retry_source domain operation_id now rows = after_check rows (may_retry domain rows) (λ source.
    let advanced = next_generation now source in
    open_operation
      (queued_operation PreparationType.prepare operation_id advanced.preparation_generation now)
      advanced rows.operations rows)

abbrev active_prepare : Option PreparationOperation → Result SourceError PreparationOperation
active_prepare none = err source_state_conflict
active_prepare (some operation) =
    raised_if (not (is_prepare operation.operation_type)) source_state_conflict (ok operation)

abbrev pub cancelled_row : PreparationOperation → ℕ → PreparationOperation → PreparationOperation
cancelled_row copy now row = record row {
  status = PreparationStatus.cancelled;
  error_code = none;
  lease_owner = none;
  lease_expires_at = none;
  finished_at = some now;
  version = copy.version + 1;
  updated_at = now;
}

unfoldable pub may_cancel :
    Option DomainState → ℕ → SourceRows → Result SourceError (SourceDocument × PreparationOperation)
unfolding active_operation
may_cancel domain expected_version rows = domain_or_404 domain >> source_or_404 rows >>= λ source.
    require_source_version source expected_version
    >> raised_if (not (is_pending source.state)) source_state_conflict
        (active_prepare (active_operation rows.operations) >>= λ operation. ok (source, operation))

unfoldable pub cancel_source : Option DomainState → ℕ → ℕ → SourceRows → Answer (Unit {0})
unfolding may_cancel
cancel_source domain expected_version now rows =
    after_check rows (may_cancel domain expected_version rows) (λ (source, operation). (
      ok tt,
      record {
        source = some (next_generation now source);
        operations = update_row operation.id (cancelled_row operation now) rows.operations;
      },
    ))

-- `_cancel_active_operation_for_delete`
unfoldable pub cancel_active_operation_for_delete :
    ℕ → List PreparationOperation → List PreparationOperation
unfolding active_operation
cancel_active_operation_for_delete now operations = elim (active_operation operations) [
  | none ↦ operations
  | some operation ↦ update_row operation.id (cancelled_row operation now) operations
]

unfoldable pub may_delete : Option DomainState → ℕ → SourceRows → Result SourceError SourceDocument
unfolding active_operation
may_delete domain expected_version rows = domain_or_404 domain >> source_or_404 rows >>= λ source.
    require_source_version source expected_version
    >> raised_if (is_some (active_operation rows.operations) && is_deleting source.state)
        operation_conflict (ok source)

unfoldable pub enqueue_delete_source :
    Option DomainState → ℕ → ℕ → ℕ → SourceRows → Answer PreparationOperation
unfolding may_delete cancel_active_operation_for_delete insert_operation
enqueue_delete_source domain expected_version operation_id now rows =
    after_check rows (may_delete domain expected_version rows) (λ source.
      let doomed = record (next_generation now source) { state = SourceState.deleting } in
      open_operation
        (queued_operation PreparationType.delete operation_id doomed.preparation_generation now)
        doomed (cancel_active_operation_for_delete now rows.operations) rows)
