-- ===== src/Preparation/Doomed.antt =====
-- A source that is being deleted.
use ce_local_studio.Base.{
  ℕ, ◌≤◌, ◌≡◌, ◌≢◌, refl, sym, ap, true, Option, some, List, arith, inl, inr, Option-cases, ok,
  Result, Result-cases,
}
use ce_local_studio.Preparation.Types.{
  PreparationOperation, SourceDocument, SourceRows, is_pending, is_deleting, SourceError,
  SourceState, PreparationType,
}
use ce_local_studio.Indexing.Types.{DomainState}
use ce_local_studio.Preparation.Requests.{
  Answer, next_generation, queued_operation, cancel_active_operation_for_delete, insert_operation,
  open_operation, after_check, may_delete, enqueue_delete_source,
}
use ce_local_studio.Preparation.Worker.{PreparationSettings}
use ce_local_studio.Preparation.Kept.{Kept, Closed}
use ce_local_studio.Preparation.Steps.{Steps, Steps-Kept}

-- It is being deleted, at generation `g` or later.
abbrev pub Doomed : ℕ → SourceDocument → Type 0
Doomed g s = (is_deleting s.state ≡ true) × (g ≤ s.preparation_generation)

deleting_not_pending : (s : SourceDocument) → is_deleting s.state ≡ true → is_pending s.state ≢ true
deleting_not_pending s d p = ground (arith, d, p)

opened-Doomed :
    (new : PreparationOperation) (source : SourceDocument) (os : List PreparationOperation)
    (rows mid : SourceRows) (operation : PreparationOperation)
    → is_deleting source.state ≡ true
    → new.preparation_generation_at_start ≤ source.preparation_generation
    → open_operation new source os rows ≡ (ok operation, mid)
    → Kept (Doomed operation.preparation_generation_at_start) mid.source
opened-Doomed new source os rows mid operation d l e =
    elim (Option-cases (insert_operation new os)) [
      | inl n ↦ absurd (cc (rw (n, open_operation) at e))
      | inr (os', h) ↦
          let done : ◌≡◌ {A = Answer PreparationOperation}
              (ok new, record { source = some source; operations = os' }) (ok operation, mid) =
            rw (h, open_operation) at e in
          let there : some source ≡ mid.source =
            ap (λ (x : Answer PreparationOperation). x.1.source) done in
          let answered : ◌≡◌ {A = Result SourceError PreparationOperation} (ok new) (ok operation) =
            ap (λ (x : Answer PreparationOperation). x.0) done in
          let same : new ≡ operation = cc answered in inr (source, sym there, (d, rw (← same) l))
    ]

Doomed-Closed : (g : ℕ) → Closed (Doomed g)
Doomed-Closed g = record {
  advances = λ s now pending (d, h). absurd (deleting_not_pending s d pending);
  dooms = λ s now (d, h). (refl, omega (arith, h));
  prepares = λ s content now pending (d, h). absurd (deleting_not_pending s d pending);
}

-- What an accepted request leaves.
accepted-Doomed :
    (domain : Option DomainState) (version id now : ℕ) (rows mid : SourceRows)
    (operation : PreparationOperation)
    → enqueue_delete_source domain version id now rows ≡ (ok operation, mid)
    → Kept (Doomed operation.preparation_generation_at_start) mid.source
unfolding enqueue_delete_source
accepted-Doomed domain version id now rows mid operation e =
    elim (Result-cases (may_delete domain version rows)) [
      | inl (raised, h) ↦ absurd (cc (rw (h, after_check) at e))
      | inr (s, h) ↦
          let doomed = record (next_generation now s) { state = SourceState.deleting } in
          opened-Doomed
            (queued_operation PreparationType.delete id doomed.preparation_generation now) doomed
            (cancel_active_operation_for_delete now rows.operations) rows mid operation refl
            (omega arith) (rw (h, after_check) at e)
    ]

-- Once a request to delete a source is accepted, whatever the other requests and workers commit after it,
-- with whatever copies of the rows, the source is gone or still being deleted, at no earlier generation
-- than the deletion's: no retry, cancellation or publication brings it back.
pub accepted_deletion_final :
    {settings : PreparationSettings} (domain : Option DomainState) (version id now : ℕ)
    (rows mid after : SourceRows) (operation : PreparationOperation)
    → enqueue_delete_source domain version id now rows ≡ (ok operation, mid)
    → Steps settings mid after
    → Kept (Doomed operation.preparation_generation_at_start) after.source
accepted_deletion_final domain version id now rows mid after operation e path =
    Steps-Kept path (Doomed operation.preparation_generation_at_start)
      (Doomed-Closed operation.preparation_generation_at_start)
      (accepted-Doomed domain version id now rows mid operation e)
