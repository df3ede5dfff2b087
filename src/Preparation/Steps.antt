-- ===== src/Preparation/Steps.antt =====
-- The transactions on the rows of a source, in any order, and the generation, which only grows.
use ce_local_studio.Base.{ℕ, refl, Option, none, [], inl}
use ce_local_studio.Indexing.Types.{DomainState}
use ce_local_studio.Preparation.Types.{
  PreparationError, PreparationOperation, SourceDocument, SourceRows,
}
use ce_local_studio.Preparation.Requests.{retry_source, cancel_source, enqueue_delete_source}
use ce_local_studio.Preparation.Publish.{PreparedSource, succeeded_row, publish_prepared_source}
use ce_local_studio.Preparation.DeleteWorker.{
  DeleteSettings, claim_next_delete, write_operation, finish_delete,
}
use ce_local_studio.Preparation.Worker.{
  PreparationSettings, claim_next_operation, heartbeat_prep_lease, fail_if_held,
}
use ce_local_studio.Preparation.Kept.{
  Kept, Closed, retry-Kept, cancel-Kept, delete-Kept, cas_finalize-Kept, publish-rows,
}
use ce_local_studio.Preparation.Kept.Workers.{
  claim-Kept, claim_delete-Kept, write-Kept, finish_delete-Kept, beat-Kept, fail-Kept,
}

pub data Step (settings : PreparationSettings) (rows : SourceRows) : SourceRows → Type 0 where
  retrying :
      (domain : Option DomainState) (id now : ℕ)
      → Step settings rows (retry_source domain id now rows).1
  cancelling :
      (domain : Option DomainState) (version now : ℕ)
      → Step settings rows (cancel_source domain version now rows).1
  deleting :
      (domain : Option DomainState) (version id now : ℕ)
      → Step settings rows (enqueue_delete_source domain version id now rows).1
  claiming : (now : ℕ) → Step settings rows (claim_next_operation settings now rows).1
  beating : (now id : ℕ) → Step settings rows (heartbeat_prep_lease settings now id rows).1
  failing :
      (now : ℕ) (code : PreparationError) (id : ℕ)
      → Step settings rows (fail_if_held settings now code id rows).1
  publishing :
      (owner now finishing : ℕ) (prepared : PreparedSource)
      (operation : Option PreparationOperation) (source : Option SourceDocument)
      → Step settings rows
          (publish_prepared_source owner now finishing prepared operation source rows).1
  claiming_delete :
      (deleter : DeleteSettings) (now : ℕ)
      → Step settings rows (claim_next_delete deleter now rows).1
  finishing_missing :
      (now id : ℕ) → Step settings rows (write_operation id (succeeded_row now) rows).1
  finishing_delete :
      (deleter : DeleteSettings) (checked now generation : ℕ) (operation : PreparationOperation)
      (source : SourceDocument)
      → Step settings rows (finish_delete deleter checked now generation operation source rows).1
  -- A domain's deletion takes the source away.
  purging : Step settings rows (record { source = none; operations = [] })

pub data Steps (settings : PreparationSettings) (rows : SourceRows) : SourceRows → Type 0 where
  here : Steps settings rows rows
  next :
      {mid after : SourceRows}
      → Steps settings rows mid
      → Step settings mid after
      → Steps settings rows after

pub Step-Kept :
    {settings : PreparationSettings} {rows after : SourceRows}
    → Step settings rows after
    → (Q : SourceDocument → Type 0) → Closed Q
    → Kept Q rows.source
    → Kept Q after.source
Step-Kept {rows = rows} (retrying domain id now) Q closed p =
    retry-Kept Q closed domain id now rows p
Step-Kept {rows = rows} (cancelling domain version now) Q closed p =
    cancel-Kept Q closed domain version now rows p
Step-Kept {rows = rows} (deleting domain version id now) Q closed p =
    delete-Kept Q closed domain version id now rows p
Step-Kept {settings} {rows} (claiming now) Q closed p = claim-Kept Q settings now rows p
Step-Kept {rows = rows} (claiming_delete deleter now) Q closed p =
    claim_delete-Kept Q deleter now rows p
Step-Kept {rows = rows} (finishing_missing now id) Q closed p =
    write-Kept Q id (succeeded_row now) rows p
Step-Kept {rows = rows} (finishing_delete deleter checked now generation operation source) Q closed
      p =
    finish_delete-Kept Q deleter checked now generation operation source rows p
Step-Kept {settings} {rows} (beating now id) Q closed p = beat-Kept Q settings now id rows p
Step-Kept {settings} {rows} (failing now code id) Q closed p =
    fail-Kept Q settings now code id rows p
Step-Kept {rows = rows} (publishing owner now finishing prepared operation source) Q closed p =
    publish-rows (λ x. Kept Q x.source) owner now finishing prepared operation source rows p
      (λ copy e.
        cas_finalize-Kept Q closed copy.id owner copy.preparation_generation_at_start
          prepared.content finishing rows p)
Step-Kept purging Q closed p = inl refl

pub Steps-Kept :
    {settings : PreparationSettings} {rows after : SourceRows}
    → Steps settings rows after
    → (Q : SourceDocument → Type 0) → Closed Q
    → Kept Q rows.source
    → Kept Q after.source
Steps-Kept here Q closed p = p
Steps-Kept (next path step) Q closed p = Step-Kept step Q closed (Steps-Kept path Q closed p)
