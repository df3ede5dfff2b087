-- ===== src/Preparation/Kept/Workers.antt =====
-- The transactions of the workers, which do not change a source but to remove it.
use ce_local_studio.Base.{
  ℕ, refl, Bool, true, not, ◌||◌, none, [], ◌==◌, if◌then◌else◌, inl, inr, Option-cases, ok,
}
use ce_local_studio.Preparation.Types.{
  PreparationError, PreparationType, PreparationOperation, SourceDocument, SourceRows, is_deleting,
}
use ce_local_studio.Preparation.Requests.{Answer}
use ce_local_studio.Preparation.Publish.{prep_lease_current}
use ce_local_studio.Preparation.DeleteWorker.{
  DeleteSettings, claim_next_delete, write_operation, superseded_row, finish_delete,
}
use ce_local_studio.Preparation.Worker.{
  PreparationSettings, find_row, oldest_claimable, claim_next_operation, heartbeat_prep_lease,
  fail_if_held,
}
use ce_local_studio.Preparation.Kept.{Kept, if_else-rows}

module _ (Q : SourceDocument → Type 0) where
  pub claim-Kept :
      (settings : PreparationSettings) (now : ℕ) (rows : SourceRows)
      → Kept Q rows.source
      → Kept Q (claim_next_operation settings now rows).1.source
  unfolding claim_next_operation
  claim-Kept settings now rows p =
      elim (Option-cases (oldest_claimable PreparationType.prepare now rows.operations)) [
        | inl e ↦ rw (e, claim_next_operation) p
        | inr (o, e) ↦ rw (e, claim_next_operation) p
      ]

  pub claim_delete-Kept :
      (deleter : DeleteSettings) (now : ℕ) (rows : SourceRows)
      → Kept Q rows.source
      → Kept Q (claim_next_delete deleter now rows).1.source
  unfolding claim_next_delete
  claim_delete-Kept deleter now rows p =
      elim (Option-cases (oldest_claimable PreparationType.delete now rows.operations)) [
        | inl e ↦ rw (e, claim_next_delete) p
        | inr (o, e) ↦ rw (e, claim_next_delete) p
      ]

  pub write-Kept :
      (id : ℕ) (change : PreparationOperation → PreparationOperation) (rows : SourceRows)
      → Kept Q rows.source
      → Kept Q (write_operation id change rows).1.source
  write-Kept id change rows p = elim (Option-cases (find_row id rows.operations)) [
    | inl e ↦ rw (e, write_operation) p
    | inr (o, e) ↦ rw (e, write_operation) p
  ]

  pub finish_delete-Kept :
      (deleter : DeleteSettings) (checked now generation : ℕ) (operation : PreparationOperation)
      (source : SourceDocument) (rows : SourceRows)
      → Kept Q rows.source
      → Kept Q (finish_delete deleter checked now generation operation source rows).1.source
  unfolding finish_delete
  finish_delete-Kept deleter checked now generation operation source rows p =
      let kept : Answer Bool = (ok true, rows) in
      let gone : Answer Bool = (ok true, record { source = none; operations = [] }) in
      let cancelled : Answer Bool = write_operation operation.id (superseded_row now) rows in
      let stale : Bool =
        not (is_deleting source.state) || not (source.preparation_generation == generation) in
      let lost : Bool =
        not (prep_lease_current deleter.source_delete_worker_id checked operation) in
      if_else-rows (λ x. Kept Q x.source) lost kept (if stale then cancelled else gone) p
        (if_else-rows (λ x. Kept Q x.source) stale cancelled gone
          (write-Kept operation.id (superseded_row now) rows p) (inl refl))

  pub beat-Kept :
      (settings : PreparationSettings) (now id : ℕ) (rows : SourceRows)
      → Kept Q rows.source
      → Kept Q (heartbeat_prep_lease settings now id rows).1.source
  unfolding heartbeat_prep_lease
  beat-Kept settings now id rows p = elim (Option-cases (find_row id rows.operations)) [
    | inl e ↦ rw (e, heartbeat_prep_lease) p
    | inr (o, e) ↦ rw (e, heartbeat_prep_lease) (if_else-rows (λ x. Kept Q x.source) _ _ _ p p)
  ]

  pub fail-Kept :
      (settings : PreparationSettings) (now : ℕ) (code : PreparationError) (id : ℕ)
      (rows : SourceRows)
      → Kept Q rows.source
      → Kept Q (fail_if_held settings now code id rows).1.source
  unfolding fail_if_held
  fail-Kept settings now code id rows p = elim (Option-cases (find_row id rows.operations)) [
    | inl e ↦ rw (e, fail_if_held) p
    | inr (o, e) ↦ rw (e, fail_if_held) (if_else-rows (λ x. Kept Q x.source) _ _ _ p p)
  ]
