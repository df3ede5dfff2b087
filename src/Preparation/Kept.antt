-- ===== src/Preparation/Kept.antt =====
-- What every transaction keeps of a source, while it is there.
pub mod Workers
use mathlib.Core.Path.{subst}
use ce_local_studio.Base.{
  ℕ, ◌+◌, ◌<◌, ◌≡◌, refl, sym, ◌∙◌, Bool, true, false, not, ◌||◌, Option, none, some, List, [],
  arith, ◌==◌, if◌then◌else◌, inl, inr, ◌⊎◌, Option-cases, Bool-cases, Result, ok, err,
}
use ce_local_studio.Indexing.Types.{DomainState}
use ce_local_studio.Preparation.Types.{
  PreparationError, PreparationType, PreparationOperation, SourceDocument, SourceState, SourceRows,
  SourceError, is_pending, is_deleting,
}
use ce_local_studio.Preparation.Requests.{
  Answer, after_check, open_operation, insert_operation, next_generation, queued_operation,
  may_retry, retry_source, may_cancel, cancel_source, may_delete, enqueue_delete_source,
  cancel_active_operation_for_delete,
}
use ce_local_studio.Preparation.Publish.{
  PreparedSource, prep_lease_current, cas_operation, cas_source, cas_finalize_preparation,
  published, index_queued, publish_copies, publish_found, publish_prepared_source,
}
use ce_local_studio.Preparation.DeleteWorker.{
  DeleteSettings, claim_next_delete, write_operation, superseded_row, finish_delete,
}
use ce_local_studio.Preparation.Worker.{
  PreparationSettings, find_row, oldest_claimable, claim_next_operation, heartbeat_prep_lease,
  fail_if_held,
}

-- The source is gone, or `Q` holds of it.
abbrev pub Kept : (SourceDocument → Type 0) → Option SourceDocument → Type 0
Kept Q source = (source ≡ none) ⊎ ((s : SourceDocument) × (source ≡ some s) × Q s)

-- The changes of a source keep `Q`.
pub record Closed (Q : SourceDocument → Type 0) : Type 0 where
  pub advances :
      (s : SourceDocument) (now : ℕ) → is_pending s.state ≡ true → Q s → Q (next_generation now s)
  pub dooms :
      (s : SourceDocument) (now : ℕ)
      → Q s
      → Q (record (next_generation now s) { state = SourceState.deleting })
  pub prepares :
      (s : SourceDocument) (content now : ℕ)
      → is_pending s.state ≡ true
      → Q s
      → Q (
          index_queued
            (record s { state = SourceState.prepared; content = some content; updated_at = now }))

pub if_else-rows {ℓ κ} :
    {B : Type ℓ} (P : SourceRows → Type κ) (b : Bool) (first rest : Answer B)
    → P first.1
    → P rest.1
    → P (if b then first else rest).1
if_else-rows P true first rest p q = p
if_else-rows P false first rest p q = q

may_retry-ok :
    (domain : Option DomainState) (rows : SourceRows) {s : SourceDocument}
    → may_retry domain rows ≡ ok s
    → (rows.source ≡ some s) × (is_pending s.state ≡ true)
unfolding may_retry
may_retry-ok domain rows h = ground (arith, h)

may_delete-ok :
    (domain : Option DomainState) (version : ℕ) (rows : SourceRows) {s : SourceDocument}
    → may_delete domain version rows ≡ ok s
    → rows.source ≡ some s
unfolding may_delete
may_delete-ok domain version rows h = ground (arith, h)

may_cancel-ok :
    (domain : Option DomainState) (version : ℕ) (rows : SourceRows) {s : SourceDocument}
    {o : PreparationOperation}
    → may_cancel domain version rows ≡ ok (s, o)
    → (rows.source ≡ some s) × (is_pending s.state ≡ true)
unfolding may_cancel
may_cancel-ok domain version rows h = ground (arith, h)

cas_source-ok :
    (generation content now : ℕ) (s : SourceDocument) {after : SourceDocument}
    → cas_source generation content now (some s) ≡ some after
    → (is_pending s.state ≡ true)
      × (after
          ≡ record s { state = SourceState.prepared; content = some content; updated_at = now })
unfolding cas_source
cas_source-ok generation content now s {after} h = elim (Bool-cases (is_pending s.state)) [
  | inr n ↦ absurd (cc (rw n at h))
  | inl y ↦ elim (Bool-cases (s.preparation_generation == generation)) [
    | inr n ↦ absurd (cc (rw (y, n) at h))
    | inl g ↦ (y, cc (rw (y, g) at h))
  ]
]

found-rows {κ} :
    (P : SourceRows → Type κ) (owner now finishing : ℕ) (prepared : PreparedSource)
    (operation : Option PreparationOperation) (source : Option SourceDocument) (rows : SourceRows)
    → P rows
    → ((copy : PreparationOperation)
        → operation ≡ some copy
        → P
            (published rows (
              cas_finalize_preparation copy.id owner copy.preparation_generation_at_start
                prepared.content finishing rows)).1)
    → P (publish_found owner now finishing prepared operation source rows).1
unfolding publish_found publish_copies
found-rows P owner now finishing prepared none source rows p f = p
found-rows P owner now finishing prepared (some copy) none rows p f = p
found-rows P owner now finishing prepared (some copy) (some source) rows p f =
    let kept : Answer Bool = (ok false, rows) in
    let final : Answer Bool = published rows (
      cas_finalize_preparation copy.id owner copy.preparation_generation_at_start prepared.content
        finishing rows) in
    let images : Answer Bool =
      if not prepared.stored then (err SourceError.storage_unavailable, rows) else final in
    let other : Bool =
      not (source.id == prepared.source_document_id)
      || not (source.parser_kind == prepared.parser_kind) in
    let matched : Answer Bool =
      if other then (err SourceError.preparation_invalid, rows) else images in
    let stale : Bool =
      not (is_pending source.state)
      || not (source.preparation_generation == copy.preparation_generation_at_start) in
    if_else-rows P (not (prep_lease_current owner now copy)) kept (if stale then kept else matched)
      p
      (if_else-rows P stale kept matched p (
        if_else-rows P other (err SourceError.preparation_invalid, rows) images p
          (if_else-rows P (not prepared.stored) (err SourceError.storage_unavailable, rows) final p
            (f copy refl))))

-- A publication leaves the rows or ends in the conditional updates.
pub publish-rows {κ} :
    (P : SourceRows → Type κ) (owner now finishing : ℕ) (prepared : PreparedSource)
    (operation : Option PreparationOperation) (source : Option SourceDocument) (rows : SourceRows)
    → P rows
    → ((copy : PreparationOperation)
        → operation ≡ some copy
        → P
            (published rows (
              cas_finalize_preparation copy.id owner copy.preparation_generation_at_start
                prepared.content finishing rows)).1)
    → P (publish_prepared_source owner now finishing prepared operation source rows).1
unfolding publish_prepared_source
publish-rows P owner now finishing prepared operation source rows p f =
    if_else-rows P (not prepared.valid) (err SourceError.preparation_invalid, rows)
      (publish_found owner now finishing prepared operation source rows) p
      (found-rows P owner now finishing prepared operation source rows p f)

module _ (Q : SourceDocument → Type 0) (closed : Closed Q) where
  checked-Kept {ℓ κ} :
      {A : Type ℓ} {B : Type κ} (rows : SourceRows) (check : Result SourceError A)
      (rest : A → Answer B)
      → Kept Q rows.source
      → ((a : A) → check ≡ ok a → Kept Q (rest a).1.source)
      → Kept Q (after_check rows check rest).1.source
  checked-Kept rows (err raised) rest p f = p
  checked-Kept rows (ok a) rest p f = f a refl

  opened-Kept :
      (new : PreparationOperation) (source : SourceDocument) (os : List PreparationOperation)
      (rows : SourceRows)
      → Kept Q rows.source
      → Q source
      → Kept Q (open_operation new source os rows).1.source
  opened-Kept new source os rows p h = elim (Option-cases (insert_operation new os)) [
    | inl e ↦ rw (e, open_operation) p
    | inr (os', e) ↦ rw (e, open_operation) (inr (source, refl, h))
  ]

  -- The source that a request was let through with.
  found : (rows : SourceRows) (s : SourceDocument) → rows.source ≡ some s → Kept Q rows.source → Q s
  found rows s e (inl n) = absurd (ground (arith, e, n))
  found rows s e (inr (t, f, q)) =
      let same : some t ≡ some s = sym f ∙ e in let p : t ≡ s = cc same in subst Q p q

  cas_source-Kept :
      (generation content now : ℕ) (source : Option SourceDocument) {after : SourceDocument}
      → cas_source generation content now source ≡ some after
      → Kept Q source
      → Kept Q (some (index_queued after))
  unfolding cas_source
  cas_source-Kept generation content now none h p = cc
  cas_source-Kept generation content now (some s) {after} h (inl n) = absurd (ground (arith, n))
  cas_source-Kept generation content now (some s) {after} h (inr (t, f, q)) =
      let p : t ≡ s = cc f in
      let (pending, written) = cas_source-ok generation content now s h in
      inr (
        index_queued after,
        refl,
        subst (λ x. Q (index_queued x)) (sym written)
            (closed.prepares s content now pending (subst Q p q)),
      )

  pub cas_finalize-Kept :
      (id owner generation content now : ℕ) (rows : SourceRows)
      → Kept Q rows.source
      → Kept Q
          (published rows (cas_finalize_preparation id owner generation content now rows)).1.source
  unfolding cas_finalize_preparation
  cas_finalize-Kept id owner generation content now rows p =
      elim (Option-cases (cas_operation id owner generation now rows.operations)) [
        | inl e ↦ rw (e, published) p
        | inr (os, e) ↦ elim (Option-cases (cas_source generation content now rows.source)) [
          | inl f ↦ rw (e, f, published) p
          | inr (s, f) ↦
              rw (e, f, published) (cas_source-Kept generation content now rows.source f p)
        ]
      ]

  pub retry-Kept :
      (domain : Option DomainState) (id now : ℕ) (rows : SourceRows)
      → Kept Q rows.source
      → Kept Q (retry_source domain id now rows).1.source
  unfolding retry_source
  retry-Kept domain id now rows p = checked-Kept rows (may_retry domain rows) _ p (λ s h.
      let (e, pending) = may_retry-ok domain rows h in
      opened-Kept _ (next_generation now s) rows.operations rows p
        (closed.advances s now pending (found rows s e p)))

  pub delete-Kept :
      (domain : Option DomainState) (version id now : ℕ) (rows : SourceRows)
      → Kept Q rows.source
      → Kept Q (enqueue_delete_source domain version id now rows).1.source
  unfolding enqueue_delete_source
  delete-Kept domain version id now rows p =
      checked-Kept rows (may_delete domain version rows) _ p (λ s h.
        opened-Kept (queued_operation PreparationType.delete id (s.preparation_generation + 1) now)
          (record (next_generation now s) { state = SourceState.deleting })
          (cancel_active_operation_for_delete now rows.operations) rows p
          (closed.dooms s now (found rows s (may_delete-ok domain version rows h) p)))

  pub cancel-Kept :
      (domain : Option DomainState) (version now : ℕ) (rows : SourceRows)
      → Kept Q rows.source
      → Kept Q (cancel_source domain version now rows).1.source
  unfolding cancel_source
  cancel-Kept domain version now rows p =
      checked-Kept rows (may_cancel domain version rows) _ p (λ (s, o) h.
        let (e, pending) = may_cancel-ok domain version rows h in
        inr (next_generation now s, refl, closed.advances s now pending (found rows s e p)))
