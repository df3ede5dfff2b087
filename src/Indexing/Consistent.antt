-- ===== src/Indexing/Consistent.antt =====
-- What the state of an index says of the other columns.
use ce_local_studio.Base.{
  ℕ, ◌+◌, ◌≡◌, refl, Bool, true, false, Option, none, some, arith, eqb_refl, if◌then◌else◌,
  guard-some, inl, inr, is_some,
}
use ce_local_studio.Indexing.Types.{
  RequestId, ErrorCode, Source, Domain, is_state, queued, submitting, accepted, ready, IndexState,
  source_has_current_index_identity,
}
use ce_local_studio.Indexing.Requests.{
  Deletion, Outcome, IndexError, source_state_conflict, queue_source_index_after_publish,
  retry_source_index, cancel_source_index, cleanup_index_before_source_delete, queue_new_generation,
  start_cancel, finish_cancel,
}
use ce_local_studio.Indexing.Results.{
  mark_index_accepted_if_current, mark_index_ready_if_current, mark_index_failed_if_current,
  accepted_row, ready_row, failed_row, lease_source, claim_source,
}
use ce_local_studio.Indexing.Left.{
  Began, retry_source_index-Requeued, cancel_source_index-Cancelled, cleanup-CleanedUp,
}

-- A request is out, or answered well.
abbrev pub is_out : IndexState → Bool
is_out queued = true
is_out submitting = true
is_out accepted = true
is_out ready = true
is_out _ = false

abbrev pub is_landed : IndexState → Bool
is_landed accepted = true
is_landed ready = true
is_landed _ = false

-- The state and the columns that it promises are as they were.
abbrev pub Untouched : Source → Source → Type 0
Untouched s s' =
    (s'.index_state ≡ s.index_state)
    × (s'.id ≡ s.id)
    × (s'.index_generation ≡ s.index_generation)
    × (s'.index_request_id ≡ s.index_request_id)
    × (s'.index_content_hash ≡ s.index_content_hash)
    × (s'.index_remote_document_id ≡ s.index_remote_document_id)
    × (s'.index_accepted_at ≡ s.index_accepted_at)
    × (s'.index_ready_at ≡ s.index_ready_at)

-- The columns that the state promises: the identity of the current generation while a request is
-- out, the remote document once it is accepted, and the instant once it is ready.
pub record IsConsistent (prefix : ℕ → ℕ) (s : Source) : Type 0 where
  pub identified : is_out s.index_state ≡ true → source_has_current_index_identity prefix s ≡ true
  pub landed :
      is_landed s.index_state ≡ true
      → (is_some s.index_remote_document_id ≡ true) × (is_some s.index_accepted_at ≡ true)
  pub finished : is_state ready s ≡ true → is_some s.index_ready_at ≡ true

submitting-is_out : (s : Source) → is_state submitting s ≡ true → is_out s.index_state ≡ true
submitting-is_out s h = ground (arith, h)

pub ready-is_out : (s : Source) → is_state ready s ≡ true → is_out s.index_state ≡ true
ready-is_out s h = ground (arith, h)

accepted-is_out :
    (s : Source)
    → is_state accepted s ≡ true
    → (is_out s.index_state ≡ true) × (is_landed s.index_state ≡ true)
accepted-is_out s h = ground (arith, h)

module _ (prefix : ℕ → ℕ) where
  pub queue-IsConsistent :
      (s : Source) (hash now : ℕ) → IsConsistent prefix (queue_new_generation prefix hash now s)
  unfolding queue_new_generation source_has_current_index_identity
  queue-IsConsistent s hash now = record {
    identified = λ _.
        ground (arith, eqb_refl s.id, eqb_refl (s.index_generation + 1), eqb_refl (prefix hash));
    landed = λ h. cc;
    finished = λ h. cc;
  }

  pub accept-IsConsistent :
      (s s' : Source) (generation : ℕ) (request : RequestId) (remote now : ℕ)
      → IsConsistent prefix s
      → mark_index_accepted_if_current generation request remote now s ≡ some s'
      → IsConsistent prefix s'
  unfolding mark_index_accepted_if_current source_has_current_index_identity
  accept-IsConsistent s s' generation request remote now v e =
      let (open', q) = guard-some _ (accepted_row remote now s) e in
      rw q (record {
        identified = λ _. v.identified (submitting-is_out s (ground (arith, open')));
        landed = λ _. (refl, refl);
        finished = λ h. cc;
      })

  pub ready-IsConsistent :
      (s s' : Source) (generation : ℕ) (request : RequestId) (now : ℕ)
      → IsConsistent prefix s
      → mark_index_ready_if_current generation request now s ≡ some s'
      → IsConsistent prefix s'
  unfolding mark_index_ready_if_current source_has_current_index_identity
  ready-IsConsistent s s' generation request now v e =
      let (open', q) = guard-some _ (ready_row now s) e in
      let (out, landed) = accepted-is_out s (ground (arith, open')) in
      rw q (record {
        identified = λ _. v.identified out;
        landed = λ _. v.landed landed;
        finished = λ _. refl;
      })

  pub failed-IsConsistent :
      (s s' : Source) (generation : ℕ) (request : RequestId) (code : ErrorCode) (now : ℕ)
      → mark_index_failed_if_current generation request code now s ≡ some s'
      → IsConsistent prefix s'
  unfolding mark_index_failed_if_current
  failed-IsConsistent s s' generation request code now e =
      let (_, q) = guard-some _ (failed_row code now s) e in
      rw q (record { identified = λ h. cc; landed = λ h. cc; finished = λ h. cc })

  -- A write that leaves the state and the promised columns alone.
  pub Untouched-IsConsistent :
      (s s' : Source) → Untouched s s' → IsConsistent prefix s → IsConsistent prefix s'
  unfolding source_has_current_index_identity
  Untouched-IsConsistent s s' (e, i, g, r, c, d, a, t) v = record {
    identified = λ h. rw (i, g, r, c) (v.identified (rw e at h));
    landed = λ h. rw (d, a) (v.landed (rw e at h));
    finished = λ h. rw t (v.finished (rw e at h));
  }

  -- A source with no request out promises nothing.
  pub off-IsConsistent : (s : Source) → is_out s.index_state ≡ false → IsConsistent prefix s
  off-IsConsistent s off = record {
    identified = λ h. cc (off, h);
    landed = λ h. ground (arith, off, h);
    finished = λ h. ground (arith, off, h);
  }

  pub claim-IsConsistent :
      (s : Source) (worker seconds now : ℕ)
      → IsConsistent prefix s
      → IsConsistent prefix (claim_source worker seconds now s)
  unfolding claim_source source_has_current_index_identity
  claim-IsConsistent s worker seconds now v = go (is_state queued s) refl
    where
      go :
          (b : Bool)
          → is_state queued s ≡ b
          → IsConsistent prefix (
              lease_source worker seconds now (
                if b
                then record s {
                  index_state = submitting;
                  index_error_code = none;
                  version = s.version + 1;
                }
                else s))
      go true h = record {
        identified = λ _. v.identified (ground (arith, h));
        landed = λ k. cc;
        finished = λ k. cc;
      }
      go false h = Untouched-IsConsistent s _ (refl, refl, refl, refl, refl, refl, refl, refl) v

  Began-off :
      (s : Source) (now : ℕ) (started : Source)
      → Began s now started
      → is_out started.index_state ≡ false
  unfolding start_cancel
  Began-off s now started (inl (e, idle)) = rw e (ground (arith, idle))
  Began-off s now started (inr (inl e)) = rw e refl
  Began-off s now started (inr (inr e)) = rw e refl

  pub cleanup-IsConsistent :
      (s : Source) (now : ℕ) (deletion : Deletion) (domain : Domain)
      → IsConsistent prefix
          (Outcome.source (cleanup_index_before_source_delete deletion now domain s))
  unfolding finish_cancel
  cleanup-IsConsistent s now deletion domain =
      let (started, b, r) = cleanup-CleanedUp s now deletion domain in
      let off = Began-off s now started b in
      off-IsConsistent _
        (elim r [ inl e ↦ rw e off | inr (inl (e, _)) ↦ rw e off | inr (inr e) ↦ rw e refl ])

  pub cancel-IsConsistent :
      (s : Source) (now : ℕ) (deletion : Deletion) (domain : Domain)
      → IsConsistent prefix s
      → IsConsistent prefix (Outcome.source (cancel_source_index deletion now domain s))
  unfolding finish_cancel start_cancel
  cancel-IsConsistent s now deletion domain v =
      elim (cancel_source_index-Cancelled s now deletion domain) [
        | inl e ↦ rw e v
        | inr (inl e) ↦ off-IsConsistent _ (rw e refl)
        | inr (inr e) ↦ off-IsConsistent _ (rw e refl)
      ]

  pub retry-IsConsistent :
      (s : Source) (hash now : ℕ) (deletion : Deletion) (domain : Domain)
      → IsConsistent prefix s
      → IsConsistent prefix (Outcome.source (retry_source_index prefix hash deletion now domain s))
  retry-IsConsistent s hash now deletion domain v =
      elim (retry_source_index-Requeued s now prefix hash deletion domain) [
        | inl e ↦ rw e v
        | inr e ↦ rw e (queue-IsConsistent s hash now)
      ]

  pub publish-IsConsistent :
      (s : Source) (hash now : ℕ)
      → IsConsistent prefix s
      → IsConsistent prefix (queue_source_index_after_publish prefix hash now s).0
  unfolding queue_source_index_after_publish
  publish-IsConsistent s hash now v = go s.prepared
    where
      go :
          (b : Bool)
          → let r : Source × Option IndexError =
              if b
              then (queue_new_generation prefix hash now s, none)
              else (s, some source_state_conflict) in
            IsConsistent prefix r.0
      go true = queue-IsConsistent s hash now
      go false = v
