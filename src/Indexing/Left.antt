-- ===== src/Indexing/Left.antt =====
-- What the requests of users leave of a source, branch by branch.
use ce_local_studio.Base.{
  ℕ, ◌≡◌, refl, Bool, true, false, not, ◌||◌, Option, none, some, if◌then◌else◌, ◌⊎◌, inl, inr,
}
use ce_local_studio.Indexing.Types.{
  Source, Domain, is_state, queued, submitting, cancelling, cancelled, not_requested,
}
use ce_local_studio.Indexing.Requests.{
  Deletion, Outcome, IndexError, domain_state_conflict, source_state_conflict,
  source_index_in_progress, refuse, retry_source_index, cancel_source_index,
  cleanup_index_before_source_delete, queue_new_generation, remote_delete_required,
  delete_remote_if_needed, start_cancel, finish_cancel, needs_remote_delete, requeue, cancel_after,
  cleanup_after, is_deleting, keep_failure, bump_version,
}

module _ (s : Source) (now : ℕ) where
  abbrev pub Requeued : (ℕ → ℕ) → ℕ → Source → Type 0
  Requeued prefix hash s' = (s' ≡ s) ⊎ (s' ≡ queue_new_generation prefix hash now s)

  pub retry_source_index-Requeued :
      (prefix : ℕ → ℕ) (hash : ℕ) (deletion : Deletion) (domain : Domain)
      → Requeued prefix hash (Outcome.source (retry_source_index prefix hash deletion now domain s))
  unfolding retry_source_index
  retry_source_index-Requeued prefix hash deletion domain =
      go (is_deleting domain.state) (not s.prepared)
        (is_state queued s || is_state submitting s || is_state cancelling s)
        (if remote_delete_required s
          then delete_remote_if_needed s.index_request_id deletion now domain
          else (domain, none))
    where
      go :
          (deleted unprepared busy : Bool) (r : Domain × Option IndexError)
          → Requeued prefix hash (
              Outcome.source (
                if deleted
                then refuse s domain domain_state_conflict
                else if unprepared
                then refuse s domain source_state_conflict
                else if busy
                then refuse s domain source_index_in_progress
                else requeue prefix hash now s r))
      go true unprepared busy r = inl refl
      go false true busy r = inl refl
      go false false true r = inl refl
      go false false false (d, none) = inr refl
      go false false false (d, some e) = inl refl

  -- A cancellation that has started, and failed or finished.
  abbrev pub Stopped : Source → Source → Type 0
  Stopped started s' = (s' ≡ keep_failure now started) ⊎ (s' ≡ finish_cancel now started)

  abbrev pub Cancelled : Source → Type 0
  Cancelled s' =
      (s' ≡ s)
      ⊎ (s' ≡ keep_failure now (bump_version (start_cancel cancelling now s)))
      ⊎ (s' ≡ bump_version (finish_cancel now (bump_version (start_cancel cancelling now s))))

  pub cancel_source_index-Cancelled :
      (deletion : Deletion) (domain : Domain)
      → Cancelled (Outcome.source (cancel_source_index deletion now domain s))
  unfolding cancel_source_index
  cancel_source_index-Cancelled deletion domain =
      go (is_deleting domain.state) (not s.prepared)
        (is_state not_requested s || is_state cancelled s)
        (if needs_remote_delete s
          then delete_remote_if_needed s.index_request_id deletion now domain
          else (domain, none))
    where
      go :
          (deleted unprepared idle : Bool) (r : Domain × Option IndexError)
          → Cancelled (
              Outcome.source (
                if deleted
                then refuse s domain domain_state_conflict
                else if unprepared
                then refuse s domain source_state_conflict
                else if idle
                then refuse s domain source_state_conflict
                else cancel_after now (bump_version (start_cancel cancelling now s)) r))
      go true unprepared idle r = inl refl
      go false true idle r = inl refl
      go false false true r = inl refl
      go false false false (d, none) = inr (inr refl)
      go false false false (d, some e) = inr (inl refl)

  -- Where the clean-up starts from: the source, or a cancellation in one of the two states.
  abbrev pub Began : Source → Type 0
  Began started =
      ((started ≡ s) × ((is_state not_requested s || is_state cancelled s) ≡ true))
      ⊎ (started ≡ start_cancel cancelling now s)
      ⊎ (started ≡ start_cancel cancelled now s)

  abbrev pub CleanedUp : Source → Type 0
  CleanedUp s' =
      (started : Source) × Began started
      × ((s' ≡ keep_failure now started)
          ⊎ ((s' ≡ started) × (is_state cancelled started ≡ true))
          ⊎ (s' ≡ finish_cancel now started))

  pub cleanup-CleanedUp :
      (deletion : Deletion) (domain : Domain)
      → CleanedUp (Outcome.source (cleanup_index_before_source_delete deletion now domain s))
  unfolding cleanup_index_before_source_delete
  cleanup-CleanedUp deletion domain =
      go (is_state not_requested s || is_state cancelled s) refl (needs_remote_delete s) (
        if needs_remote_delete s
        then delete_remote_if_needed s.index_request_id deletion now domain
        else (domain, none))
    where
      end :
          (started : Source)
          → Began started
          → (over : Bool) → is_state cancelled started ≡ over
          → CleanedUp (if over then started else finish_cancel now started)
      end started b true e = (started, b, inr (inl (refl, e)))
      end started b false e = (started, b, inr (inr refl))

      after :
          (started : Source)
          → Began started
          → (r : Domain × Option IndexError)
          → CleanedUp (Outcome.source (cleanup_after now started r))
      after started b (d, some e) = (started, b, inl refl)
      after started b (d, none) = end started b (is_state cancelled started) refl

      go :
          (idle : Bool)
          → (is_state not_requested s || is_state cancelled s) ≡ idle
          → (needed : Bool) (r : Domain × Option IndexError)
          → CleanedUp (
              Outcome.source (
                cleanup_after now
                  (if idle
                    then s
                    else start_cancel (if needed then cancelling else cancelled) now s)
                  r))
      go true e needed r = after s (inl (refl, e)) r
      go false e true r = after (start_cancel cancelling now s) (inr (inl refl)) r
      go false e false r = after (start_cancel cancelled now s) (inr (inr refl)) r
