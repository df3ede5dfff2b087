-- ===== src/Indexing/Allowed.antt =====
-- What each function of the worker may write to the session's copy, and the commit of it.
use ce_local_studio.Base.{ℕ, ◌≡◌, refl, sym, ap, ◌∙◌, Option, none, some, guard-some, guard-else}
use ce_local_studio.Indexing.Types.{RequestId, ErrorCode, Source}
use ce_local_studio.Indexing.Results.{
  heartbeat_index_lease, schedule_index_poll_backoff, mark_index_accepted_if_current,
  mark_index_ready_if_current, mark_index_failed_if_current, mark_index_uncertain_if_current,
  accepted_row, ready_row, failed_row, uncertain_row, renewed, back_off, fail_request_missing,
  postponed,
}
use ce_local_studio.Indexing.Changes.{
  Change, miss, beat, poll, accept, finish, fail, doubt, postpone, Changes, next,
}
use ce_local_studio.Indexing.Flush.{Kept, flush-Kept}
use ce_local_studio.Indexing.Worker.{Session, commit, flush}

-- A session whose copy is the row, and that has taken the row there by steps of the index.
abbrev pub Took : (ℕ → ℕ) → Source → Session → Type 0
Took prefix before s = (s.held ≡ s.row) × Changes prefix before s.row

-- A change that a function may make to the copy.
abbrev pub Allowed : (ℕ → ℕ) → Source → Option Source → Type 0
Allowed prefix s o = (new : Source) → o ≡ some new → Change prefix s new × Kept s new

module _ (prefix : ℕ → ℕ) (before : Source) where
  pub commit-Took :
      (s : Session) (o : Option Source)
      → Took prefix before s
      → Allowed prefix s.held o
      → Took prefix before (commit s o).0
  commit-Took s none t a = t
  commit-Took s (some new) t a =
      let (change, kept) = a new refl in
      let written : flush s.held new s.row ≡ new =
        ap (λ x. flush s.held new x) (sym t.0) ∙ flush-Kept s.held new kept in
      (sym written, rw written (next (rw (t.0) t.1) change))

  pub beat-Allowed :
      (owner seconds now : ℕ) (x : Source)
      → Allowed prefix x (heartbeat_index_lease owner seconds now x)
  unfolding heartbeat_index_lease
  beat-Allowed owner seconds now x new e =
      let (_, e') = guard-else _ _ e in
      let (_, q) = guard-some _ (renewed seconds now x) e' in
      (beat owner seconds now e, rw q (refl, refl, refl, refl, refl))

  pub poll-Allowed :
      (generation : ℕ) (request : RequestId) (seconds now : ℕ) (x : Source)
      → Allowed prefix x (schedule_index_poll_backoff generation request seconds now x)
  unfolding schedule_index_poll_backoff
  poll-Allowed generation request seconds now x new e =
      let (_, e') = guard-else _ _ e in
      let (_, q) = guard-some _ (back_off seconds now x) e' in
      (poll generation request seconds now e, rw q (refl, refl, refl, refl, refl))

  pub accept-Allowed :
      (generation : ℕ) (request : RequestId) (remote now : ℕ) (x : Source)
      → Allowed prefix x (mark_index_accepted_if_current generation request remote now x)
  unfolding mark_index_accepted_if_current
  accept-Allowed generation request remote now x new e =
      let (_, q) = guard-some _ (accepted_row remote now x) e in
      (accept generation request remote now e, rw q (refl, refl, refl, refl, refl))

  pub ready-Allowed :
      (generation : ℕ) (request : RequestId) (now : ℕ) (x : Source)
      → Allowed prefix x (mark_index_ready_if_current generation request now x)
  unfolding mark_index_ready_if_current
  ready-Allowed generation request now x new e =
      let (_, q) = guard-some _ (ready_row now x) e in
      (finish generation request now e, rw q (refl, refl, refl, refl, refl))

  pub fail-Allowed :
      (generation : ℕ) (request : RequestId) (code : ErrorCode) (now : ℕ) (x : Source)
      → Allowed prefix x (mark_index_failed_if_current generation request code now x)
  unfolding mark_index_failed_if_current
  fail-Allowed generation request code now x new e =
      let (_, q) = guard-some _ (failed_row code now x) e in
      (fail generation request code now e, rw q (refl, refl, refl, refl, refl))

  pub doubt-Allowed :
      (generation : ℕ) (request : RequestId) (seconds now : ℕ) (x : Source)
      → Allowed prefix x (mark_index_uncertain_if_current generation request seconds now x)
  unfolding mark_index_uncertain_if_current
  doubt-Allowed generation request seconds now x new e =
      let (_, q) = guard-some _ (uncertain_row seconds now x) e in
      (doubt generation request seconds now e, rw q (refl, refl, refl, refl, refl))

  pub postpone-Allowed :
      (seconds now : ℕ) (x : Source) → Allowed prefix x (some (postponed seconds now x))
  postpone-Allowed seconds now x new e =
      let q : new ≡ postponed seconds now x = cc in
      rw q (postpone seconds now, (refl, refl, refl, refl, refl))

  pub miss-Allowed :
      (now : ℕ) (x : Source)
      → x.index_request_id ≡ none
      → Allowed prefix x (some (fail_request_missing now x))
  unfolding fail_request_missing
  miss-Allowed now x absent new e =
      let q : new ≡ fail_request_missing now x = cc in
      rw q (miss now absent, (refl, refl, refl, refl, refl))
