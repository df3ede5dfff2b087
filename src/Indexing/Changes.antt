-- ===== src/Indexing/Changes.antt =====
-- The calls that change the index columns of a source, each by a session whose copy is the row as it
-- is: nobody commits between its read and its commit. A worker whose copy is older is not among them;
-- its run is in Worker.antt.
use ce_local_studio.Base.{ℕ, ◌≡◌, true, none, some}
use ce_local_studio.Indexing.Types.{RequestId, ErrorCode, Source, Domain}
use ce_local_studio.Indexing.Requests.{
  Deletion, Outcome, queue_source_index_after_publish, retry_source_index, cancel_source_index,
  cleanup_index_before_source_delete,
}
use ce_local_studio.Indexing.Results.{
  heartbeat_index_lease, schedule_index_poll_backoff, mark_index_accepted_if_current,
  mark_index_ready_if_current, mark_index_failed_if_current, mark_index_uncertain_if_current,
  is_index_claimable, claim_source, fail_request_missing, postponed,
}

-- `prefix` is the first 16 digits of a hash.
pub data Change (prefix : ℕ → ℕ) (s : Source) : Source → Type 0 where
  publish : (hash now : ℕ) → Change prefix s (queue_source_index_after_publish prefix hash now s).0
  retry :
      (hash now : ℕ) (deletion : Deletion) (domain : Domain)
      → Change prefix s (Outcome.source (retry_source_index prefix hash deletion now domain s))
  cancel :
      (now : ℕ) (deletion : Deletion) (domain : Domain)
      → Change prefix s (Outcome.source (cancel_source_index deletion now domain s))
  cleanup :
      (now : ℕ) (deletion : Deletion) (domain : Domain)
      → Change prefix s (Outcome.source (cleanup_index_before_source_delete deletion now domain s))
  claim :
      (worker seconds now : ℕ)
      → is_index_claimable now s ≡ true
      → Change prefix s (claim_source worker seconds now s)
  miss : (now : ℕ) → s.index_request_id ≡ none → Change prefix s (fail_request_missing now s)
  beat :
      (owner seconds now : ℕ) {s' : Source}
      → heartbeat_index_lease owner seconds now s ≡ some s'
      → Change prefix s s'
  poll :
      (generation : ℕ) (request : RequestId) (seconds now : ℕ) {s' : Source}
      → schedule_index_poll_backoff generation request seconds now s ≡ some s'
      → Change prefix s s'
  accept :
      (generation : ℕ) (request : RequestId) (remote now : ℕ) {s' : Source}
      → mark_index_accepted_if_current generation request remote now s ≡ some s'
      → Change prefix s s'
  finish :
      (generation : ℕ) (request : RequestId) (now : ℕ) {s' : Source}
      → mark_index_ready_if_current generation request now s ≡ some s'
      → Change prefix s s'
  fail :
      (generation : ℕ) (request : RequestId) (code : ErrorCode) (now : ℕ) {s' : Source}
      → mark_index_failed_if_current generation request code now s ≡ some s'
      → Change prefix s s'
  doubt :
      (generation : ℕ) (request : RequestId) (seconds now : ℕ) {s' : Source}
      → mark_index_uncertain_if_current generation request seconds now s ≡ some s'
      → Change prefix s s'
  postpone : (seconds now : ℕ) → Change prefix s (postponed seconds now s)

pub data Changes (prefix : ℕ → ℕ) (s : Source) : Source → Type 0 where
  here : Changes prefix s s
  next : {t u : Source} → Changes prefix s t → Change prefix t u → Changes prefix s u
