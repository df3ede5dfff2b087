-- ===== src/Indexing/Results.antt =====
-- The results of the worker, each written only if it is of the source's current generation:
-- `_worker_result_is_current`, `schedule_index_poll_backoff`, `mark_index_*_if_current` and the lease
-- (app/context_engine/services/indexing.py). A function reads the session's copy of the source; it
-- gives the changed copy, or `none` where it writes nothing.
use ce_local_studio.Base.{
  ℕ, ◌+◌, max, Bool, true, false, not, ◌&&◌, ◌||◌, Option, none, some, ◌==◌, leb, ltb, same_option,
  if◌then◌else◌,
}
use ce_local_studio.Indexing.Types.{
  queued, submitting, accepted, ready, failed, cancelling, cancelled, RequestId, ErrorCode,
  source_index_uncertain, source_index_request_missing, Source, is_state, same_request_option,
}

unfoldable pub worker_result_is_current : Source → ℕ → RequestId → Bool
worker_result_is_current source generation request_id =
    (source.index_generation == generation)
    && same_request_option source.index_request_id (some request_id)
    && source.prepared
    && not (is_state cancelling source || is_state cancelled source)

abbrev pub unexpired : Option ℕ → ℕ → Bool
unexpired none current = false
unexpired (some expires) current = leb current expires

unfoldable pub index_lease_current : Source → ℕ → ℕ → Bool
index_lease_current source owner current =
    if not (same_option source.index_lease_owner (some owner))
    then false
    else unexpired source.index_lease_expires_at current

abbrev pub renewed : ℕ → ℕ → Source → Source
renewed lease_seconds current source = record source {
  index_lease_expires_at = some (current + lease_seconds);
  index_updated_at = some current;
  updated_at = current;
}

unfoldable pub heartbeat_index_lease : ℕ → ℕ → ℕ → Source → Option Source
unfolding index_lease_current
heartbeat_index_lease owner lease_seconds current source =
    if not (index_lease_current source owner current)
    then none
    else if is_state cancelling source || is_state cancelled source
    then none
    else some (renewed lease_seconds current source)

-- A lease without an owner, for the time of the backoff.
abbrev pub back_off : ℕ → ℕ → Source → Source
back_off backoff_seconds now source = record source {
  index_lease_owner = none;
  index_lease_expires_at = some (now + max 1 backoff_seconds);
  index_updated_at = some now;
  updated_at = now;
}

unfoldable pub schedule_index_poll_backoff : ℕ → RequestId → ℕ → ℕ → Source → Option Source
unfolding worker_result_is_current
schedule_index_poll_backoff generation request_id backoff_seconds now source =
    if not (worker_result_is_current source generation request_id)
    then none
    else if not (is_state submitting source || is_state accepted source)
    then none
    else some (back_off backoff_seconds now source)

abbrev pub accepted_row : ℕ → ℕ → Source → Source
accepted_row remote_document_id now source = record source {
  index_state = accepted;
  index_remote_document_id = some remote_document_id;
  index_error_code = none;
  index_accepted_at = some now;
  index_ready_at = none;
  index_lease_owner = none;
  index_lease_expires_at = none;
  index_updated_at = some now;
  updated_at = now;
  version = source.version + 1;
}

unfoldable pub mark_index_accepted_if_current : ℕ → RequestId → ℕ → ℕ → Source → Option Source
unfolding worker_result_is_current
mark_index_accepted_if_current generation request_id remote_document_id now source =
    if not (is_state submitting source)
      || not (worker_result_is_current source generation request_id)
    then none
    else some (accepted_row remote_document_id now source)

abbrev pub ready_row : ℕ → Source → Source
ready_row now source = record source {
  index_state = ready;
  index_error_code = none;
  index_ready_at = some now;
  index_lease_owner = none;
  index_lease_expires_at = none;
  index_updated_at = some now;
  updated_at = now;
  version = source.version + 1;
}

unfoldable pub mark_index_ready_if_current : ℕ → RequestId → ℕ → Source → Option Source
unfolding worker_result_is_current
mark_index_ready_if_current generation request_id now source =
    if not (is_state accepted source) || not (worker_result_is_current source generation request_id)
    then none
    else some (ready_row now source)

abbrev pub failed_row : ErrorCode → ℕ → Source → Source
failed_row code now source = record source {
  index_state = failed;
  index_error_code = some code;
  index_lease_owner = none;
  index_lease_expires_at = none;
  index_updated_at = some now;
  updated_at = now;
  version = source.version + 1;
}

unfoldable pub mark_index_failed_if_current : ℕ → RequestId → ErrorCode → ℕ → Source → Option Source
unfolding worker_result_is_current
mark_index_failed_if_current generation request_id code now source =
    if not (worker_result_is_current source generation request_id)
    then none
    else some (failed_row code now source)

abbrev pub uncertain_row : ℕ → ℕ → Source → Source
uncertain_row backoff_seconds now source = record (back_off backoff_seconds now source) {
  index_error_code = some source_index_uncertain;
}

unfoldable pub mark_index_uncertain_if_current : ℕ → RequestId → ℕ → ℕ → Source → Option Source
unfolding worker_result_is_current
mark_index_uncertain_if_current generation request_id backoff_seconds now source =
    if not (is_state submitting source)
      || not (worker_result_is_current source generation request_id)
    then none
    else some (uncertain_row backoff_seconds now source)

-- The `WHERE` of `_claim_next_source`.
abbrev pub lapsed : Option ℕ → ℕ → Bool
lapsed none now = false
lapsed (some expires) now = ltb expires now

abbrev pub free : Option ℕ → ℕ → Bool
free none now = true
free (some expires) now = ltb expires now

unfoldable pub is_index_claimable : ℕ → Source → Bool
is_index_claimable now source =
    source.prepared
    && (is_state queued source
        || is_state submitting source && lapsed source.index_lease_expires_at now
        || is_state accepted source && free source.index_lease_expires_at now)

abbrev pub lease_source : ℕ → ℕ → ℕ → Source → Source
lease_source worker_id lease_seconds now source = record source {
  index_lease_owner = some worker_id;
  index_lease_expires_at = some (now + lease_seconds);
  index_updated_at = some now;
  updated_at = now;
}

unfoldable pub claim_source : ℕ → ℕ → ℕ → Source → Source
claim_source worker_id lease_seconds now source = lease_source worker_id lease_seconds now (
    if is_state queued source
    then record source {
      index_state = submitting;
      index_error_code = none;
      version = source.version + 1;
    }
    else source)

-- `run_once` on a claimed source that has no request id.
unfoldable pub fail_request_missing : ℕ → Source → Source
fail_request_missing now source = record source {
  index_state = failed;
  index_error_code = some source_index_request_missing;
  index_lease_owner = none;
  index_lease_expires_at = none;
  index_updated_at = some now;
  updated_at = now;
}

-- `_run_submitting` where the domain takes no new submission.
abbrev pub postponed : ℕ → ℕ → Source → Source
postponed backoff_seconds now source = record source {
  index_lease_owner = none;
  index_lease_expires_at = some (now + backoff_seconds);
  index_updated_at = some now;
  updated_at = now;
}
