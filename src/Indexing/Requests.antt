-- ===== src/Indexing/Requests.antt =====
-- What users ask of an index: `queue_source_index_after_publish`, `retry_source_index`,
-- `cancel_source_index` and `cleanup_index_before_source_delete` of
-- app/context_engine/services/indexing.py. The source and its domain are found already. What the
-- deletion in the runtime comes to is an argument; nobody else writes while it runs.
use ce_local_studio.Base.{
  ℕ, ◌+◌, Bool, true, false, not, ◌&&◌, ◌||◌, Option, none, some, ltb, if◌then◌else◌, is_some,
}
use ce_local_studio.Indexing.Types.{
  IndexState, queued, submitting, accepted, ready, cancelling, cancelled, not_requested, RequestId,
  source_index_delete_failed, Source, Domain, DomainState, deleting, is_state,
  compute_index_request_id,
}

-- `SourceIndexError` by its code; `runtime_error` is one that the client raises.
pub data IndexError : Type 0 where
  domain_state_conflict source_state_conflict source_index_in_progress delete_failed : IndexError
  runtime_error : ℕ → IndexError

-- What is committed, and the error that the call raises then.
pub record Outcome : Type 0 where
  pub source : Source
  pub domain : Domain
  pub raised : Option IndexError

unfoldable pub advance_domain_graph_desired_generation : ℕ → Domain → Domain
advance_domain_graph_desired_generation now d = record d {
  graph_desired_generation = d.graph_desired_generation + 1;
  updated_at = now;
}

unfoldable pub mark_domain_indexing_ever_started : ℕ → Domain → Domain
mark_domain_indexing_ever_started now d =
    if d.indexing_ever_started
    then d
    else record d { indexing_ever_started = true; updated_at = now }

unfoldable pub mark_domain_graph_applied_generation : ℕ → ℕ → Domain → Domain
mark_domain_graph_applied_generation generation now d =
    if ltb generation d.graph_applied_generation
    then d
    else if ltb d.graph_desired_generation generation
    then d
    else record d { graph_applied_generation = generation; updated_at = now }

-- The client's `delete` and then `is_absent`.
pub data Deletion : Type 0 where
  delete_raises : ℕ → Deletion
  deleted : (absent : Bool) → Deletion

unfoldable pub delete_remote_if_needed :
    Option RequestId → Deletion → ℕ → Domain → Domain × Option IndexError
unfolding advance_domain_graph_desired_generation mark_domain_graph_applied_generation
delete_remote_if_needed none deletion now d = (d, none)
delete_remote_if_needed (some request_id) (delete_raises code) now d =
    (advance_domain_graph_desired_generation now d, some (runtime_error code))
delete_remote_if_needed (some request_id) (deleted false) now d =
    (advance_domain_graph_desired_generation now d, some delete_failed)
delete_remote_if_needed (some request_id) (deleted true) now d =
    let d' = advance_domain_graph_desired_generation now d in
    (mark_domain_graph_applied_generation d'.graph_desired_generation now d', none)

-- The new generation of a source whose blocks render to a text with the hash `content_hash`.
unfoldable pub queue_new_generation : (ℕ → ℕ) → ℕ → ℕ → Source → Source
queue_new_generation prefix content_hash now source = record source {
  index_generation = source.index_generation + 1;
  index_request_id =
      some (compute_index_request_id prefix source.id (source.index_generation + 1) content_hash);
  index_content_hash = some content_hash;
  index_remote_document_id = none;
  index_state = queued;
  index_error_code = none;
  index_lease_owner = none;
  index_lease_expires_at = none;
  index_accepted_at = none;
  index_ready_at = none;
  index_updated_at = some now;
  updated_at = now;
  version = source.version + 1;
}

unfoldable pub queue_source_index_after_publish :
    (ℕ → ℕ) → ℕ → ℕ → Source → Source × Option IndexError
unfolding queue_new_generation
queue_source_index_after_publish prefix content_hash now source =
    if source.prepared
    then (queue_new_generation prefix content_hash now source, none)
    else (source, some source_state_conflict)

abbrev pub is_deleting : DomainState → Bool
is_deleting deleting = true
is_deleting _ = false

unfoldable pub remote_delete_required : Source → Bool
remote_delete_required source =
    is_some source.index_request_id
    && (is_state accepted source
        || is_state ready source
        || is_some source.index_remote_document_id)

abbrev pub refuse : Source → Domain → IndexError → Outcome
refuse source domain e = record { source = source; domain = domain; raised = some e }

abbrev pub requeue : (ℕ → ℕ) → ℕ → ℕ → Source → Domain × Option IndexError → Outcome
requeue prefix content_hash now source (domain, some e) = refuse source domain e
requeue prefix content_hash now source (domain, none) = record {
  source = queue_new_generation prefix content_hash now source;
  domain = domain;
  raised = none;
}

unfoldable pub retry_source_index : (ℕ → ℕ) → ℕ → Deletion → ℕ → Domain → Source → Outcome
unfolding remote_delete_required delete_remote_if_needed queue_new_generation
retry_source_index prefix content_hash deletion now domain source =
    if is_deleting domain.state
    then refuse source domain domain_state_conflict
    else if not source.prepared
    then refuse source domain source_state_conflict
    else if is_state queued source || is_state submitting source || is_state cancelling source
    then refuse source domain source_index_in_progress
    else requeue prefix content_hash now source (
        if remote_delete_required source
        then delete_remote_if_needed source.index_request_id deletion now domain
        else (domain, none))

unfoldable pub start_cancel : IndexState → ℕ → Source → Source
start_cancel state now source = record source {
  index_generation = source.index_generation + 1;
  index_state = state;
  index_error_code = none;
  index_lease_owner = none;
  index_lease_expires_at = none;
  index_updated_at = some now;
  updated_at = now;
}

abbrev pub bump_version : Source → Source
bump_version source = record source { version = source.version + 1 }

unfoldable pub finish_cancel : ℕ → Source → Source
finish_cancel now source = record source {
  index_state = cancelled;
  index_request_id = none;
  index_content_hash = none;
  index_remote_document_id = none;
  index_accepted_at = none;
  index_ready_at = none;
  index_updated_at = some now;
  updated_at = now;
}

abbrev pub keep_failure : ℕ → Source → Source
keep_failure now source = record source {
  index_error_code = some source_index_delete_failed;
  index_updated_at = some now;
}

unfoldable pub needs_remote_delete : Source → Bool
unfolding remote_delete_required
needs_remote_delete source = remote_delete_required source || is_state submitting source

abbrev pub cancel_after : ℕ → Source → Domain × Option IndexError → Outcome
cancel_after now source (domain, some e) = refuse (keep_failure now source) domain e
cancel_after now source (domain, none) = record {
  source = bump_version (finish_cancel now source);
  domain = domain;
  raised = none;
}

unfoldable pub cancel_source_index : Deletion → ℕ → Domain → Source → Outcome
unfolding needs_remote_delete delete_remote_if_needed start_cancel finish_cancel
cancel_source_index deletion now domain source =
    if is_deleting domain.state
    then refuse source domain domain_state_conflict
    else if not source.prepared
    then refuse source domain source_state_conflict
    else if is_state not_requested source || is_state cancelled source
    then refuse source domain source_state_conflict
    else cancel_after now (bump_version (start_cancel cancelling now source)) (
        if needs_remote_delete source
        then delete_remote_if_needed source.index_request_id deletion now domain
        else (domain, none))

abbrev pub cleanup_after : ℕ → Source → Domain × Option IndexError → Outcome
cleanup_after now source (domain, some e) = refuse (keep_failure now source) domain e
cleanup_after now source (domain, none) = record {
  source = if is_state cancelled source then source else finish_cancel now source;
  domain = domain;
  raised = none;
}

unfoldable pub cleanup_index_before_source_delete : Deletion → ℕ → Domain → Source → Outcome
unfolding needs_remote_delete delete_remote_if_needed start_cancel finish_cancel
cleanup_index_before_source_delete deletion now domain source =
    let needed = needs_remote_delete source in
    cleanup_after now
      (if is_state not_requested source || is_state cancelled source
        then source
        else start_cancel (if needed then cancelling else cancelled) now source)
      (if needed
        then delete_remote_if_needed source.index_request_id deletion now domain
        else (domain, none))
