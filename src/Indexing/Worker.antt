-- ===== src/Indexing/Worker.antt =====
-- One run of `SourceIndexWorker` (app/context_engine/services/indexing.py) on a source that it has
-- claimed, between the transactions of others. The session does not expire its copy of a row on
-- commit (app/context_engine/db.py), and `db.get` returns that copy; so a function reads the copy
-- `held`, and a commit writes to the table's `row` the columns that the copy has changed.
use ce_local_studio.Base.{
  ℕ, ◌+◌, Bool, true, false, not, Option, none, some, ◌==◌, same_option, if◌then◌else◌, or_else,
}
use ce_local_studio.Indexing.Types.{
  submitting, accepted, RequestId, ErrorCode, source_index_delete_failed, source_index_uncertain,
  source_index_request_missing, source_index_failed, source_index_unavailable, source_index_missing,
  reported, Source, Domain, state_number, is_state,
}
use ce_local_studio.Indexing.Requests.{
  advance_domain_graph_desired_generation, mark_domain_indexing_ever_started,
  mark_domain_graph_applied_generation,
}
use ce_local_studio.Indexing.Results.{
  heartbeat_index_lease, schedule_index_poll_backoff, mark_index_accepted_if_current,
  mark_index_ready_if_current, mark_index_failed_if_current, mark_index_uncertain_if_current,
  fail_request_missing, postponed,
}

abbrev pub error_number : Option ErrorCode → ℕ
error_number none = 0
error_number (some source_index_delete_failed) = 1
error_number (some source_index_uncertain) = 2
error_number (some source_index_request_missing) = 3
error_number (some source_index_failed) = 4
error_number (some source_index_unavailable) = 5
error_number (some source_index_missing) = 6
error_number (some (reported code)) = code + 7

-- A column of the row: the new value where the copy's value changed.
abbrev pub column {ℓ} : {A : Type ℓ} → Bool → A → A → A
column unchanged new current = if unchanged then current else new

unfoldable pub flush : Source → Source → Source → Source
flush old new row = record row {
  index_state =
      column (state_number old.index_state == state_number new.index_state) new.index_state
        row.index_state;
  index_remote_document_id =
      column (same_option old.index_remote_document_id new.index_remote_document_id)
        new.index_remote_document_id row.index_remote_document_id;
  index_error_code =
      column (error_number old.index_error_code == error_number new.index_error_code)
        new.index_error_code row.index_error_code;
  index_lease_owner =
      column (same_option old.index_lease_owner new.index_lease_owner) new.index_lease_owner
        row.index_lease_owner;
  index_lease_expires_at =
      column (same_option old.index_lease_expires_at new.index_lease_expires_at)
        new.index_lease_expires_at row.index_lease_expires_at;
  index_accepted_at =
      column (same_option old.index_accepted_at new.index_accepted_at) new.index_accepted_at
        row.index_accepted_at;
  index_ready_at =
      column (same_option old.index_ready_at new.index_ready_at) new.index_ready_at
        row.index_ready_at;
  index_updated_at =
      column (same_option old.index_updated_at new.index_updated_at) new.index_updated_at
        row.index_updated_at;
  updated_at = column (old.updated_at == new.updated_at) new.updated_at row.updated_at;
  version = column (old.version == new.version) new.version row.version;
}

pub record Session : Type 0 where
  pub held : Source
  pub row : Source
  pub domain : Domain

-- What others commit: the table's row and the domain, never the session's copy.
pub record Others : Type 0 where
  pub source : Source → Source
  pub domain : Domain → Domain

abbrev pub meanwhile : Others → Session → Session
meanwhile o s = record s { row = o.source s.row; domain = o.domain s.domain }

abbrev pub refresh : Session → Session
refresh s = record s { held = s.row }

-- A change of the copy, committed; the Boolean says whether there was one.
abbrev pub commit : Session → Option Source → Session × Bool
commit s none = (s, false)
commit s (some new) = (record s { held = new; row = flush s.held new s.row }, true)

pub record Readiness : Type 0 where
  pub ready : Bool
  pub failed : Bool
  pub error_code : Option ErrorCode

-- What the sealing, the submission and the heartbeat beside it come to.
pub data Submission : Type 0 where
  submitted : (remote_document_id : ℕ) → Submission
  timed_out : Submission
  refused : ErrorCode → Submission
  lease_lost : Submission

pub record Run : Type 0 where
  pub generation : ℕ
  pub request_id : RequestId
  pub owner : ℕ
  pub lease_seconds : ℕ
  pub backoff_seconds : ℕ
  pub now : ℕ
  pub private_remote_id : ℕ
  pub probing : Others
  pub readiness : Readiness
  pub allows_submit : Bool
  pub seal_error : Option ErrorCode
  pub submitting : Others
  pub submission : Submission

abbrev pub beat : Run → Session → Session × Bool
beat r s =
    let s' = refresh s in commit s' (heartbeat_index_lease r.owner r.lease_seconds r.now s'.held)

abbrev pub apply_all : ℕ → Session → Session
apply_all now s = record s {
  domain = mark_domain_graph_applied_generation s.domain.graph_desired_generation now s.domain;
}

abbrev pub try_ready : Run → Session → Session
try_ready r s =
    let (s', done) =
      commit s (mark_index_ready_if_current r.generation r.request_id r.now s.held) in
    if done then apply_all r.now s' else s'

abbrev pub try_accept : Run → ℕ → Session → Session × Bool
try_accept r remote s =
    commit s (mark_index_accepted_if_current r.generation r.request_id remote r.now s.held)

abbrev pub try_fail : Run → ErrorCode → Session → Session
try_fail r code s =
    (commit s (mark_index_failed_if_current r.generation r.request_id code r.now s.held)).0

abbrev pub accepted_probe : Run → Session → Session
accepted_probe r s =
    if r.readiness.failed
    then try_fail r (or_else r.readiness.error_code source_index_failed) s
    else if r.readiness.ready
    then try_ready r s
    else (commit s
        (schedule_index_poll_backoff r.generation r.request_id r.backoff_seconds r.now s.held)).0

unfoldable pub run_accepted : Run → Session → Session
run_accepted r s =
    let (s1, renewed) = beat r s in
    if renewed then accepted_probe r (meanwhile r.probing s1) else s1

-- The domain does not take a new submission: the lease is given back for the backoff.
abbrev pub put_off : Run → Session → Session
put_off r s = (commit s (some (postponed r.backoff_seconds r.now s.held))).0

-- After a `SourceIndexError` the rollback has expired the copy.
abbrev pub finish_submit : Run → Submission → Session → Session
finish_submit r (submitted remote) s = (try_accept r remote s).0
finish_submit r timed_out s =
    let s' = refresh s in
    (commit s'
      (mark_index_uncertain_if_current r.generation r.request_id r.backoff_seconds r.now s'.held)).0
finish_submit r (refused code) s = try_fail r code (refresh s)
finish_submit r lease_lost s = s

abbrev pub submit : Run → Session → Session
submit r s =
    let started = mark_domain_indexing_ever_started r.now s.domain in
    let s' = record s { domain = advance_domain_graph_desired_generation r.now started } in
    finish_submit r r.submission (meanwhile r.submitting s')

abbrev pub try_submit : Run → Option ErrorCode → Session → Session
try_submit r (some code) s = try_fail r code s
try_submit r none s = submit r s

-- The runtime has no such document: a new submission, if the domain takes one.
abbrev pub absent_probe : Run → Session → Session
absent_probe r s = if not r.allows_submit then put_off r s else try_submit r r.seal_error s

abbrev pub failed_probe : Run → Option ErrorCode → Session → Session
failed_probe r none s = absent_probe r s
failed_probe r (some source_index_missing) s = absent_probe r s
failed_probe r (some code) s = try_fail r code s

abbrev pub submitting_probe : Run → Session → Session
submitting_probe r s =
    let remote = or_else s.held.index_remote_document_id r.private_remote_id in
    if r.readiness.ready
    then (let (s', done) = try_accept r remote s in if done then try_ready r s' else s')
    else if not r.readiness.failed
    then (try_accept r remote s).0
    else failed_probe r r.readiness.error_code s

unfoldable pub run_submitting : Run → Session → Session
run_submitting r s =
    let (s1, renewed) = beat r s in
    if renewed then submitting_probe r (meanwhile r.probing s1) else s1

abbrev pub run_state : Run → Session → Session
run_state r s =
    if is_state submitting s.held
    then run_submitting r s
    else if is_state accepted s.held
    then run_accepted r s
    else s

-- `run_once` from the claim on, `s.held` being the claimed source.
unfoldable pub run_once : Run → Session → Session
unfolding run_accepted run_submitting fail_request_missing
run_once r s = elim s.held.index_request_id [
  | none ↦ (commit s (some (fail_request_missing r.now s.held))).0
  | some _ ↦ run_state r s
]
