-- ===== src/Indexing/Types.antt =====
-- The columns of `SourceDocument` and `Domain` (app/context_engine/models.py) that indexing reads or
-- writes. A content hash is a number, and `prefix` is its first 16 digits, so a request id is the
-- three values that its text is put together of. `prepared` says that `state` is `prepared`.
use ce_local_studio.Base.{
  ℕ, Bool, true, false, ◌&&◌, Option, none, some, ◌==◌, leb, if◌then◌else◌, not,
}

pub data IndexState : Type 0 where
  not_requested queued submitting accepted ready failed cancelling cancelled : IndexState

pub record RequestId : Type 0 where
  pub source_id : ℕ
  pub generation : ℕ
  pub content_prefix : ℕ

-- `index_error_code`; `reported` is a code that another part gives.
pub data ErrorCode : Type 0 where
  source_index_delete_failed source_index_uncertain source_index_request_missing : ErrorCode
  source_index_failed source_index_unavailable source_index_missing : ErrorCode
  reported : ℕ → ErrorCode

pub record Source : Type 0 where
  pub id : ℕ
  pub prepared : Bool
  pub index_state : IndexState
  pub index_generation : ℕ
  pub index_request_id : Option RequestId
  pub index_content_hash : Option ℕ
  pub index_remote_document_id : Option ℕ
  pub index_error_code : Option ErrorCode
  pub index_lease_owner : Option ℕ
  pub index_lease_expires_at : Option ℕ
  pub index_accepted_at : Option ℕ
  pub index_ready_at : Option ℕ
  pub index_updated_at : Option ℕ
  pub updated_at : ℕ
  pub version : ℕ

pub data DomainState : Type 0 where
  stopped running deleting : DomainState

pub record Domain : Type 0 where
  pub state : DomainState
  pub indexing_ever_started : Bool
  pub graph_desired_generation : ℕ
  pub graph_applied_generation : ℕ
  pub updated_at : ℕ

abbrev pub same_request : RequestId → RequestId → Bool
same_request a b =
    (a.source_id == b.source_id)
    && (a.generation == b.generation)
    && (a.content_prefix == b.content_prefix)

abbrev pub same_request_option : Option RequestId → Option RequestId → Bool
same_request_option none none = true
same_request_option (some a) (some b) = same_request a b
same_request_option _ _ = false

-- A number for each state, to compare them by.
abbrev pub state_number : IndexState → ℕ
state_number not_requested = 0
state_number queued = 1
state_number submitting = 2
state_number accepted = 3
state_number ready = 4
state_number failed = 5
state_number cancelling = 6
state_number cancelled = 7

abbrev pub is_state : IndexState → Source → Bool
is_state state source = state_number source.index_state == state_number state

abbrev pub compute_index_request_id : (ℕ → ℕ) → ℕ → ℕ → ℕ → RequestId
compute_index_request_id prefix source_id generation content_hash = record {
  source_id = source_id;
  generation = generation;
  content_prefix = prefix content_hash;
}

abbrev identity : (ℕ → ℕ) → Source → Option RequestId → Option ℕ → Bool
identity prefix source (some request_id) (some content_hash) =
    same_request request_id
      (compute_index_request_id prefix source.id source.index_generation content_hash)
identity prefix source _ _ = false

unfoldable pub source_has_current_index_identity : (ℕ → ℕ) → Source → Bool
source_has_current_index_identity prefix source =
    leb 1 source.index_generation
    && identity prefix source source.index_request_id source.index_content_hash

-- `available` is `domain_available`, a probe of the runtime; the source is of the domain.
unfoldable pub source_is_query_eligible : (ℕ → ℕ) → Bool → Source → Bool
unfolding source_has_current_index_identity
source_is_query_eligible prefix available source =
    if not available
    then false
    else if not source.prepared
    then false
    else if not (is_state ready source)
    then false
    else source_has_current_index_identity prefix source
