-- ===== src/Turn/Types.antt =====
-- The rows of app/context_engine/models.py that a chat turn is made of: `ConversationTurn`,
-- `ConversationTurnEvent`, `ConversationTurnEvidenceRef`, `ConversationTurnComposerRef`, and the
-- columns of `Conversation` that a turn changes. Ids, hashes and labels are only compared, so they
-- are numbers; instants and spans are numbers of one unit; a text is a list of code points.
use ce_local_studio.Base.{ℕ, Bool, true, false, Option, List}

abbrev pub Text : Type 0
Text = List ℕ

pub data Route : Type 0 where
  direct_llm domain_rag : Route

pub data Status : Type 0 where
  running completed failed cancelled redacted : Status

pub data StopReason : Type 0 where
  by_direct_llm grounded no_grounded_context evidence_only turn_budget_exhausted : StopReason
  provider_failure citation_validation_failed by_cancel by_redaction : StopReason

-- A safe error code, one for each text that the source gives the column.
pub data SafeError : Type 0 where
  provider_failed turn_cancelled : SafeError
  passed_on : ℕ → SafeError

pub record EvidenceRef : Type 0 where
  pub public_ref : ℕ
  pub evidence_order : ℕ
  pub source_document_id : ℕ
  pub source_block_id : ℕ
  pub citation_label : Option ℕ
  pub source_label : Option ℕ
  pub excerpt : Option Text
  pub redacted_at : Option ℕ

pub record ComposerRef : Type 0 where
  pub public_ref : ℕ
  pub ref_order : ℕ
  pub source_document_id : Option ℕ
  pub safe_label : Option ℕ
  pub safe_description : Option Text
  pub redacted_at : Option ℕ

-- `payload_json` of an event, one constructor for each `event_type` that is written with it.
pub data Payload : Type 0 where
  accepted : (client_request_id : Text) → Payload
  route_selected : Route → (domain : Option Text) → Payload
  retrieval_started : Payload
  retrieval_completed : (found : Bool) (evidence_count : ℕ) → Payload
  evidence_delta : (items : List ℕ) → Payload
  answer_delta : (text : Text) → Payload
  turn_completed :
      (stop_reason : Option StopReason) (citations accepted_refs : List ℕ) (replay : Bool) → Payload
  turn_failed : SafeError → (replay : Bool) → Payload
  cancellation : (replay : Bool) → Payload
  turn_redacted : (redacted_at : ℕ) → Payload

pub record Event : Type 0 where
  pub sequence : ℕ
  pub payload : Payload
  pub occurred_at : ℕ

pub record Turn : Type 0 where
  pub id : ℕ
  pub client_request_id : Text
  pub domain_id : Option Text
  pub route : Route
  pub status : Status
  pub stop_reason : Option StopReason
  pub user_message : Text
  pub assistant_answer : Option Text
  pub safe_error_code : Option SafeError
  pub composer_ref_fingerprint : ℕ
  pub plan_step_count : ℕ
  pub retrieval_operation_count : ℕ
  pub repair_attempt_count : ℕ
  pub lease_owner : Option ℕ
  pub lease_expires_at : Option ℕ
  pub execution_generation : ℕ
  pub events_retained_after : ℕ
  pub claimable_at : Option ℕ
  pub created_at : ℕ
  pub started_at : Option ℕ
  pub completed_at : Option ℕ
  pub updated_at : ℕ
  pub evidence_refs : List EvidenceRef
  pub composer_refs : List ComposerRef
  pub events : List Event

pub record Conversation : Type 0 where
  pub id : ℕ
  pub owner_id : ℕ
  pub version : ℕ
  pub updated_at : ℕ
  pub turns : List Turn

-- One turn, and the columns of its conversation that a change of the turn's detail bumps.
pub record Scope : Type 0 where
  pub turn : Turn
  pub version : ℕ
  pub conversation_updated_at : ℕ

abbrev pub is_running : Status → Bool
is_running running = true
is_running _ = false

abbrev pub is_redacted : Status → Bool
is_redacted redacted = true
is_redacted _ = false
