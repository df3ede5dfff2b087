-- ===== src/Lifecycle/Types.antt =====
-- The columns of `Domain` and `DomainOperation` (app/context_engine/models.py) that the lifecycle
-- reads or writes, the rows of one domain id, and the values that the controller returns. The user
-- and the request that asked for an operation are left out: they are written once and not read.
use ce_local_studio.Base.{
  ℕ, zero, suc, ◌-◌, Bool, true, false, ◌&&◌, ◌||◌, Option, List, [], ◌∷◌, ◌==◌, leb,
}
use ce_local_studio.Indexing.Types.{DomainState}

pub data OperationType : Type 0 where
  create start stop delete : OperationType

pub data OperationStatus : Type 0 where
  queued running succeeded failed cancelled : OperationStatus

-- The texts of `message`, by the place that writes them; `reported` is one that the controller gave.
pub data Message : Type 0 where
  creating_domain starting_domain stopping_domain delete_queued superseded_by_delete : Message
  domain_created domain_started domain_stopped lease_lost stale_generation : Message
  outcome_uncertain unknown_remote_outcome runtime_unavailable : Message
  domain_removed stale_reconciliation started_after stopped_after not_ready_after : Message
  reconciling_uncertain_delete removing_runtime already_removed not_removed : Message
  source_not_removed delete_superseded : Message
  reported : ℕ → Message

-- `error_code`; `safe` is a code that the controller or another part gave.
pub data OperationError : Type 0 where
  dependency_unavailable domain_runtime_unavailable source_delete_failed : OperationError
  safe : ℕ → OperationError

pub record Operation : Type 0 where
  pub id : ℕ
  pub operation_type : OperationType
  pub status : OperationStatus
  pub control_generation_at_start : ℕ
  pub message : Option Message
  pub error_code : Option OperationError
  pub lease_owner : Option ℕ
  pub lease_expires_at : Option ℕ
  pub started_at : Option ℕ
  pub finished_at : Option ℕ
  pub created_at : ℕ
  pub updated_at : ℕ
  pub version : ℕ

pub record Domain : Type 0 where
  pub state : DomainState
  pub embedding_profile_id : ℕ
  pub graph_extraction_profile_id : Option ℕ
  pub indexing_ever_started : Bool
  pub runtime_instance_id : ℕ
  pub control_generation : ℕ
  pub version : ℕ
  pub updated_at : ℕ

-- The rows of one domain id: the domain's, while there is one, and those of its operations.
pub record Rows : Type 0 where
  pub domain : Option Domain
  pub operations : List Operation

pub data ControllerOutcome : Type 0 where
  succeeded failed uncertain : ControllerOutcome

pub record RuntimeControllerResult : Type 0 where
  pub outcome : ControllerOutcome
  pub safe_code : Option ℕ
  pub message : Option Message

pub record RuntimeHealth : Type 0 where
  pub healthy : Bool
  pub outcome : ControllerOutcome

pub record LifecycleSettings : Type 0 where
  pub lifecycle_worker_id : ℕ
  pub lifecycle_lease_seconds : ℕ
  pub delete_worker_id : ℕ
  pub delete_lease_seconds : ℕ

-- `DomainError`, by its code; `runtime_config` is an error of the profile resolver passed on, and
-- `stale_data` the database session's own error for a row that is gone.
pub data DomainError : Type 0 where
  validation_error not_found stale_revision domain_operation_in_progress : DomainError
  domain_state_conflict operation_conflict dependency_unavailable : DomainError
  graph_extraction_profile_invalid graph_extraction_assignment_ineligible : DomainError
  runtime_config : ℕ → DomainError
  stale_data : DomainError

abbrev pub type_number : OperationType → ℕ
type_number OperationType.create = 0
type_number OperationType.start = 1
type_number OperationType.stop = 2
type_number OperationType.delete = 3

abbrev pub is_type : OperationType → Operation → Bool
is_type type operation = type_number operation.operation_type == type_number type

abbrev pub is_stopped : DomainState → Bool
is_stopped DomainState.stopped = true
is_stopped _ = false

abbrev pub is_running : DomainState → Bool
is_running DomainState.running = true
is_running _ = false

abbrev pub is_deleting : DomainState → Bool
is_deleting DomainState.deleting = true
is_deleting _ = false

-- `status in DOMAIN_OPERATION_ACTIVE_STATUSES`
abbrev pub is_active : OperationStatus → Bool
is_active OperationStatus.queued = true
is_active OperationStatus.running = true
is_active _ = false

-- Whether the lower-cased text has the word `uncertain`, which reconciliation searches for.
abbrev pub mentions_uncertain : (ℕ → Bool) → Message → Bool
mentions_uncertain says outcome_uncertain = true
mentions_uncertain says reconciling_uncertain_delete = true
mentions_uncertain says (reported text) = says text
mentions_uncertain says _ = false

abbrev is_id_letter : ℕ → Bool
is_id_letter c = (leb 97 c && leb c 122) || (leb 48 c && leb c 57)

abbrev is_id_rest : ℕ → Bool
is_id_rest c = is_id_letter c || (c == 95) || (c == 45)

-- Between `least` and `most` characters of the class that the pattern repeats.
abbrev repeats : ℕ → ℕ → List ℕ → Bool
repeats least most [] = least == 0
repeats least zero (c ∷ cs) = false
repeats least (suc most) (c ∷ cs) = is_id_rest c && repeats (least - 1) most cs

-- `^[a-z0-9][a-z0-9_-]{1,62}$`, matched against the whole id
unfoldable pub is_valid_domain_id : List ℕ → Bool
is_valid_domain_id [] = false
is_valid_domain_id (c ∷ cs) = is_id_letter c && repeats 1 62 cs
