-- ===== src/Preparation/Types.antt =====
-- The columns of `SourceDocument` and `SourcePreparationOperation` (app/context_engine/models.py) that
-- preparation reads or writes. The blocks and images of a source are one value, `content`; messages,
-- which nothing reads, are left out.
use ce_local_studio.Base.{ℕ, Bool, true, false, Option, List}

pub data SourceState : Type 0 where
  pending prepared deleting : SourceState

pub data PreparationType : Type 0 where
  prepare delete : PreparationType

pub data PreparationStatus : Type 0 where
  queued running succeeded failed cancelled : PreparationStatus

pub data PreparationError : Type 0 where
  source_preparation_invalid source_delete_failed : PreparationError
  reported : ℕ → PreparationError

pub record PreparationOperation : Type 0 where
  pub id : ℕ
  pub operation_type : PreparationType
  pub status : PreparationStatus
  pub preparation_generation_at_start : ℕ
  pub error_code : Option PreparationError
  pub lease_owner : Option ℕ
  pub lease_expires_at : Option ℕ
  pub started_at : Option ℕ
  pub finished_at : Option ℕ
  pub created_at : ℕ
  pub updated_at : ℕ
  pub version : ℕ

pub record SourceDocument : Type 0 where
  pub id : ℕ
  pub state : SourceState
  pub preparation_generation : ℕ
  pub parser_kind : ℕ
  pub content : Option ℕ
  pub version : ℕ
  pub updated_at : ℕ

-- The rows of one source id.
pub record SourceRows : Type 0 where
  pub source : Option SourceDocument
  pub operations : List PreparationOperation

-- `SourceError` by its code, and the errors of the parser and of the storage.
pub data SourceError : Type 0 where
  domain_not_found domain_state_conflict source_not_found stale_revision : SourceError
  source_state_conflict operation_conflict storage_unavailable : SourceError
  preparation_invalid not_found stale_data : SourceError

abbrev pub is_pending : SourceState → Bool
is_pending pending = true
is_pending _ = false

abbrev pub is_deleting : SourceState → Bool
is_deleting deleting = true
is_deleting _ = false

abbrev pub is_active : PreparationStatus → Bool
is_active queued = true
is_active running = true
is_active _ = false

abbrev pub has_status_running : PreparationStatus → Bool
has_status_running running = true
has_status_running _ = false

abbrev pub is_prepare : PreparationType → Bool
is_prepare prepare = true
is_prepare delete = false
