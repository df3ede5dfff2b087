-- ===== src/Indexing/Flush.antt =====
-- A commit by a session whose copy is the row writes the changed copy.
use ce_local_studio.Base.{ℕ, ◌≡◌, refl, sym, Option, none, some, arith, ◌==◌, same_option}
use ce_local_studio.Indexing.Types.{IndexState, ErrorCode, Source, state_number}
use ce_local_studio.Indexing.Worker.{column, flush, error_number}

column-nat : (a b : ℕ) → column (a == b) b a ≡ b
column-nat a b = ground arith

column-option : (a b : Option ℕ) → column (same_option a b) b a ≡ b
column-option none none = refl
column-option none (some b) = refl
column-option (some a) none = refl
column-option (some a) (some b) = ground arith

column-state : (a b : IndexState) → column (state_number a == state_number b) b a ≡ b
column-state a b = ground arith

column-error : (a b : Option ErrorCode) → column (error_number a == error_number b) b a ≡ b
column-error a b = ground arith

-- The columns that a worker never writes.
abbrev pub Kept : Source → Source → Type 0
Kept s new =
    (new.id ≡ s.id)
    × (new.prepared ≡ s.prepared)
    × (new.index_generation ≡ s.index_generation)
    × (new.index_request_id ≡ s.index_request_id)
    × (new.index_content_hash ≡ s.index_content_hash)

pub flush-Kept : (s new : Source) → Kept s new → flush s new s ≡ new
unfolding flush
flush-Kept s new k =
    rw
      (
        column-state s.index_state new.index_state,
        column-option s.index_remote_document_id new.index_remote_document_id,
        column-error s.index_error_code new.index_error_code,
        column-option s.index_lease_owner new.index_lease_owner,
        column-option s.index_lease_expires_at new.index_lease_expires_at,
        column-option s.index_accepted_at new.index_accepted_at,
        column-option s.index_ready_at new.index_ready_at,
        column-option s.index_updated_at new.index_updated_at,
        column-nat s.updated_at new.updated_at,
        column-nat s.version new.version,
        sym k.0,
        sym k.1,
        sym k.2,
        sym k.3,
        sym k.4,
      )
      refl
