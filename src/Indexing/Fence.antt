-- ===== src/Indexing/Fence.antt =====
-- The rows that a worker whose generation is over may leave.
use ce_local_studio.Base.{
  ℕ, ◌<◌, ◌≤◌, ◌≡◌, refl, false, Option, none, some, arith, ◌==◌, same_option,
}
use ce_local_studio.Indexing.Types.{RequestId, ErrorCode, Source, IndexState, state_number}
use ce_local_studio.Indexing.Results.{worker_result_is_current}
use ce_local_studio.Indexing.Worker.{Run, Others, column, error_number, flush}

-- Two rows that differ at most in the lease and in the instants of the last change.
abbrev pub SameButLease : Source → Source → Type 0
SameButLease x y =
    (y.prepared ≡ x.prepared)
    × (y.index_state ≡ x.index_state)
    × (y.index_generation ≡ x.index_generation)
    × (y.index_request_id ≡ x.index_request_id)
    × (y.index_content_hash ≡ x.index_content_hash)
    × (y.index_remote_document_id ≡ x.index_remote_document_id)
    × (y.index_error_code ≡ x.index_error_code)
    × (y.index_accepted_at ≡ x.index_accepted_at)
    × (y.index_ready_at ≡ x.index_ready_at)
    × (y.version ≡ x.version)

-- Where a row is taken by the writes of others during a run, and by changes of the lease.
pub data LeftToOthers (r : Run) (x : Source) : Source → Type 0 where
  as_found : LeftToOthers r x x
  leased : {y z : Source} → LeftToOthers r x y → SameButLease y z → LeftToOthers r x z
  while_probing : {y : Source} → LeftToOthers r x y → LeftToOthers r x (r.probing.source y)
  while_submitting : {y : Source} → LeftToOthers r x y → LeftToOthers r x (r.submitting.source y)

-- Others never take a source back to an earlier generation.
abbrev pub Raises : Others → Type 0
Raises o = (x : Source) → x.index_generation ≤ Source.index_generation (o.source x)

column-same_state : (a b : IndexState) → column (state_number a == state_number a) a b ≡ b
column-same_state a b = ground arith

column-same_nat : (a b : ℕ) → column (a == a) a b ≡ b
column-same_nat a b = ground arith

column-same_option : (a b : Option ℕ) → column (same_option a a) a b ≡ b
column-same_option none b = refl
column-same_option (some a) b = ground arith

column-same_error : (a b : Option ErrorCode) → column (error_number a == error_number a) a b ≡ b
column-same_error a b = ground arith

-- A commit of a copy in which the lease alone has changed changes the lease alone.
pub flush-SameButLease :
    (old row : Source) (owner expires updated : Option ℕ) (at : ℕ)
    → SameButLease row (
        flush old
          (record old {
            index_lease_owner = owner;
            index_lease_expires_at = expires;
            index_updated_at = updated;
            updated_at = at;
          })
          row)
unfolding flush
flush-SameButLease old row owner expires updated at = (
  refl,
  column-same_state old.index_state row.index_state,
  refl,
  refl,
  refl,
  column-same_option old.index_remote_document_id row.index_remote_document_id,
  column-same_error old.index_error_code row.index_error_code,
  column-same_option old.index_accepted_at row.index_accepted_at,
  column-same_option old.index_ready_at row.index_ready_at,
  column-same_nat old.version row.version,
)

pub not_current :
    (s : Source) (generation : ℕ) (request : RequestId)
    → generation < s.index_generation
    → worker_result_is_current s generation request ≡ false
unfolding worker_result_is_current
not_current s generation request h = ground (arith, h)
