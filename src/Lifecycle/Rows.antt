-- ===== src/Lifecycle/Rows.antt =====
-- The operations' table, and what the functions that end an operation write to its row. A function
-- is given the session's copy of the row and writes to the row that is stored, which others may have
-- changed; where the row is gone, the session raises `stale_data` and nothing is written.
use ce_local_studio.Base.{
  ℕ, ◌+◌, Bool, false, not, ◌&&◌, ◌||◌, Option, none, some, List, [], ◌∷◌, ◌++◌, same_option, ◌==◌,
  ltb, if◌then◌else◌, or_else, any, Result, ok, err,
}
use ce_local_studio.Turn.Lease.{not_expired}
use ce_local_studio.Lifecycle.Types.{
  OperationStatus, Message, outcome_uncertain, runtime_unavailable, OperationError, safe, Operation,
  Rows, RuntimeControllerResult, ControllerOutcome, DomainError, stale_data, is_active,
}

-- What a call returns or raises, and the rows after it.
abbrev pub Outcome {ℓ} : Type ℓ → Type ℓ
Outcome A = Result DomainError A × Rows

abbrev pub assign_operation_lease : ℕ → ℕ → ℕ → Operation → Operation
assign_operation_lease owner lease_seconds current operation = record operation {
  lease_owner = some owner;
  lease_expires_at = some (current + lease_seconds);
  updated_at = current;
}

unfoldable pub operation_lease_current : ℕ → ℕ → Operation → Bool
operation_lease_current owner current operation =
    if not (same_option operation.lease_owner (some owner))
    then false
    else not_expired operation.lease_expires_at current

-- The copy with its lease renewed, where it is still held.
unfoldable pub heartbeat_operation_lease : ℕ → ℕ → ℕ → Operation → Option Operation
unfolding operation_lease_current
heartbeat_operation_lease owner lease_seconds current operation =
    if not (operation_lease_current owner current operation)
    then none
    else some (record operation {
      lease_expires_at = some (current + lease_seconds);
      updated_at = current;
    })

abbrev pub newer_of : Operation → Option Operation → Operation
newer_of o none = o
newer_of o (some p) = if ltb o.created_at p.created_at then p else o

-- The newest of the active operations: `ORDER BY created_at DESC`, the first row.
unfoldable pub active_operation : List Operation → Option Operation
active_operation [] = none
active_operation (o ∷ os) =
    let rest = active_operation os in if is_active o.status then some (newer_of o rest) else rest

abbrev pub has_row : ℕ → List Operation → Bool
has_row id = any (λ (o : Operation). o.id == id)

-- `INSERT`: the primary key, and the index that lets a domain have one active operation, refuse a row.
unfoldable pub insert_operation : Operation → List Operation → Option (List Operation)
insert_operation new operations =
    if has_row new.id operations
      || (is_active new.status && any (λ (o : Operation). is_active o.status) operations)
    then none
    else some (operations ++ new ∷ [])

-- `UPDATE` of the row of an id.
abbrev pub update_row : ℕ → (Operation → Operation) → List Operation → List Operation
update_row id change [] = []
update_row id change (o ∷ os) = (if o.id == id then change o else o) ∷ update_row id change os

-- A session writes a change of its copy to the row, and commits.
unfoldable pub write : Operation → (Operation → Operation) → Rows → Outcome (Unit {0})
write copy change rows =
    if has_row copy.id rows.operations
    then (ok tt, record rows { operations = update_row copy.id change rows.operations })
    else (err stale_data, rows)

-- The columns that every ending writes; `version` is counted from the copy.
abbrev pub ended :
    OperationStatus → Message → Option OperationError → Operation → ℕ → Operation → Operation
ended status message code copy now row = record row {
  status = status;
  message = some message;
  error_code = code;
  finished_at = some now;
  updated_at = now;
  version = copy.version + 1;
}

unfoldable pub finish_operation : ℕ → Message → Operation → Rows → Outcome (Unit {0})
unfolding write
finish_operation now message copy =
    write copy (ended OperationStatus.succeeded message none copy now)

unfoldable pub cancel_operation : ℕ → Message → Operation → Rows → Outcome (Unit {0})
unfolding write
cancel_operation now message copy =
    write copy (ended OperationStatus.cancelled message none copy now)

unfoldable pub fail_operation : ℕ → OperationError → Message → Operation → Rows → Outcome (Unit {0})
unfolding write
fail_operation now code message copy =
    write copy (ended OperationStatus.failed message (some code) copy now)

unfoldable pub mark_operation_uncertain :
    ℕ → RuntimeControllerResult → Operation → Rows → Outcome (Unit {0})
unfolding write
mark_operation_uncertain now result copy = write copy (λ (row : Operation). record row {
  message = some (or_else result.message outcome_uncertain);
  error_code = none;
  updated_at = now;
  version = copy.version + 1;
})

-- The code of a failure: `result.safe_code or` the given one.
abbrev pub code_or : Option ℕ → OperationError → OperationError
code_or none default = default
code_or (some code) default = safe code

-- A call that returns gives the value.
abbrev pub giving {ℓ} : {A : Type ℓ} → A → Outcome (Unit {0}) → Outcome A
giving value (ok _, after) = (ok value, after)
giving value (err raised, after) = (err raised, after)

-- `raise DomainError(503, ...)` after the row is written.
abbrev pub raising : Outcome (Unit {0}) → Outcome (Unit {0})
raising (ok _, after) = (err DomainError.dependency_unavailable, after)
raising (err raised, after) = (err raised, after)

-- What follows a call of the controller; it returns where the call succeeded.
unfoldable pub raise_for_controller_result :
    ℕ → RuntimeControllerResult → Operation → Rows → Outcome (Unit {0})
unfolding mark_operation_uncertain fail_operation
raise_for_controller_result now result copy rows = elim result.outcome [
  | ControllerOutcome.succeeded ↦ (ok tt, rows)
  | ControllerOutcome.uncertain ↦ raising (mark_operation_uncertain now result copy rows)
  | ControllerOutcome.failed ↦ raising (
      fail_operation now (code_or result.safe_code OperationError.dependency_unavailable)
        (or_else result.message runtime_unavailable) copy rows)
]
