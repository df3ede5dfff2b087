-- ===== src/Lifecycle/Requests.antt =====
-- What the requests to the lifecycle share: their guards, the row of a new operation and its commit.
use ce_local_studio.Base.{
  ℕ, ◌+◌, Bool, true, false, not, Option, none, some, List, ◌==◌, is_some, Result, ok, err,
}
use ce_local_studio.Lifecycle.Types.{
  OperationType, OperationStatus, Message, Operation, Domain, Rows, DomainError, validation_error,
  not_found, stale_revision, domain_operation_in_progress, runtime_config, is_valid_domain_id,
}
use ce_local_studio.Lifecycle.Rows.{Outcome, active_operation, insert_operation}

-- Who asks, and the ids and times that the request takes.
pub record Call : Type 0 where
  pub domain_id : List ℕ
  pub operation_id : ℕ
  pub began : ℕ
  pub checked : ℕ
  pub written : ℕ

abbrev pub raised_if {ℓ} :
    {A : Type ℓ} → Bool → DomainError → Result DomainError A → Result DomainError A
raised_if true error rest = err error
raised_if false error rest = rest

abbrev pub domain_or_404 : List ℕ → Rows → Result DomainError Domain
domain_or_404 domain_id rows =
    raised_if (not (is_valid_domain_id domain_id)) validation_error
      (elim rows.domain [ none ↦ err not_found | some domain ↦ ok domain ])

abbrev pub require_domain_version : Domain → ℕ → Result DomainError (Unit {0})
require_domain_version domain expected_version =
    raised_if (not (domain.version == expected_version)) stale_revision (ok tt)

abbrev pub ensure_no_active_operation : Rows → Result DomainError (Unit {0})
ensure_no_active_operation rows =
    raised_if (is_some (active_operation rows.operations)) domain_operation_in_progress (ok tt)

abbrev started_at : OperationStatus → ℕ → Option ℕ
started_at OperationStatus.running now = some now
started_at _ now = none

-- `_operation`: a row without a lease.
abbrev pub new_operation : OperationType → OperationStatus → Message → ℕ → ℕ → ℕ → Operation
new_operation type status message id generation now = record {
  id = id;
  operation_type = type;
  status = status;
  control_generation_at_start = generation;
  message = some message;
  error_code = none;
  lease_owner = none;
  lease_expires_at = none;
  started_at = started_at status now;
  finished_at = none;
  created_at = now;
  updated_at = now;
  version = 1;
}

-- The commit of a new operation with the domain it changes; a refused row is rolled back.
abbrev pub open_operation :
    Operation → DomainError → Domain → List Operation → Rows → Outcome (Domain × Operation)
open_operation operation refused domain operations rows =
    elim (insert_operation operation operations) [
      | none ↦ (err refused, rows)
      | some inserted ↦
          (ok (domain, operation), record { domain = some domain; operations = inserted })
    ]

-- A check that fails writes nothing.
abbrev pub after_check {ℓ κ} :
    {A : Type ℓ} {B : Type κ} → Rows → Result DomainError A → (A → Outcome B) → Outcome B
after_check rows (err raised) rest = (err raised, rows)
after_check rows (ok value) rest = rest value

-- Two calls in a row, each with the rows that the one before left.
abbrev pub and_then {ℓ κ} :
    {A : Type ℓ} {B : Type κ} → Outcome A → (A → Rows → Outcome B) → Outcome B
and_then (err raised, rows) rest = (err raised, rows)
and_then (ok value, rows) rest = rest value rows

-- What the profile resolver and the sealing of the provider's settings answer.
pub record Preflight : Type 0 where
  pub embedding_error : Option ℕ
  pub extraction_error : Option ℕ
  pub sealed : Bool

abbrev pub resolved : Option ℕ → Result DomainError (Unit {0})
resolved none = ok tt
resolved (some code) = err (runtime_config code)

-- The domain with its next generation.
abbrev pub advance : ℕ → Domain → Domain
advance now domain = record domain {
  control_generation = domain.control_generation + 1;
  version = domain.version + 1;
  updated_at = now;
}
