-- ===== src/Lifecycle/Valid.antt =====
-- What holds of the rows of a domain id between two transactions.
use ce_local_studio.Base.{
  ℕ, ◌+◌, ◌≤◌, ◌<◌, ◌≡◌, Bool, true, false, Option, none, some, List, [], ◌∷◌, ◌==◌, if◌then◌else◌,
  All,
}
use ce_local_studio.Lifecycle.Types.{
  OperationType, Operation, Domain, Rows, is_active, is_type, is_deleting,
}
use ce_local_studio.Lifecycle.Rows.{has_row}

abbrev pub is_delete : Operation → Bool
is_delete o = is_type OperationType.delete o

-- An operation beside its domain: it began at no later generation, at the present one while it is
-- active; a start or a stop of a domain that is being deleted is of an earlier one; a domain with a
-- delete is being deleted.
pub record Sound (d : Domain) (o : Operation) : Type 0 where
  pub bounded : o.control_generation_at_start ≤ d.control_generation
  pub current : is_active o.status ≡ true → o.control_generation_at_start ≡ d.control_generation
  pub fenced :
      is_deleting d.state ≡ true
      → is_delete o ≡ false
      → o.control_generation_at_start < d.control_generation
  pub doomed : is_delete o ≡ true → is_deleting d.state ≡ true

abbrev pub active_count : List Operation → ℕ
active_count [] = 0
active_count (o ∷ os) = (if is_active o.status then 1 else 0) + active_count os

abbrev pub Distinct : List Operation → Type 0
Distinct [] = Unit
Distinct (o ∷ os) = (has_row o.id os ≡ false) × Distinct os

-- With no domain there are no operations; the operations of a domain have different ids, each is
-- `Sound`, and at most one is active.
abbrev pub RowsValid : Option Domain → List Operation → Type 0
RowsValid none os = os ≡ []
RowsValid (some d) os = All (Sound d) os × Distinct os × (active_count os ≤ 1)

abbrev pub IsValid : Rows → Type 0
IsValid rows = RowsValid rows.domain rows.operations

-- The copy of a row that a session holds: the row of its id, where there is one, is of the same
-- generation and type, which nothing changes.
abbrev pub Agrees : Operation → Operation → Type 0
Agrees copy o =
    (o.id == copy.id) ≡ true
    → (o.control_generation_at_start ≡ copy.control_generation_at_start)
      × (is_delete o ≡ is_delete copy)

abbrev pub CopyOf : Rows → Operation → Type 0
CopyOf rows copy = All (Agrees copy) rows.operations
