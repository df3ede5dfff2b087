-- ===== src/Lifecycle/Views.antt =====
-- What the lifecycle tells of a domain: whether it can be queried, and the actions it allows.
use ce_local_studio.Base.{
  ℕ, Bool, true, false, not, Option, none, some, List, [], ◌∷◌, if◌then◌else◌, is_some,
}
use ce_local_studio.Lifecycle.Types.{
  Operation, Domain, DomainError, domain_operation_in_progress, domain_state_conflict, is_stopped,
  is_running, is_deleting,
}
use ce_local_studio.Lifecycle.Rows.{active_operation}

-- `healthy` is what the controller's probe answers.
unfoldable pub domain_available : Bool → Domain → List Operation → Bool
unfolding active_operation
domain_available healthy domain operations =
    if not (is_running domain.state)
    then false
    else if is_some (active_operation operations)
    then false
    else healthy

pub data ActionName : Type 0 where
  start stop delete : ActionName

pub record Action : Type 0 where
  pub action : ActionName
  pub enabled : Bool
  pub reason_code : Option DomainError

abbrev action : ActionName → Bool → Option DomainError → Action
action name enabled reason = record {
  action = name;
  enabled = enabled;
  reason_code = if enabled then none else reason;
}

abbrev none_allowed : DomainError → List Action
none_allowed reason =
    action start false (some reason)
    ∷ action stop false (some reason)
    ∷ action delete false (some reason)
    ∷ []

unfoldable pub domain_allowed_actions : Domain → Option Operation → List Action
domain_allowed_actions domain active =
    if is_deleting domain.state
    then none_allowed domain_state_conflict
    else if is_some active
    then none_allowed domain_operation_in_progress
    else action start (is_stopped domain.state) (some domain_state_conflict)
      ∷ action stop (is_running domain.state) (some domain_state_conflict)
      ∷ action delete true none
      ∷ []

abbrev pub name_number : ActionName → ℕ
name_number start = 0
name_number stop = 1
name_number delete = 2
