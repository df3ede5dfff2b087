-- ===== src/Lifecycle/Actions.antt =====
-- The actions that a domain's page offers are those that the requests accept.
use ce_local_studio.Base.{
  ◌+◌, eqb_refl, ◌≡◌, ◌≢◌, refl, sym, ◌∙◌, Bool, true, false, not, ◌&&◌, Option, none, some, List,
  arith, ◌==◌, inl, inr, ok, err, Result, Bool-cases, Option-cases, any, is_some,
}
use ce_local_studio.Lifecycle.Types.{
  Operation, Domain, Rows, LifecycleSettings, is_valid_domain_id, is_stopped, is_running,
  is_deleting, DomainError, OperationType, OperationStatus, Message,
}
use ce_local_studio.Lifecycle.Rows.{active_operation, has_row, insert_operation}
use ce_local_studio.Lifecycle.Requests.{
  Call, Preflight, after_check, open_operation, advance, new_operation,
}
use ce_local_studio.Lifecycle.Control.{may_start, begin_start, may_stop, begin_stop}
use ce_local_studio.Lifecycle.Removal.{
  may_delete, enqueue_delete_domain, cancel_active_lifecycle_operation,
}
use ce_local_studio.Lifecycle.Views.{ActionName, Action, domain_allowed_actions, name_number}
use ce_local_studio.Lifecycle.Undisturbed.{inactive, insert_operation-fresh, start_row, stop_row}

abbrev pub is_ok {ℓ} : {A : Type ℓ} → Result DomainError A → Bool
is_ok (ok _) = true
is_ok (err _) = false

-- Whether an action is offered.
abbrev pub offers : ActionName → List Action → Bool
offers name actions =
    any (λ (a : Action). (name_number a.action == name_number name) && a.enabled) actions

-- The checks that a domain's page does not know of pass.
abbrev pub Passes : Call → Preflight → Domain → Type 0
Passes call preflight d =
    (is_valid_domain_id call.domain_id ≡ true)
    × (preflight.embedding_error ≡ none)
    × (preflight.extraction_error ≡ none)
    × (preflight.sealed ≡ true)
    × (is_some d.graph_extraction_profile_id ≡ true)

offers_start :
    (call : Call) (preflight : Preflight) (rows : Rows) (d : Domain)
    → rows.domain ≡ some d
    → Passes call preflight d
    → offers ActionName.start (domain_allowed_actions d (active_operation rows.operations))
      ≡ is_ok (may_start call preflight rows)
unfolding domain_allowed_actions may_start
offers_start call preflight rows d e (i, a, b, s, p) =
    elim (Option-cases (active_operation rows.operations)) [
      | inl n ↦ elim (Bool-cases (is_stopped d.state)) [
        | inl t ↦ ground (arith, e, i, a, b, s, p, n, t)
        | inr t ↦ ground (arith, e, i, a, b, s, p, n, t)
      ]
      | inr (o, n) ↦ ground (arith, e, i, a, b, s, p, n)
    ]

offers_stop :
    (call : Call) (rows : Rows) (d : Domain)
    → rows.domain ≡ some d
    → is_valid_domain_id call.domain_id ≡ true
    → offers ActionName.stop (domain_allowed_actions d (active_operation rows.operations))
      ≡ is_ok (may_stop call rows)
unfolding domain_allowed_actions may_stop
offers_stop call rows d e i = elim (Option-cases (active_operation rows.operations)) [
  | inl n ↦ elim (Bool-cases (is_running d.state)) [
    | inl t ↦ ground (arith, e, i, n, t)
    | inr t ↦ ground (arith, e, i, n, t)
  ]
  | inr (o, n) ↦ ground (arith, e, i, n)
]

-- A checked request opens its operation where nothing is active and its id is fresh.
checked-is_ok :
    (rows : Rows) (check : Result DomainError Domain) (new : Domain → Operation)
    (refused : DomainError) (domain : Domain → Domain)
    → ((d : Domain) → check ≡ ok d → insert_operation (new d) rows.operations ≢ none)
    → is_ok
        (after_check rows check
          (λ d. open_operation (new d) refused (domain d) rows.operations rows)).0
      ≡ is_ok check
checked-is_ok rows (err e) new refused domain f = refl
checked-is_ok rows (ok d) new refused domain f =
    elim (Option-cases (insert_operation (new d) rows.operations)) [
      | inl n ↦ absurd (f d refl n)
      | inr (os, n) ↦ rw (n, open_operation)
    ]

inserted :
    (new : Operation) (os : List Operation)
    → has_row new.id os ≡ false
    → is_some (active_operation os) ≡ false
    → insert_operation new os ≢ none
inserted new os h n e =
    let f = insert_operation-fresh new os h (inactive os n) in ground (arith, e, f)

idle_start :
    (call : Call) (preflight : Preflight) (rows : Rows) {d : Domain}
    → may_start call preflight rows ≡ ok d
    → is_some (active_operation rows.operations) ≡ false
unfolding may_start
idle_start call preflight rows h = ground (arith, h)

idle_stop :
    (call : Call) (rows : Rows) {d : Domain}
    → may_stop call rows ≡ ok d
    → is_some (active_operation rows.operations) ≡ false
unfolding may_stop
idle_stop call rows h = ground (arith, h)

start_as_offered :
    (settings : LifecycleSettings) (call : Call) (preflight : Preflight) (rows : Rows) (d : Domain)
    → rows.domain ≡ some d
    → Passes call preflight d
    → has_row call.operation_id rows.operations ≡ false
    → is_ok (begin_start settings call preflight rows).0
      ≡ offers ActionName.start (domain_allowed_actions d (active_operation rows.operations))
unfolding begin_start
start_as_offered settings call preflight rows d e p h =
    checked-is_ok rows (may_start call preflight rows) (start_row settings call)
      DomainError.domain_operation_in_progress (advance call.began)
      (λ a m.
        inserted (start_row settings call a) rows.operations h (idle_start call preflight rows m))
    ∙ sym (offers_start call preflight rows d e p)

stop_as_offered :
    (settings : LifecycleSettings) (call : Call) (rows : Rows) (d : Domain)
    → rows.domain ≡ some d
    → is_valid_domain_id call.domain_id ≡ true
    → has_row call.operation_id rows.operations ≡ false
    → is_ok (begin_stop settings call rows).0
      ≡ offers ActionName.stop (domain_allowed_actions d (active_operation rows.operations))
unfolding begin_stop
stop_as_offered settings call rows d e i h =
    checked-is_ok rows (may_stop call rows) (stop_row settings call)
      DomainError.domain_operation_in_progress (advance call.began)
      (λ a m. inserted (stop_row settings call a) rows.operations h (idle_stop call rows m))
    ∙ sym (offers_stop call rows d e i)

may_delete-idle :
    (call : Call) (rows : Rows) (d : Domain)
    → rows.domain ≡ some d
    → is_valid_domain_id call.domain_id ≡ true
    → active_operation rows.operations ≡ none
    → may_delete call d.version rows ≡ ok (d, rows.operations)
unfolding may_delete cancel_active_lifecycle_operation
may_delete-idle call rows d e i n =
    rw (e, i, eqb_refl d.version, cancel_active_lifecycle_operation, n)

offered_idle :
    (d : Domain) (active : Option Operation)
    → offers ActionName.delete (domain_allowed_actions d active) ≡ true
    → active ≡ none
unfolding domain_allowed_actions
offered_idle d none o = refl
offered_idle d (some a) o = elim (Bool-cases (is_deleting d.state)) [
  | inl x ↦ ground (arith, x, o)
  | inr x ↦ ground (arith, x, o)
]

delete_row : Call → Domain → Operation
delete_row call d =
    new_operation OperationType.delete OperationStatus.queued Message.delete_queued
      call.operation_id (d.control_generation + 1) call.written

accepted_delete :
    (call : Call) (rows : Rows) (d : Domain)
    → rows.domain ≡ some d
    → is_valid_domain_id call.domain_id ≡ true
    → has_row call.operation_id rows.operations ≡ false
    → active_operation rows.operations ≡ none
    → is_ok (enqueue_delete_domain call d.version rows).0 ≡ true
unfolding enqueue_delete_domain delete_row
accepted_delete call rows d e i h n = rw (
  may_delete-idle call rows d e i n,
  insert_operation-fresh (delete_row call d) rows.operations h (inactive rows.operations (rw n)),
  open_operation,
)

-- A domain's page offers `start` exactly where a start is accepted, and `stop` exactly where a stop
-- is, and no delete that it offers is refused for the version that it shows. The id is valid, the
-- operation's id is fresh, the domain has an extraction profile, the profiles resolve and the
-- settings are sealed.
pub offered_as_accepted :
    (settings : LifecycleSettings) (call : Call) (preflight : Preflight) (rows : Rows) (d : Domain)
    → rows.domain ≡ some d
    → Passes call preflight d
    → has_row call.operation_id rows.operations ≡ false
    → let offered : ActionName → Bool =
        λ name. offers name (domain_allowed_actions d (active_operation rows.operations)) in
      (is_ok (begin_start settings call preflight rows).0 ≡ offered ActionName.start)
      × (is_ok (begin_stop settings call rows).0 ≡ offered ActionName.stop)
      × ((offered ActionName.delete && not (is_ok (enqueue_delete_domain call d.version rows).0))
          ≡ false)
offered_as_accepted settings call preflight rows d e p h = (
  start_as_offered settings call preflight rows d e p h,
  stop_as_offered settings call rows d e p.0 h,
  elim (Bool-cases
      (offers ActionName.delete (domain_allowed_actions d (active_operation rows.operations)))) [
        | inl o ↦
            rw
              (accepted_delete call rows d e p.0 h
                (offered_idle d (active_operation rows.operations) o))
              (rw o)
        | inr o ↦ rw o
      ],
)
