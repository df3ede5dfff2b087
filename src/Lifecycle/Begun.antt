-- ===== src/Lifecycle/Begun.antt =====
-- The first transactions of `create_domain`, `start_domain` and `stop_domain`, the enqueuing of a
-- delete and the assignment of a profile keep the rows valid.
use mathlib.Core.Path.{subst}
use ce_local_studio.Base.{
  ℕ, ◌+◌, ◌≡◌, refl, sym, ◌∙◌, true, false, Option, none, some, List, [], ◌∷◌, arith, All, inl, inr,
  Bool-cases, Option-cases, Result, ok, err,
}
use ce_local_studio.Indexing.Types.{DomainState}
use ce_local_studio.Lifecycle.Types.{
  OperationType, OperationStatus, Message, Operation, Domain, Rows, DomainError, LifecycleSettings,
  is_deleting, is_stopped, is_running, is_type,
}
use ce_local_studio.Lifecycle.Rows.{Outcome, insert_operation, active_operation}
use ce_local_studio.Lifecycle.Requests.{
  Call, Preflight, open_operation, after_check, advance, new_operation,
}
use ce_local_studio.Lifecycle.Create.{begin_create, may_create, new_domain}
use ce_local_studio.Lifecycle.Control.{begin_start, begin_stop, may_start, may_stop, open_leased}
use ce_local_studio.Lifecycle.Removal.{
  cancelled_row, cancel_active_lifecycle_operation, may_delete, enqueue_delete_domain, may_assign,
  assign_graph_extraction_profile,
}
use ce_local_studio.Lifecycle.Valid.{is_delete, Sound, RowsValid, IsValid}
use ce_local_studio.Lifecycle.Quiet.{Quiet, All-each, update_row-RowsValid}
use ce_local_studio.Lifecycle.Opening.{insert-some, active_count-append, opened-IsValid}

pub may_start-ok :
    (call : Call) (preflight : Preflight) (rows : Rows) {d : Domain}
    → may_start call preflight rows ≡ ok d
    → (rows.domain ≡ some d) × (is_stopped d.state ≡ true)
unfolding may_start
may_start-ok call preflight rows {d} h = ground (arith, h)

pub may_stop-ok :
    (call : Call) (rows : Rows) {d : Domain}
    → may_stop call rows ≡ ok d
    → (rows.domain ≡ some d) × (is_running d.state ≡ true)
unfolding may_stop
may_stop-ok call rows {d} h = ground (arith, h)

-- A check that fails leaves the rows; one that passes gives its equation.
pub after_check-rows {ℓ κ μ} :
    {A : Type ℓ} {B : Type κ} (P : Rows → Type μ) (rows : Rows) (check : Result DomainError A)
    (rest : A → Outcome B)
    → P rows
    → ((a : A) → check ≡ ok a → P (rest a).1)
    → P (after_check rows check rest).1
after_check-rows P rows (err raised) rest p f = p
after_check-rows P rows (ok a) rest p f = f a refl

pub valid_of :
    (rows : Rows) {d : Domain}
    → rows.domain ≡ some d
    → IsValid rows
    → RowsValid (some d) rows.operations
valid_of rows e v = subst (λ x. RowsValid x rows.operations) e v

open_leased-IsValid :
    (settings : LifecycleSettings) (call : Call) (type : OperationType) (message : Message)
    (d : Domain) (rows : Rows)
    → is_deleting d.state
      ≡ is_delete (new_operation type OperationStatus.running message call.operation_id 0 0)
    → rows.domain ≡ some d
    → IsValid rows
    → IsValid (open_leased settings call type message d rows).1
open_leased-IsValid settings call type message d rows t e v =
    opened-IsValid d (advance call.began d) _ _ rows.operations rows refl (λ x. x) refl refl t
      (valid_of rows e v) v

pub begin_start-IsValid :
    (settings : LifecycleSettings) (call : Call) (preflight : Preflight) (rows : Rows)
    → IsValid rows
    → IsValid (begin_start settings call preflight rows).1
unfolding begin_start
begin_start-IsValid settings call preflight rows v =
    after_check-rows IsValid rows (may_start call preflight rows)
      (λ d. open_leased settings call OperationType.start Message.starting_domain d rows) v
      (λ d h.
        let (e, s) = may_start-ok call preflight rows h in
        open_leased-IsValid settings call OperationType.start Message.starting_domain d rows
          (ground (arith, s)) e v)

pub begin_stop-IsValid :
    (settings : LifecycleSettings) (call : Call) (rows : Rows)
    → IsValid rows
    → IsValid (begin_stop settings call rows).1
unfolding begin_stop
begin_stop-IsValid settings call rows v =
    after_check-rows IsValid rows (may_stop call rows)
      (λ d. open_leased settings call OperationType.stop Message.stopping_domain d rows) v
      (λ d h.
        let (e, s) = may_stop-ok call rows h in
        open_leased-IsValid settings call OperationType.stop Message.stopping_domain d rows
          (ground (arith, s)) e v)

pub may_create-ok :
    (call : Call) (preflight : Preflight) (rows : Rows)
    → may_create call preflight rows ≡ ok tt
    → rows.domain ≡ none
unfolding may_create
may_create-ok call preflight rows h = ground (arith, h)

-- The first operation of a domain.
first-RowsValid :
    (d : Domain) (new : Operation) (os os' : List Operation)
    → os ≡ []
    → insert_operation new os ≡ some os'
    → new.control_generation_at_start ≡ d.control_generation
    → is_deleting d.state ≡ false
    → is_delete new ≡ false
    → RowsValid (some d) os'
first-RowsValid d new os os' n e g x t =
    let (f, w, i) = insert-some new os e in
    let own : Sound d new = record {
      bounded = omega (arith, g);
      current = λ b. g;
      fenced = λ y z. cc;
      doomed = λ y. cc;
    } in
    rw (w, n) ((own, tt), (refl, tt), active_count-append new [] refl)

created-IsValid :
    (d : Domain) (new : Operation) (refused : DomainError) (rows : Rows)
    → rows.domain ≡ none
    → new.control_generation_at_start ≡ d.control_generation
    → is_deleting d.state ≡ false
    → is_delete new ≡ false
    → IsValid rows
    → IsValid (open_operation new refused d rows.operations rows).1
created-IsValid d new refused rows n g x t v =
    elim (Option-cases (insert_operation new rows.operations)) [
      | inl e ↦ rw (e, open_operation) v
      | inr (os', e) ↦
          let empty : rows.operations ≡ [] = subst (λ o. RowsValid o rows.operations) n v in
          rw (e, open_operation) (first-RowsValid d new rows.operations os' empty e g x t)
    ]

pub begin_create-IsValid :
    (embedding extraction instance_id : ℕ) (call : Call) (preflight : Preflight) (rows : Rows)
    → IsValid rows
    → IsValid (begin_create embedding extraction instance_id call preflight rows).1
unfolding begin_create
begin_create-IsValid embedding extraction instance_id call preflight rows v =
    after_check-rows IsValid rows (may_create call preflight rows) _ v (λ done h.
      created-IsValid (new_domain embedding extraction instance_id call.began)
        (new_operation OperationType.create OperationStatus.running Message.creating_domain
          call.operation_id 1 call.began)
        DomainError.operation_conflict rows (may_create-ok call preflight rows h) refl refl refl v)

cancelled-Quiet :
    (message : Message) (active : Operation) (now : ℕ) (o : Operation)
    → Quiet (cancelled_row message active now) o
cancelled-Quiet message active now o = record {
  same_id = refl;
  same_generation = refl;
  same_type = refl;
  not_revived = λ a. cc;
}

cancelled-RowsValid :
    (now : ℕ) (message : Message) (os : List Operation) (domain : Option Domain)
    {os' : List Operation}
    → cancel_active_lifecycle_operation now message os ≡ ok os'
    → RowsValid domain os
    → RowsValid domain os'
unfolding cancel_active_lifecycle_operation
cancelled-RowsValid now message os domain {os'} h v = elim (Option-cases (active_operation os)) [
  | inl e ↦ subst (RowsValid domain) (ground (arith, e, h)) v
  | inr (active, e) ↦ elim (Bool-cases (is_type OperationType.delete active)) [
    | inl x ↦ ground (arith, e, x, h)
    | inr x ↦ subst (RowsValid domain) (ground (arith, e, x, h)) (
        update_row-RowsValid domain active.id (cancelled_row message active now) os
          (All-each (λ o g. cancelled-Quiet message active now o) os) v)
  ]
]

pub may_delete-ok :
    (call : Call) (version : ℕ) (rows : Rows) {d : Domain} {os : List Operation}
    → may_delete call version rows ≡ ok (d, os)
    → (rows.domain ≡ some d)
      × (cancel_active_lifecycle_operation call.began Message.superseded_by_delete rows.operations
          ≡ ok os)
unfolding may_delete
may_delete-ok call version rows h = ground (arith, h)

pub enqueue_delete_domain-IsValid :
    (call : Call) (version : ℕ) (rows : Rows)
    → IsValid rows
    → IsValid (enqueue_delete_domain call version rows).1
unfolding enqueue_delete_domain
enqueue_delete_domain-IsValid call version rows v =
    after_check-rows IsValid rows (may_delete call version rows) _ v (λ (d, os) h.
      let (e, c) = may_delete-ok call version rows h in
      opened-IsValid d (record (advance call.began d) { state = DomainState.deleting })
        (new_operation OperationType.delete OperationStatus.queued Message.delete_queued
          call.operation_id (d.control_generation + 1) call.written)
        DomainError.domain_operation_in_progress os rows refl (λ x. refl) refl refl refl
        (cancelled-RowsValid call.began Message.superseded_by_delete rows.operations (some d) c
          (valid_of rows e v))
        v)

pub may_assign-ok :
    (call : Call) (version : ℕ) (error : Option ℕ) (rows : Rows) {d : Domain}
    → may_assign call version error rows ≡ ok d
    → (rows.domain ≡ some d) × (is_stopped d.state ≡ true)
unfolding may_assign
may_assign-ok call version error rows {d} h = ground (arith, h)

assigned-Sound :
    (d d' : Domain) (os : List Operation)
    → d'.control_generation ≡ d.control_generation
    → d'.state ≡ d.state
    → All (Sound d) os
    → All (Sound d') os
assigned-Sound d d' [] g t s = tt
assigned-Sound d d' (o ∷ os) g t s = (
  record {
    bounded = omega (arith, g, Sound.bounded s.0);
    current = λ a. Sound.current s.0 a ∙ sym g;
    fenced = λ y n. omega (arith, g, Sound.fenced s.0 (rw t at y) n);
    doomed = λ y. rw t (Sound.doomed s.0 y);
  },
  assigned-Sound d d' os g t s.1,
)

pub assign_graph_extraction_profile-IsValid :
    (call : Call) (profile version : ℕ) (error : Option ℕ) (rows : Rows)
    → IsValid rows
    → IsValid (assign_graph_extraction_profile call profile version error rows).1
unfolding assign_graph_extraction_profile
assign_graph_extraction_profile-IsValid call profile version error rows v =
    after_check-rows IsValid rows (may_assign call version error rows) _ v (λ d h.
      let (e, t) = may_assign-ok call version error rows h in
      let (s, u, k) = valid_of rows e v in (assigned-Sound d _ rows.operations refl refl s, u, k))
