-- ===== src/Lifecycle/Endings.antt =====
-- The writes that end an operation, mark it uncertain or renew its lease keep the rows valid.
use ce_local_studio.Base.{ℕ, ◌≡◌, refl, false, Option, none, some, ok, err}
use ce_local_studio.Lifecycle.Types.{
  OperationStatus, Message, OperationError, Operation, Rows, RuntimeControllerResult,
  ControllerOutcome, LifecycleSettings, is_active,
}
use ce_local_studio.Lifecycle.Rows.{
  Outcome, giving, ended, write, finish_operation, cancel_operation, fail_operation,
  mark_operation_uncertain, raise_for_controller_result, raising, assign_operation_lease,
}
use ce_local_studio.Lifecycle.Requests.{and_then}
use ce_local_studio.Lifecycle.Reconcile.{renew}
use ce_local_studio.Lifecycle.DeleteWorker.{heartbeat, commit_renewed, renewed_row}
use ce_local_studio.Lifecycle.Valid.{IsValid, CopyOf}
use ce_local_studio.Lifecycle.Quiet.{Quiet, All-each, write-IsValid, write-CopyOf}

ended-Quiet :
    (status : OperationStatus) (message : Message) (code : Option OperationError) (copy : Operation)
    (now : ℕ) (o : Operation)
    → is_active status ≡ false
    → Quiet (ended status message code copy now) o
ended-Quiet status message code copy now o h = record {
  same_id = refl;
  same_generation = refl;
  same_type = refl;
  not_revived = λ a. cc;
}

-- An ending that is written keeps the rows valid.
pub ended-IsValid :
    (status : OperationStatus) (message : Message) (code : Option OperationError) (copy : Operation)
    (now : ℕ) (rows : Rows)
    → is_active status ≡ false
    → IsValid rows
    → IsValid (write copy (ended status message code copy now) rows).1
ended-IsValid status message code copy now rows h v =
    write-IsValid copy _ rows
      (All-each (λ o e. ended-Quiet status message code copy now o h) rows.operations) v

-- A write that leaves the id, the generation, the type and the status keeps the rows valid.
pub kept-IsValid :
    (copy : Operation) (change : Operation → Operation) (rows : Rows)
    → ((o : Operation)
        → ((change o).id ≡ o.id)
          × ((change o).control_generation_at_start ≡ o.control_generation_at_start)
          × ((change o).operation_type ≡ o.operation_type)
          × ((change o).status ≡ o.status))
    → IsValid rows
    → IsValid (write copy change rows).1
kept-IsValid copy change rows k v =
    write-IsValid copy change rows (All-each (λ o e. kept o) rows.operations) v
  where
    kept : (o : Operation) → Quiet change o
    kept o = record {
      same_id = (k o).0;
      same_generation = (k o).1;
      same_type = rw (k o).2;
      not_revived = λ a. rw (← (k o).3) a;
    }

pub finish_operation-IsValid :
    (now : ℕ) (message : Message) (copy : Operation) (rows : Rows)
    → IsValid rows
    → IsValid (finish_operation now message copy rows).1
unfolding finish_operation
finish_operation-IsValid now message copy rows v = ended-IsValid _ _ _ copy now rows refl v

pub cancel_operation-IsValid :
    (now : ℕ) (message : Message) (copy : Operation) (rows : Rows)
    → IsValid rows
    → IsValid (cancel_operation now message copy rows).1
unfolding cancel_operation
cancel_operation-IsValid now message copy rows v = ended-IsValid _ _ _ copy now rows refl v

pub fail_operation-IsValid :
    (now : ℕ) (code : OperationError) (message : Message) (copy : Operation) (rows : Rows)
    → IsValid rows
    → IsValid (fail_operation now code message copy rows).1
unfolding fail_operation
fail_operation-IsValid now code message copy rows v = ended-IsValid _ _ _ copy now rows refl v

pub mark_operation_uncertain-IsValid :
    (now : ℕ) (result : RuntimeControllerResult) (copy : Operation) (rows : Rows)
    → IsValid rows
    → IsValid (mark_operation_uncertain now result copy rows).1
unfolding mark_operation_uncertain
mark_operation_uncertain-IsValid now result copy rows v =
    kept-IsValid copy _ rows (λ o. (refl, refl, refl, refl)) v

pub renew-IsValid :
    (settings : LifecycleSettings) (now : ℕ) (copy : Operation) (rows : Rows)
    → IsValid rows
    → IsValid (renew settings now copy rows).1
unfolding renew
renew-IsValid settings now copy rows v = kept-IsValid copy _ rows (λ o. (refl, refl, refl, refl)) v

-- The rows after two calls are those after the second, where the first returns.
pub and_then-rows {ℓ κ μ} :
    {A : Type ℓ} {B : Type κ} (P : Rows → Type μ) (first : Outcome A) (rest : A → Rows → Outcome B)
    → P first.1
    → ((a : A) → P (rest a first.1).1)
    → P (and_then first rest).1
and_then-rows P (err raised, rows) rest p f = p
and_then-rows P (ok a, rows) rest p f = f a

pub giving-rows {ℓ} : {A : Type ℓ} (value : A) (o : Outcome (Unit {0})) → (giving value o).1 ≡ o.1
giving-rows value (ok _, rows) = refl
giving-rows value (err raised, rows) = refl

commit_renewed-IsValid :
    (now : ℕ) (copy : Operation) (rows : Rows) (renewed : Option Operation)
    → IsValid rows
    → IsValid (commit_renewed now copy rows renewed).1
unfolding commit_renewed
commit_renewed-IsValid now copy rows none v = v
commit_renewed-IsValid now copy rows (some renewed) v =
    rw (giving-rows (some renewed) (write copy (renewed_row now renewed.lease_expires_at) rows)) (
      kept-IsValid copy (renewed_row now renewed.lease_expires_at) rows
        (λ o. (refl, refl, refl, refl)) v)

pub heartbeat-IsValid :
    (settings : LifecycleSettings) (now : ℕ) (copy : Operation) (rows : Rows)
    → IsValid rows
    → IsValid (heartbeat settings now copy rows).1
unfolding heartbeat
heartbeat-IsValid settings now copy rows v = commit_renewed-IsValid now copy rows _ v

raising-rows : (o : Outcome (Unit {0})) → (raising o).1 ≡ o.1
raising-rows (ok _, rows) = refl
raising-rows (err raised, rows) = refl

pub raise_for_controller_result-IsValid :
    (now : ℕ) (result : RuntimeControllerResult) (copy : Operation) (rows : Rows)
    → IsValid rows
    → IsValid (raise_for_controller_result now result copy rows).1
unfolding raise_for_controller_result
raise_for_controller_result-IsValid now result copy rows v = go result.outcome
  where
    go :
        (o : ControllerOutcome)
        → IsValid (raise_for_controller_result now (record result { outcome = o }) copy rows).1
    go ControllerOutcome.succeeded = v
    go ControllerOutcome.failed = rw (raising-rows _) (fail_operation-IsValid now _ _ copy rows v)
    go ControllerOutcome.uncertain =
        rw (raising-rows (mark_operation_uncertain now result copy rows))
          (mark_operation_uncertain-IsValid now result copy rows v)

-- A renewed lease leaves the copies that sessions hold as they were.
pub renew-CopyOf :
    (settings : LifecycleSettings) (now : ℕ) (copy other : Operation) (rows : Rows)
    → CopyOf rows other
    → CopyOf (renew settings now copy rows).1 other
unfolding renew
renew-CopyOf settings now copy other rows c =
    write-CopyOf other copy
      (assign_operation_lease settings.lifecycle_worker_id settings.lifecycle_lease_seconds now)
      rows
      (All-each
        (λ o e. record {
          same_id = refl;
          same_generation = refl;
          same_type = refl;
          not_revived = λ a. a;
        })
        rows.operations)
      c

and_then-raising {ℓ} :
    {B : Type ℓ} (o : Outcome (Unit {0})) (rest : Unit {0} → Rows → Outcome B)
    → (and_then (raising o) rest).1 ≡ o.1
and_then-raising (ok _, rows) rest = refl
and_then-raising (err raised, rows) rest = refl

-- What follows a call of the controller runs on the same rows, and only where the call succeeded.
pub after_controller {κ} :
    (P : Rows → Type κ) (now : ℕ) (result : RuntimeControllerResult) (copy : Operation)
    (rest : Rows → Outcome (Unit {0})) (rows : Rows)
    → ((code : OperationError) (message : Message)
        → P (fail_operation now code message copy rows).1)
    → P (mark_operation_uncertain now result copy rows).1
    → P (rest rows).1
    → P (and_then (raise_for_controller_result now result copy rows) (λ done. rest)).1
unfolding raise_for_controller_result
after_controller P now result copy rest rows f u p = go result.outcome
  where
    go :
        (o : ControllerOutcome)
        → P
            (and_then
              (raise_for_controller_result now (record result { outcome = o }) copy rows)
              (λ done. rest)).1
    go ControllerOutcome.succeeded = p
    go ControllerOutcome.failed = rw (and_then-raising _ (λ done. rest)) (f _ _)
    go ControllerOutcome.uncertain =
        rw (and_then-raising (mark_operation_uncertain now result copy rows) (λ done. rest)) u
