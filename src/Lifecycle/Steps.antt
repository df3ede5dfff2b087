-- ===== src/Lifecycle/Steps.antt =====
-- The transactions on the rows of a domain id, in any order. `says` is the search for a word in a
-- text that the controller gave. A session may hold any copy that is of the generation and the type
-- of the row with its id.
use ce_local_studio.Base.{ℕ, ◌≡◌, Bool, true, false, Option}
use ce_local_studio.Lifecycle.Types.{
  OperationError, Message, Operation, Domain, Rows, LifecycleSettings, RuntimeControllerResult,
  RuntimeHealth, already_removed,
}
use ce_local_studio.Lifecycle.Rows.{finish_operation}
use ce_local_studio.Lifecycle.Requests.{Call, Preflight}
use ce_local_studio.Lifecycle.Create.{begin_create, end_create}
use ce_local_studio.Lifecycle.Control.{begin_start, end_start, begin_stop, end_stop}
use ce_local_studio.Lifecycle.Removal.{enqueue_delete_domain, assign_graph_extraction_profile}
use ce_local_studio.Lifecycle.Reconcile.{reconcile_operation}
use ce_local_studio.Lifecycle.DeleteWorker.{
  Removal, claim_next_operation, heartbeat, fail_if_owned, uncertain_if_there, remove,
}
use ce_local_studio.Lifecycle.Valid.{is_delete, CopyOf}

pub data Step (says : ℕ → Bool) (settings : LifecycleSettings) (rows : Rows) : Rows → Type 0 where
  creating :
      (embedding extraction instance_id : ℕ) (call : Call) (preflight : Preflight)
      → Step says settings rows
          (begin_create embedding extraction instance_id call preflight rows).1
  created :
      (call : Call) (result : RuntimeControllerResult) (domain : Domain) (copy : Operation)
      → Step says settings rows (end_create call result (domain, copy) rows).1
  starting :
      (call : Call) (preflight : Preflight)
      → Step says settings rows (begin_start settings call preflight rows).1
  started :
      (call : Call) (result : RuntimeControllerResult) (domain : Domain) (copy : Operation)
      → is_delete copy ≡ false
      → CopyOf rows copy
      → Step says settings rows (end_start settings call result (domain, copy) rows).1
  stopping : (call : Call) → Step says settings rows (begin_stop settings call rows).1
  stopped :
      (call : Call) (result : RuntimeControllerResult) (domain : Domain) (copy : Operation)
      → is_delete copy ≡ false
      → CopyOf rows copy
      → Step says settings rows (end_stop settings call result (domain, copy) rows).1
  deleting :
      (call : Call) (version : ℕ)
      → Step says settings rows (enqueue_delete_domain call version rows).1
  assigning :
      (call : Call) (profile version : ℕ) (error : Option ℕ)
      → Step says settings rows (assign_graph_extraction_profile call profile version error rows).1
  reconciling :
      (now written : ℕ) (health : RuntimeHealth) (copy : Operation)
      → CopyOf rows copy
      → Step says settings rows (reconcile_operation settings now written health copy rows).1
  claiming : (now : ℕ) → Step says settings rows (claim_next_operation says settings now rows).1
  beating :
      (now : ℕ) (copy : Operation) → Step says settings rows (heartbeat settings now copy rows).1
  failing :
      (now : ℕ) (code : OperationError) (message : Message) (copy : Operation)
      → Step says settings rows (fail_if_owned settings now code message copy rows).1
  doubting :
      (now : ℕ) (result : RuntimeControllerResult) (copy : Operation)
      → Step says settings rows (uncertain_if_there now result copy rows).1
  removing :
      (r : Removal) (domain : Domain) (copy : Operation)
      → is_delete copy ≡ true
      → CopyOf rows copy
      → Step says settings rows (remove settings r domain copy rows).1
  finishing :
      (now : ℕ) (copy : Operation)
      → Step says settings rows (finish_operation now already_removed copy rows).1

-- Any number of transactions, one after the other.
pub data Transactions (says : ℕ → Bool) (settings : LifecycleSettings) (rows : Rows)
    : Rows → Type 0 where
  here : Transactions says settings rows rows
  next :
      {mid after : Rows}
      → Transactions says settings rows mid
      → Step says settings mid after
      → Transactions says settings rows after
