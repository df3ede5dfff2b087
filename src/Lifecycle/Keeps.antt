-- ===== src/Lifecycle/Keeps.antt =====
-- The writes to the operations leave the domain's row alone.
use ce_local_studio.Base.{
  ℕ, ◌≡◌, refl, Bool, Option, none, some, inl, inr, Bool-cases, Option-cases,
}
use ce_local_studio.Lifecycle.Types.{
  OperationError, Message, Operation, Rows, LifecycleSettings, RuntimeControllerResult,
}
use ce_local_studio.Lifecycle.Rows.{
  write, has_row, finish_operation, cancel_operation, fail_operation, mark_operation_uncertain,
}
use ce_local_studio.Lifecycle.Reconcile.{renew}
use ce_local_studio.Lifecycle.DeleteWorker.{
  claim_next_operation, commit_renewed, heartbeat, oldest_claimable, renewed_row,
}
use ce_local_studio.Lifecycle.Endings.{giving-rows}

-- A transaction that leaves the domain's row alone.
abbrev pub Keeps : Rows → Rows → Type 0
Keeps rows after = after.domain ≡ rows.domain

pub write-Keeps :
    (copy : Operation) (change : Operation → Operation) (rows : Rows)
    → Keeps rows (write copy change rows).1
unfolding write
write-Keeps copy change rows = elim (Bool-cases (has_row copy.id rows.operations)) [
  | inl e ↦ rw e
  | inr e ↦ rw e
]

pub cancel_operation-Keeps :
    (now : ℕ) (message : Message) (copy : Operation) (rows : Rows)
    → Keeps rows (cancel_operation now message copy rows).1
unfolding cancel_operation
cancel_operation-Keeps now message copy rows = write-Keeps copy _ rows

pub fail_operation-Keeps :
    (now : ℕ) (code : OperationError) (message : Message) (copy : Operation) (rows : Rows)
    → Keeps rows (fail_operation now code message copy rows).1
unfolding fail_operation
fail_operation-Keeps now code message copy rows = write-Keeps copy _ rows

pub mark_operation_uncertain-Keeps :
    (now : ℕ) (result : RuntimeControllerResult) (copy : Operation) (rows : Rows)
    → Keeps rows (mark_operation_uncertain now result copy rows).1
unfolding mark_operation_uncertain
mark_operation_uncertain-Keeps now result copy rows = write-Keeps copy _ rows

pub finish_operation-Keeps :
    (now : ℕ) (message : Message) (copy : Operation) (rows : Rows)
    → Keeps rows (finish_operation now message copy rows).1
unfolding finish_operation
finish_operation-Keeps now message copy rows = write-Keeps copy _ rows

pub renew-Keeps :
    (settings : LifecycleSettings) (now : ℕ) (copy : Operation) (rows : Rows)
    → Keeps rows (renew settings now copy rows).1
unfolding renew
renew-Keeps settings now copy rows = write-Keeps copy _ rows

commit_renewed-Keeps :
    (now : ℕ) (copy : Operation) (rows : Rows) (renewed : Option Operation)
    → Keeps rows (commit_renewed now copy rows renewed).1
unfolding commit_renewed
commit_renewed-Keeps now copy rows none = refl
commit_renewed-Keeps now copy rows (some renewed) =
    rw (giving-rows (some renewed) (write copy (renewed_row now renewed.lease_expires_at) rows))
      (write-Keeps copy (renewed_row now renewed.lease_expires_at) rows)

pub heartbeat-Keeps :
    (settings : LifecycleSettings) (now : ℕ) (copy : Operation) (rows : Rows)
    → Keeps rows (heartbeat settings now copy rows).1
unfolding heartbeat
heartbeat-Keeps settings now copy rows = commit_renewed-Keeps now copy rows _

pub claim_next_operation-Keeps :
    (says : ℕ → Bool) (settings : LifecycleSettings) (now : ℕ) (rows : Rows)
    → Keeps rows (claim_next_operation says settings now rows).1
unfolding claim_next_operation
claim_next_operation-Keeps says settings now rows =
    elim (Option-cases (oldest_claimable now rows.operations)) [
      | inl e ↦ rw (e, claim_next_operation)
      | inr (op, e) ↦ rw (e, claim_next_operation)
    ]
