-- ===== src/Lifecycle/Removing.antt =====
-- The transactions of the worker and of reconciliation keep the rows valid.
use ce_local_studio.Base.{
  ℕ, ◌≡◌, refl, sym, ap, ◌∙◌, Bool, true, false, Option, none, some, List, [], ◌∷◌, arith, ◌==◌,
  All, inl, inr, ◌⊎◌, Bool-cases, Option-cases, eqb→eq, eqb_refl,
}
use ce_local_studio.Lifecycle.Types.{
  OperationError, Message, Operation, Domain, Rows, LifecycleSettings, RuntimeControllerResult,
  is_active,
}
use ce_local_studio.Lifecycle.Rows.{
  has_row, update_row, operation_lease_current, fail_operation, mark_operation_uncertain,
}
use ce_local_studio.Lifecycle.DeleteWorker.{
  older_of, is_claimable, oldest_claimable, claimed, claim_next_operation, fail_if_owned,
  uncertain_if_there, find_row,
}
use ce_local_studio.Lifecycle.Valid.{Distinct, RowsValid, IsValid}
use ce_local_studio.Lifecycle.Quiet.{QuietAt, update_row-RowsValid}
use ce_local_studio.Lifecycle.Endings.{giving-rows}

abbrev pub Found : Operation → List Operation → Type 0
Found op [] = ⊥
Found op (o ∷ os) = (o ≡ op) ⊎ Found op os

older_of-either :
    (o : Operation) (rest : Option Operation)
    → (older_of o rest ≡ o) ⊎ (rest ≡ some (older_of o rest))
older_of-either o none = inl refl
older_of-either o (some p) = ground arith

pub oldest_claimable-Found :
    (now : ℕ) (os : List Operation) (op : Operation)
    → oldest_claimable now os ≡ some op
    → Found op os × (is_claimable now op ≡ true)
unfolding oldest_claimable
oldest_claimable-Found now [] op h = cc
oldest_claimable-Found now (o ∷ os) op h = elim (Bool-cases (is_claimable now o)) [
  | inr c ↦ let (f, k) = oldest_claimable-Found now os op (rw c at h) in (inr f, k)
  | inl c ↦
      let e : older_of o (oldest_claimable now os) ≡ op = ground (arith, c, h) in
      elim (older_of-either o (oldest_claimable now os)) [
        | inl f ↦ let g = sym f ∙ e in (inl g, rw (← g) c)
        | inr f ↦ let (k, l) = oldest_claimable-Found now os op (f ∙ ap some e) in (inr k, l)
      ]
]

pub Found-has_row : (op : Operation) (os : List Operation) → Found op os → has_row op.id os ≡ true
Found-has_row op [] f = absurd f
Found-has_row op (o ∷ os) (inl e) = rw (e, eqb_refl op.id)
Found-has_row op (o ∷ os) (inr f) = ground (arith, Found-has_row op os f)

none_of :
    (id : ℕ) (P : Operation → Type 0) (os : List Operation)
    → has_row id os ≡ false
    → All (λ o. (o.id == id) ≡ true → P o) os
none_of id P [] h = tt
none_of id P (o ∷ os) h = elim (Bool-cases (o.id == id)) [
  | inl e ↦ absurd (ground (arith, e, h))
  | inr e ↦ (λ f. cc, none_of id P os (rw e at h))
]

-- The row of an active operation is the only one of its id.
all_active :
    (op : Operation) (os : List Operation)
    → Found op os
    → Distinct os
    → is_active op.status ≡ true
    → All (λ o. (o.id == op.id) ≡ true → is_active o.status ≡ true) os
all_active op [] f d a = tt
all_active op (o ∷ os) (inl e) d a = (
  λ g. rw e a,
  none_of op.id (λ x. is_active x.status ≡ true) os
      (ap (λ (x : Operation). has_row x.id os) (sym e) ∙ d.0),
)
all_active op (o ∷ os) (inr f) d a = (
  λ g.
      let e = eqb→eq o.id op.id g in
      let h = Found-has_row op os f in let k = ap (λ x. has_row x os) (sym e) ∙ d.0 in cc,
  all_active op os f d.1 a,
)

pub claimable-active :
    (now : ℕ) (o : Operation) → is_claimable now o ≡ true → is_active o.status ≡ true
unfolding is_claimable
claimable-active now o h = ground (arith, h)

quiet_where_active :
    (says : ℕ → Bool) (settings : LifecycleSettings) (now id : ℕ) (os : List Operation)
    → All (λ o. (o.id == id) ≡ true → is_active o.status ≡ true) os
    → QuietAt id (claimed says settings now) os
unfolding claimed
quiet_where_active says settings now id [] a = tt
quiet_where_active says settings now id (o ∷ os) a = (
  λ e. record {
    same_id = refl;
    same_generation = refl;
    same_type = refl;
    not_revived = λ b. a.0 e;
  },
  quiet_where_active says settings now id os a.1,
)

claimed-RowsValid :
    (says : ℕ → Bool) (settings : LifecycleSettings) (now : ℕ) (domain : Option Domain)
    (os : List Operation) (op : Operation)
    → oldest_claimable now os ≡ some op
    → RowsValid domain os
    → RowsValid domain (update_row op.id (claimed says settings now) os)
claimed-RowsValid says settings now none os op e v = rw v
claimed-RowsValid says settings now (some d) os op e v =
    let (f, c) = oldest_claimable-Found now os op e in
    update_row-RowsValid (some d) op.id (claimed says settings now) os
      (quiet_where_active says settings now op.id os
        (all_active op os f v.1 (claimable-active now op c)))
      v

pub claim_next_operation-IsValid :
    (says : ℕ → Bool) (settings : LifecycleSettings) (now : ℕ) (rows : Rows)
    → IsValid rows
    → IsValid (claim_next_operation says settings now rows).1
unfolding claim_next_operation
claim_next_operation-IsValid says settings now rows v =
    elim (Option-cases (oldest_claimable now rows.operations)) [
      | inl e ↦ rw (e, claim_next_operation) v
      | inr (op, e) ↦
          rw (e, claim_next_operation)
            (claimed-RowsValid says settings now rows.domain rows.operations op e v)
    ]

-- A run that fails its operation, where the lease is held, or leaves the rows.
pub fail_if_owned-rows {κ} :
    (P : Rows → Type κ) (settings : LifecycleSettings) (now : ℕ) (code : OperationError)
    (message : Message) (copy : Operation) (rows : Rows)
    → P rows
    → ((fresh : Operation) → P (fail_operation now code message fresh rows).1)
    → P (fail_if_owned settings now code message copy rows).1
unfolding fail_if_owned
fail_if_owned-rows P settings now code message copy rows p f =
    elim (Option-cases (find_row copy.id rows.operations)) [
      | inl e ↦ rw (e, fail_if_owned) p
      | inr (fresh, e) ↦
          elim (Bool-cases (operation_lease_current settings.delete_worker_id now fresh)) [
            | inl l ↦
                rw
                  (
                    e,
                    fail_if_owned,
                    l,
                    giving-rows true (fail_operation now code message fresh rows),
                  )
                  (f fresh)
            | inr l ↦ rw (e, fail_if_owned, l) p
          ]
    ]

pub uncertain_if_there-rows {κ} :
    (P : Rows → Type κ) (now : ℕ) (result : RuntimeControllerResult) (copy : Operation)
    (rows : Rows)
    → P rows
    → ((fresh : Operation) → P (mark_operation_uncertain now result fresh rows).1)
    → P (uncertain_if_there now result copy rows).1
unfolding uncertain_if_there
uncertain_if_there-rows P now result copy rows p f =
    elim (Option-cases (find_row copy.id rows.operations)) [
      | inl e ↦ rw (e, uncertain_if_there) p
      | inr (fresh, e) ↦
          rw
            (
              e,
              uncertain_if_there,
              giving-rows true (mark_operation_uncertain now result fresh rows),
            )
            (f fresh)
    ]
