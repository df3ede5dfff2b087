-- ===== src/Idempotency/Lookup.antt =====
-- The record of a key in the table, under the writes of the services.
use ce_local_studio.Base.{
  ℕ, ◌≡◌, refl, true, false, Option, none, some, List, [], ◌∷◌, ◌++◌, ok, arith, inl, inr,
  Bool-cases,
}
use ce_local_studio.Turn.Types.{Text}
use ce_local_studio.Turn.Stream.{is_empty}
use ce_local_studio.Idempotency.{
  HttpIdempotencyRecord, is_pending, is_for, lookup, write_row, delete_row, completed_record,
  complete_idempotent,
}

abbrev pub Table : Type 0
Table = List HttpIdempotencyRecord

abbrev pub own_lookup : HttpIdempotencyRecord → Table → Option HttpIdempotencyRecord
own_lookup row t = lookup row.principal_user_id row.route_class row.key_hash t

pub lookup-append_new :
    (p r k : ℕ) (t : Table) (c : HttpIdempotencyRecord)
    → lookup p r k t ≡ none
    → is_for p r k c ≡ true
    → lookup p r k (t ++ c ∷ []) ≡ some c
lookup-append_new p r k [] c n e = ground (arith, e)
lookup-append_new p r k (x ∷ t) c n e = ground (arith, lookup-append_new p r k t c)

pub lookup-append_some :
    (p r k : ℕ) (t : Table) (c : HttpIdempotencyRecord) {row : HttpIdempotencyRecord}
    → lookup p r k t ≡ some row
    → lookup p r k (t ++ c ∷ []) ≡ some row
lookup-append_some p r k [] c h = cc
lookup-append_some p r k (x ∷ t) c {row} h =
    ground (arith, lookup-append_some p r k t c {row = row})

pub lookup-write_own :
    (row w : HttpIdempotencyRecord) (p r k : ℕ) (t : Table)
    → lookup p r k t ≡ some row
    → (w.principal_user_id ≡ p) × (w.route_class ≡ r) × (w.key_hash ≡ k)
    → lookup p r k (write_row w t) ≡ some w
lookup-write_own row w p r k [] h e = cc
lookup-write_own row w p r k (x ∷ t) h e = ground (arith, lookup-write_own row w p r k t)

pub lookup-write_apart :
    (w : HttpIdempotencyRecord) (p r k : ℕ) (t : Table)
    → is_for p r k w ≡ false
    → lookup p r k (write_row w t) ≡ lookup p r k t
lookup-write_apart w p r k [] a = refl
lookup-write_apart w p r k (x ∷ t) a = ground (arith, lookup-write_apart w p r k t)

pub lookup-delete_apart :
    (w : HttpIdempotencyRecord) (p r k : ℕ) (t : Table)
    → is_for p r k w ≡ false
    → lookup p r k (delete_row w t) ≡ lookup p r k t
lookup-delete_apart w p r k [] a = refl
lookup-delete_apart w p r k (x ∷ t) a = ground (arith, lookup-delete_apart w p r k t)

pub lookup-is_for :
    (p r k : ℕ) (t : Table) {row : HttpIdempotencyRecord}
    → lookup p r k t ≡ some row
    → is_for p r k row ≡ true
lookup-is_for p r k [] h = cc
lookup-is_for p r k (x ∷ t) {row} h = ground (arith, lookup-is_for p r k t {row = row})

pub key_of :
    (p r k : ℕ) (row : HttpIdempotencyRecord)
    → is_for p r k row ≡ true
    → (row.principal_user_id ≡ p) × (row.route_class ≡ r) × (row.key_hash ≡ k)
key_of p r k row h = ground arith

pub complete-ok :
    (row : HttpIdempotencyRecord) (status : ℕ) (kind json : Text) (now : ℕ) (t u : Table)
    → complete_idempotent row status kind json now t ≡ ok u
    → (is_pending row.state ≡ true) × (u ≡ write_row (completed_record status kind json now row) t)
unfolding complete_idempotent
complete-ok row status kind json now t u h = elim (Bool-cases (is_pending row.state)) [
  | inr n ↦ cc
  | inl y ↦ elim (Bool-cases (is_empty kind)) [ inl e ↦ cc | inr e ↦ (y, cc (rw (y, e) at h)) ]
]
