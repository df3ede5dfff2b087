-- ===== src/Lifecycle/Quiet.antt =====
-- Updates of an operation's row that keep its id, generation and type and never make it active.
use ce_local_studio.Base.{
  ℕ, ◌≤◌, ◌≡◌, refl, sym, ap, ◌∙◌, Bool, true, false, Option, none, some, List, [], ◌∷◌, arith,
  ◌==◌, if◌then◌else◌, All, inl, inr, Bool-cases,
}
use ce_local_studio.Lifecycle.Types.{Operation, Domain, Rows, is_active}
use ce_local_studio.Lifecycle.Rows.{has_row, update_row, write}
use ce_local_studio.Lifecycle.Valid.{
  is_delete, Sound, active_count, Distinct, RowsValid, IsValid, Agrees, CopyOf,
}

pub record Quiet (change : Operation → Operation) (o : Operation) : Type 0 where
  pub same_id : (change o).id ≡ o.id
  pub same_generation : (change o).control_generation_at_start ≡ o.control_generation_at_start
  pub same_type : is_delete (change o) ≡ is_delete o
  pub not_revived : is_active (change o).status ≡ true → is_active o.status ≡ true

-- The rows of the id take the change quietly.
abbrev pub QuietAt : ℕ → (Operation → Operation) → List Operation → Type 0
QuietAt id change os = All (λ o. (o.id == id) ≡ true → Quiet change o) os

pub All-each {κ} :
    {Q : Operation → Type κ} → ((o : Operation) → Q o) → (os : List Operation) → All Q os
All-each f [] = tt
All-each f (o ∷ os) = (f o, All-each f os)

Quiet-Sound :
    {d : Domain} (change : Operation → Operation) (o : Operation)
    → Quiet change o
    → Sound d o
    → Sound d (change o)
Quiet-Sound {d} change o q s = record {
  bounded = omega (arith, q.same_generation, s.bounded);
  current = λ a. q.same_generation ∙ s.current (q.not_revived a);
  fenced = λ x n. omega (arith, q.same_generation, s.fenced x (sym q.same_type ∙ n));
  doomed = λ x. s.doomed (sym q.same_type ∙ x);
}

pub update_row-Sound :
    (d : Domain) (id : ℕ) (change : Operation → Operation) (os : List Operation)
    → QuietAt id change os
    → All (Sound d) os
    → All (Sound d) (update_row id change os)
update_row-Sound d id change [] q s = tt
update_row-Sound d id change (o ∷ os) q s =
    (go (o.id == id) q.0, update_row-Sound d id change os q.1 s.1)
  where
    go : (b : Bool) → (b ≡ true → Quiet change o) → Sound d (if b then change o else o)
    go true f = Quiet-Sound change o (f refl) s.0
    go false f = s.0

pub has_row-update_row :
    (k id : ℕ) (change : Operation → Operation) (os : List Operation)
    → QuietAt id change os
    → has_row k (update_row id change os) ≡ has_row k os
has_row-update_row k id change [] q = refl
has_row-update_row k id change (o ∷ os) q = elim (Bool-cases (o.id == id)) [
  | inl e ↦ rw (e, Quiet.same_id (q.0 e), has_row-update_row k id change os q.1)
  | inr e ↦ rw (e, has_row-update_row k id change os q.1)
]

pub update_row-Distinct :
    (id : ℕ) (change : Operation → Operation) (os : List Operation)
    → QuietAt id change os
    → Distinct os
    → Distinct (update_row id change os)
update_row-Distinct id change [] q d = tt
update_row-Distinct id change (o ∷ os) q d =
    (go (o.id == id) q.0, update_row-Distinct id change os q.1 d.1)
  where
    go :
        (b : Bool)
        → (b ≡ true → Quiet change o)
        → has_row (if b then change o else o).id (update_row id change os) ≡ false
    go true f =
        ap (λ k. has_row k (update_row id change os)) (Quiet.same_id (f refl))
        ∙ has_row-update_row o.id id change os q.1
        ∙ d.0
    go false f = has_row-update_row o.id id change os q.1 ∙ d.0

-- One row's share of the count.
active_share :
    (b : Bool) (id : ℕ) (change : Operation → Operation) (o : Operation)
    → (b ≡ true → Quiet change o)
    → (if is_active (if b then change o else o).status then 1 else 0)
      ≤ (if is_active o.status then 1 else 0)
active_share true id change o f = elim (Bool-cases (is_active (change o).status)) [
  | inl a ↦ rw (a, Quiet.not_revived (f refl) a) (omega arith)
  | inr a ↦ rw a (omega arith)
]
active_share false id change o f = omega arith

pub active_count-update_row :
    (id : ℕ) (change : Operation → Operation) (os : List Operation)
    → QuietAt id change os
    → active_count (update_row id change os) ≤ active_count os
active_count-update_row id change [] q = omega arith
active_count-update_row id change (o ∷ os) q =
    omega
      (arith, active_share (o.id == id) id change o q.0, active_count-update_row id change os q.1)

-- A quiet update keeps the rows valid.
pub update_row-RowsValid :
    (domain : Option Domain) (id : ℕ) (change : Operation → Operation) (os : List Operation)
    → QuietAt id change os
    → RowsValid domain os
    → RowsValid domain (update_row id change os)
update_row-RowsValid none id change os q v = rw v
update_row-RowsValid (some d) id change os q (s, u, c) = (
  update_row-Sound d id change os q s,
  update_row-Distinct id change os q u,
  omega (arith, active_count-update_row id change os q, c),
)

pub write-IsValid :
    (copy : Operation) (change : Operation → Operation) (rows : Rows)
    → QuietAt copy.id change rows.operations
    → IsValid rows
    → IsValid (write copy change rows).1
unfolding write
write-IsValid copy change rows q v = elim (Bool-cases (has_row copy.id rows.operations)) [
  | inl e ↦ rw e (update_row-RowsValid rows.domain copy.id change rows.operations q v)
  | inr e ↦ rw e v
]

pub update_row-Agrees :
    (copy : Operation) (id : ℕ) (change : Operation → Operation) (os : List Operation)
    → QuietAt id change os
    → All (Agrees copy) os
    → All (Agrees copy) (update_row id change os)
update_row-Agrees copy id change [] q a = tt
update_row-Agrees copy id change (o ∷ os) q a =
    (go (o.id == id) q.0, update_row-Agrees copy id change os q.1 a.1)
  where
    go : (b : Bool) → (b ≡ true → Quiet change o) → Agrees copy (if b then change o else o)
    go true f = λ h.
        let k = f refl in
        let (g, t) = a.0 (ap (λ x. x == copy.id) (sym (Quiet.same_id k)) ∙ h) in
        (Quiet.same_generation k ∙ g, Quiet.same_type k ∙ t)
    go false f = a.0

pub write-CopyOf :
    (other copy : Operation) (change : Operation → Operation) (rows : Rows)
    → QuietAt copy.id change rows.operations
    → CopyOf rows other
    → CopyOf (write copy change rows).1 other
unfolding write
write-CopyOf other copy change rows q c = elim (Bool-cases (has_row copy.id rows.operations)) [
  | inl e ↦ rw e (update_row-Agrees other copy.id change rows.operations q c)
  | inr e ↦ rw e c
]
