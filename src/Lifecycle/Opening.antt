-- ===== src/Lifecycle/Opening.antt =====
-- A new operation is let in only where no other is active, at a generation of its own.
use ce_local_studio.Base.{
  ℕ, ◌+◌, ◌≤◌, ◌≡◌, refl, sym, ◌∙◌, Bool, true, false, not, some, List, [], ◌∷◌, ◌++◌, arith, ◌==◌,
  All, All-append, any, inl, inr, Bool-cases, Option-cases, Result, ok,
}
use ce_local_studio.Lifecycle.Types.{Operation, Domain, Rows, DomainError, is_active, is_deleting}
use ce_local_studio.Lifecycle.Rows.{has_row, insert_operation}
use ce_local_studio.Lifecycle.Requests.{raised_if, domain_or_404, open_operation}
use ce_local_studio.Lifecycle.Valid.{is_delete, Sound, Distinct, active_count, RowsValid, IsValid}

pub insert-some :
    (new : Operation) (os : List Operation) {os' : List Operation}
    → insert_operation new os ≡ some os'
    → (has_row new.id os ≡ false)
      × (os' ≡ os ++ new ∷ [])
      × (is_active new.status ≡ true → any (λ (o : Operation). is_active o.status) os ≡ false)
unfolding insert_operation
insert-some new os h = ground (arith, h)

append-Distinct :
    (new : Operation) (os : List Operation)
    → has_row new.id os ≡ false
    → Distinct os
    → Distinct (os ++ new ∷ [])
append-Distinct new [] h d = (refl, tt)
append-Distinct new (o ∷ os) h d =
    (apart o.id os d.0 (ground (arith, h)), append-Distinct new os (ground (arith, h)) d.1)
  where
    apart :
        (k : ℕ) (os : List Operation)
        → has_row k os ≡ false
        → (new.id == k) ≡ false
        → has_row k (os ++ new ∷ []) ≡ false
    apart k [] h e = ground (arith, e)
    apart k (o ∷ os) h e = ground (arith, apart k os, e)

pub active_count-append :
    (new : Operation) (os : List Operation)
    → any (λ (o : Operation). is_active o.status) os ≡ false
    → active_count (os ++ new ∷ []) ≤ 1
active_count-append new [] h = ground arith
active_count-append new (o ∷ os) h = ground (arith, active_count-append new os)

advanced-Sound :
    (d d' : Domain) (os : List Operation)
    → d'.control_generation ≡ d.control_generation + 1
    → (is_deleting d.state ≡ true → is_deleting d'.state ≡ true)
    → any (λ (o : Operation). is_active o.status) os ≡ false
    → All (Sound d) os
    → All (Sound d') os
advanced-Sound d d' [] g x h s = tt
advanced-Sound d d' (o ∷ os) g x h s = elim (Bool-cases (is_active o.status)) [
  | inl a ↦ cc
  | inr a ↦ (
    record {
      bounded = omega (arith, g, Sound.bounded s.0);
      current = λ b. cc;
      fenced = λ y n. omega (arith, g, Sound.bounded s.0);
      doomed = λ y. x (Sound.doomed s.0 y);
    },
    advanced-Sound d d' os g x (rw a at h) s.1,
  )
]

-- An active operation that is let in at the next generation of its domain.
pub opened-IsValid :
    (d d' : Domain) (new : Operation) (refused : DomainError) (os : List Operation) (rows : Rows)
    → d'.control_generation ≡ d.control_generation + 1
    → (is_deleting d.state ≡ true → is_deleting d'.state ≡ true)
    → new.control_generation_at_start ≡ d'.control_generation
    → is_active new.status ≡ true
    → (is_deleting d'.state ≡ is_delete new)
    → RowsValid (some d) os
    → IsValid rows
    → IsValid (open_operation new refused d' os rows).1
opened-IsValid d d' new refused os rows g x n a t (s, u, k) v =
    elim (Option-cases (insert_operation new os)) [
      | inl e ↦ rw (e, open_operation) v
      | inr (os', e) ↦
          let (f, w, i) = insert-some new os e in
          let own : Sound d' new = record {
            bounded = omega (arith, n);
            current = λ b. n;
            fenced = λ y z. let c = sym t ∙ y in cc;
            doomed = λ y. t ∙ y;
          } in
          rw (e, w, open_operation)
            (
              All-append (Sound d') os (new ∷ []) (advanced-Sound d d' os g x (i a) s) (own, tt),
              append-Distinct new os f u,
              active_count-append new os (i a),
            )
    ]

-- A guard that lets the call through.
pub raised_if-ok {ℓ} :
    {A : Type ℓ} (b : Bool) (error : DomainError) (rest : Result DomainError A) {a : A}
    → raised_if b error rest ≡ ok a
    → (b ≡ false) × (rest ≡ ok a)
raised_if-ok true error rest h = cc
raised_if-ok false error rest h = (refl, h)

pub not-false : (b : Bool) → not b ≡ false → b ≡ true
not-false true h = refl
not-false false h = cc

pub domain_or_404-ok :
    (id : List ℕ) (rows : Rows) {d : Domain} → domain_or_404 id rows ≡ ok d → rows.domain ≡ some d
domain_or_404-ok id rows h = ground (arith, h)
