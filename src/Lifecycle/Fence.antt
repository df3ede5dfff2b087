-- ===== src/Lifecycle/Fence.antt =====
-- The end of a start or a stop keeps the rows valid: it writes the state only where no delete is.
use mathlib.Core.Path.{subst}
use ce_local_studio.Base.{
  ℕ, ◌+◌, ◌≡◌, refl, sym, ◌∙◌, true, false, Option, none, some, List, [], ◌∷◌, arith, ◌==◌, All,
  inl, inr, ◌⊎◌, Bool-cases, Option-cases, ok, eqb→eq,
}
use ce_local_studio.Indexing.Types.{DomainState}
use ce_local_studio.Lifecycle.Types.{
  OperationStatus, Message, Operation, Domain, Rows, is_deleting, stale_generation, lease_lost,
}
use ce_local_studio.Lifecycle.Rows.{
  ended, write, has_row, update_row, operation_lease_current, cancel_operation,
}
use ce_local_studio.Lifecycle.Transition.{
  update_domain_state_if_current, apply_fenced_state_transition,
}
use ce_local_studio.Lifecycle.Valid.{is_delete, Sound, IsValid, RowsValid, Agrees, CopyOf}
use ce_local_studio.Lifecycle.Quiet.{Quiet, All-each, update_row-RowsValid}
use ce_local_studio.Lifecycle.Endings.{cancel_operation-IsValid}

-- Where a start or a stop of the present generation has its row, the domain is not being deleted.
pub not_deleting :
    (d : Domain) (copy : Operation) (os : List Operation)
    → has_row copy.id os ≡ true
    → All (Agrees copy) os
    → All (Sound d) os
    → is_delete copy ≡ false
    → copy.control_generation_at_start ≡ d.control_generation
    → is_deleting d.state ≡ false
not_deleting d copy [] h a s n g = cc
not_deleting d copy (o ∷ os) h a s n g = elim (Bool-cases (o.id == copy.id)) [
  | inl e ↦
      let (same_generation, same_type) = a.0 e in
      elim (Bool-cases (is_deleting d.state)) [
        | inl x ↦ absurd (omega (arith, Sound.fenced s.0 x (same_type ∙ n), same_generation, g))
        | inr x ↦ x
      ]
  | inr e ↦ not_deleting d copy os (rw e at h) a.1 s.1 n g
]

abbrev pub with_state : DomainState → ℕ → Domain → Domain
with_state state now d = record d { state = state; updated_at = now; version = d.version + 1 }

with_state-Sound :
    (d : Domain) (target : DomainState) (now : ℕ) (o : Operation)
    → is_deleting d.state ≡ false
    → is_deleting target ≡ false
    → Sound d o
    → Sound (with_state target now d) o
with_state-Sound d target now o x t s = record {
  bounded = s.bounded;
  current = s.current;
  fenced = λ y. cc;
  doomed = λ y. let z = s.doomed y in cc;
}

with_state-All :
    (d : Domain) (target : DomainState) (now : ℕ) (os : List Operation)
    → is_deleting d.state ≡ false
    → is_deleting target ≡ false
    → All (Sound d) os
    → All (Sound (with_state target now d)) os
with_state-All d target now [] x t s = tt
with_state-All d target now (o ∷ os) x t s =
    (with_state-Sound d target now o x t s.0, with_state-All d target now os x t s.1)

abbrev pub succeeded_row : Message → Operation → ℕ → Operation → Operation
succeeded_row success copy written row =
    record (ended OperationStatus.succeeded success none copy written row) {
      lease_owner = none;
      lease_expires_at = none;
    }

succeeded-Quiet :
    (success : Message) (copy : Operation) (written : ℕ) (o : Operation)
    → Quiet (succeeded_row success copy written) o
succeeded-Quiet success copy written o = record {
  same_id = refl;
  same_generation = refl;
  same_type = refl;
  not_revived = λ a. cc;
}

update-some :
    (instance_id generation : ℕ) (target : DomainState) (now : ℕ) (domain : Option Domain)
    {updated : Option Domain}
    → update_domain_state_if_current instance_id generation target now domain ≡ some updated
    → (d : Domain) × (domain ≡ some d)
      × (d.runtime_instance_id ≡ instance_id)
      × (d.control_generation ≡ generation)
      × (updated ≡ some (with_state target now d))
unfolding update_domain_state_if_current
update-some instance_id generation target now none h = cc
update-some instance_id generation target now (some d) h =
    elim (Bool-cases (d.runtime_instance_id == instance_id)) [
      | inl e ↦ elim (Bool-cases (d.control_generation == generation)) [
        | inl f ↦ (d, refl, eqb→eq _ _ e, eqb→eq _ _ f, ground (arith, e, f, h))
        | inr f ↦ ground (arith, e, f, h)
      ]
      | inr e ↦ ground (arith, e, h)
    ]

-- What a transition comes to.
pub apply_fenced_state_transition_lem :
    (now written owner : ℕ) (target : DomainState) (success : Message) (instance_id : ℕ)
    (copy : Operation) (rows : Rows)
    → let result =
        apply_fenced_state_transition now written owner target success instance_id copy rows in
      ((message : Message) × (result ≡ cancel_operation written message copy rows))
      ⊎ (result.1 ≡ rows)
      ⊎ ((d : Domain) × (rows.domain ≡ some d)
          × (operation_lease_current owner now copy ≡ true)
          × (d.runtime_instance_id ≡ instance_id)
          × (d.control_generation ≡ copy.control_generation_at_start)
          × (has_row copy.id rows.operations ≡ true)
          × (result ≡ (
            ok tt,
            record {
              domain = some (with_state target written d);
              operations = update_row copy.id (succeeded_row success copy written) rows.operations;
            },
          )))
unfolding apply_fenced_state_transition write
apply_fenced_state_transition_lem now written owner target success instance_id copy rows =
    elim (Bool-cases (operation_lease_current owner now copy)) [
      | inr l ↦ inl (lease_lost, rw (l, apply_fenced_state_transition))
      | inl l ↦
          elim (Option-cases (
            update_domain_state_if_current instance_id copy.control_generation_at_start target
              written rows.domain)) [
                | inl u ↦ inl (stale_generation, rw (l, u, apply_fenced_state_transition))
                | inr (updated, u) ↦
                    let (d, e, i, g, w) = update-some _ _ _ _ rows.domain u in
                    elim (Bool-cases (has_row copy.id rows.operations)) [
                      | inl r ↦
                          inr
                            (inr (d, e, l, i, g, r, rw (l, u, w, r, apply_fenced_state_transition)))
                      | inr r ↦ inr (inl (rw (l, u, r, apply_fenced_state_transition)))
                    ]
              ]
    ]

pub apply_fenced_state_transition-IsValid :
    (now written owner : ℕ) (target : DomainState) (success : Message) (instance_id : ℕ)
    (copy : Operation) (rows : Rows)
    → is_deleting target ≡ false
    → is_delete copy ≡ false
    → CopyOf rows copy
    → IsValid rows
    → IsValid
        (apply_fenced_state_transition now written owner target success instance_id copy rows).1
apply_fenced_state_transition-IsValid now written owner target success instance_id copy rows t n c
      v =
    elim (apply_fenced_state_transition_lem now written owner target success instance_id copy
      rows) [
        | inl (message, e) ↦ rw e (cancel_operation-IsValid written message copy rows v)
        | inr (inl e) ↦ rw e v
        | inr (inr (d, e, l, i, g, r, f)) ↦
            let (s, u, k) = subst (λ x. RowsValid x rows.operations) e v in
            rw f (
              update_row-RowsValid (some (with_state target written d)) copy.id
                (succeeded_row success copy written) rows.operations
                (All-each (λ o h. succeeded-Quiet success copy written o) rows.operations)
                (
                  with_state-All d target written rows.operations
                      (not_deleting d copy rows.operations r c s n (sym g)) t s,
                  u,
                  k,
                ))
      ]
