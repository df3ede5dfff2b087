-- ===== src/Turn/Log/Forward.antt =====
-- What no interleaving undoes: the end of a turn, and the loss of a generation.
use mathlib.Core.Path.{subst}
use ce_local_studio.Base.{
  ℕ, ◌≡◌, refl, sym, ap, ◌∙◌, true, false, Option, List, arith, Result, ok, err, ◌⊎◌, inl, inr, ◌≤◌,
  Bool-cases,
}
use ce_local_studio.Turn.Types.{
  Text, StopReason, SafeError, Payload, Turn, Scope, is_running, is_redacted,
}
use ce_local_studio.Turn.Event.{Fault, persist_event, execution_fence_open}
use ce_local_studio.Turn.Event.Sequence.{persist_event-ok}
use ce_local_studio.Turn.Log.Safety.{progress_needs_running}
use ce_local_studio.Turn.Lease.{is_claimable, take_lease, heartbeat_turn_lease, turn_lease_current}
use ce_local_studio.Turn.Finalize.{
  Counters, MappedEvidence, complete_turn, fail_turn, cancel_running_turn, persist_evidence_refs,
  completed_values, failed_values, cancelled_values,
}
use ce_local_studio.Turn.Finalize.Outcome.{
  complete_turn_lem, fail_turn_lem, cancel_running_turn_lem, fence_open,
}
use ce_local_studio.Turn.Redact.{redact_turn, redacted_values}
use ce_local_studio.Turn.Redact.Erasure.{Redacted-IsErased, redact_turn_lem, IsErased}
use ce_local_studio.Turn.Log.{
  is_progress, Step, emit, keep_evidence, complete, fail, cancel, redact, claim, beat, Reach, here,
  next,
}

-- How two scopes compare, one transaction apart.
abbrev Later : Scope → Scope → Type 0
Later s s' = s.turn.execution_generation ≤ s'.turn.execution_generation

abbrev Final : Scope → Scope → Type 0
Final s s' =
    is_running s.turn.status ≡ false
    → (s' ≡ s) ⊎ ((is_redacted s.turn.status ≡ false) × IsErased s'.turn)

-- A transaction moves forward: it lowers no generation, and it changes an ended turn only by
-- redacting it.
abbrev Onward : Scope → Scope → Type 0
Onward s s' = Later s s' × Final s s'

ok_scope : {s s' : Scope} → ◌≡◌ {A = Result Fault Scope} (ok s) (ok s') → s ≡ s'
ok_scope e = cc

abbrev first_of : Result Fault (Scope × ℕ) → Scope → Scope
first_of (ok (s, _)) _ = s
first_of (err _) s = s

ok_pair :
    {s s' : Scope} {n m : ℕ} → ◌≡◌ {A = Result Fault (Scope × ℕ)} (ok (s, n)) (ok (s', m)) → s ≡ s'
ok_pair {s} e = ap (λ r. first_of r s) e

module _ (s : Scope) where
  stay : Onward s s
  stay = (omega arith, λ _. inl refl)

  running-Onward :
      (s' : Scope)
      → is_running s.turn.status ≡ true
      → s'.turn.execution_generation ≡ s.turn.execution_generation
      → Onward s s'
  running-Onward s' run g = (omega arith, λ over. cc)

  keep_evidence-Onward :
      (evidence : List MappedEvidence) (g : Option ℕ) (now : ℕ)
      → Onward s (persist_evidence_refs s evidence g now)
  unfolding persist_evidence_refs
  keep_evidence-Onward evidence g now = elim (Bool-cases (execution_fence_open s.turn g)) [
    | inl o ↦ rw o (running-Onward _ (fence_open s.turn g o).0 refl)
    | inr o ↦ rw o stay
  ]

  complete-Onward :
      (s' : Scope) (r : StopReason) (a : Option Text) (c : Counters) (g : Option ℕ) (now : ℕ)
      → complete_turn s r a c g now ≡ ok s'
      → Onward s s'
  unfolding completed_values
  complete-Onward s' r a c g now e = elim (complete_turn_lem s r a c g now) [
    | inl (o, q) ↦ rw (← ok_scope (sym q ∙ e)) (running-Onward _ (fence_open s.turn g o).0 refl)
    | inr (o, q) ↦ rw (← ok_scope (sym q ∙ e)) stay
  ]

  fail-Onward :
      (s' : Scope) (code : SafeError) (r : StopReason) (g : Option ℕ) (now : ℕ)
      → fail_turn s code r g now ≡ ok s'
      → Onward s s'
  unfolding failed_values
  fail-Onward s' code r g now e = elim (fail_turn_lem s code r g now) [
    | inl (o, q) ↦ rw (← ok_scope (sym q ∙ e)) (running-Onward _ (fence_open s.turn g o).0 refl)
    | inr (o, q) ↦ rw (← ok_scope (sym q ∙ e)) stay
  ]

  cancel-Onward : (s' : Scope) (now : ℕ) → cancel_running_turn s now ≡ ok s' → Onward s s'
  unfolding cancelled_values
  cancel-Onward s' now e = elim (cancel_running_turn_lem s now) [
    | inl (o, q) ↦ rw (← ok_scope (sym q ∙ e)) (running-Onward _ o refl)
    | inr (o, q) ↦ rw (← ok_scope (sym q ∙ e)) stay
  ]

  emit-Onward :
      (t : Turn) (p : Payload) (g : Option ℕ) (now : ℕ)
      → is_progress p ≡ true
      → persist_event s.turn p g now ≡ ok t
      → Onward s (record s { turn = t })
  emit-Onward t p g now h e =
      let (may, q) = persist_event-ok s.turn t p g now e in
      let run = progress_needs_running s.turn.status p h may in
      rw q (running-Onward _ (ap is_running run) refl)

  claim-Onward :
      (worker seconds now : ℕ)
      → is_claimable s.turn now ≡ true
      → Onward s (record s { turn = take_lease worker seconds now s.turn })
  unfolding take_lease is_claimable
  claim-Onward worker seconds now h = (omega arith, λ over. absurd (ground arith))

  beat-Onward :
      (owner seconds g now : ℕ)
      → Onward s (record s { turn = (heartbeat_turn_lease s.turn owner seconds g now).0 })
  unfolding heartbeat_turn_lease turn_lease_current
  beat-Onward owner seconds g now = elim (Bool-cases (turn_lease_current s.turn owner g now)) [
    | inl o ↦ rw o (running-Onward _ (ground arith) refl)
    | inr o ↦ rw o stay
  ]

  redact-Onward : (s' : Scope) (now n : ℕ) → redact_turn now s ≡ ok (s', n) → Onward s s'
  unfolding redacted_values
  redact-Onward s' now n e = elim (redact_turn_lem now s) [
    | inl (o, q) ↦ rw (← ok_pair (sym q ∙ e)) stay
    | inr (o, q) ↦
        rw (← ok_pair (sym q ∙ e)) (omega arith, λ over. inr (o, Redacted-IsErased now s.turn))
  ]

Step-Onward : {s s' : Scope} → Step s s' → Onward s s'
Step-Onward {s} (emit p g now {t} h e) = emit-Onward s t p g now h e
Step-Onward {s} (keep_evidence evidence g now) = keep_evidence-Onward s evidence g now
Step-Onward {s} {s'} (complete r a c g now e) = complete-Onward s s' r a c g now e
Step-Onward {s} {s'} (fail code r g now e) = fail-Onward s s' code r g now e
Step-Onward {s} {s'} (cancel now e) = cancel-Onward s s' now e
Step-Onward {s} {s'} (redact now n e) = redact-Onward s s' now n e
Step-Onward {s} (claim worker seconds now h) = claim-Onward s worker seconds now h
Step-Onward {s} (beat owner seconds g now) = beat-Onward s owner seconds g now

Reach-over :
    {s s' : Scope} → is_running s.turn.status ≡ false → Reach s s' → (s' ≡ s) ⊎ IsErased s'.turn
Reach-over over here = inl refl
Reach-over {s} {s'} over (next {t} r st) = elim (Reach-over over r) [
  | inl same ↦ elim ((Step-Onward st).1 (rw same over)) [
    | inl e ↦ inl (e ∙ same)
    | inr (_, erased) ↦ inr erased
  ]
  | inr gone ↦ elim ((Step-Onward st).1 (ap is_running gone.state)) [
    | inl e ↦ inr (subst (λ (x : Scope). IsErased x.turn) (sym e) gone)
    | inr (_, erased) ↦ inr erased
  ]
]

-- Once a turn is not running, whatever transactions on it follow, the turn is as it was or a
-- redaction has erased it.
pub Reach-final :
    {s s' : Scope}
    → is_running s.turn.status ≡ false
    → Reach s s'
    → (s'.turn ≡ s.turn) ⊎ IsErased s'.turn
Reach-final over r = elim (Reach-over over r) [
  | inl same ↦ inl (ap (λ (x : Scope). x.turn) same)
  | inr gone ↦ inr gone
]

pub Reach-generation :
    {s s' : Scope} → Reach s s' → s.turn.execution_generation ≤ s'.turn.execution_generation
Reach-generation here = omega arith
Reach-generation (next r st) = omega (arith, Reach-generation r, (Step-Onward st).0)
