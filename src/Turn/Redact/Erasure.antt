-- ===== src/Turn/Redact/Erasure.antt =====
-- What is left of a turn after its redaction.
use ce_local_studio.Base.{
  ℕ, ◌+◌, ◌≡◌, refl, Bool, true, false, none, List, [], ◌∷◌, ◌++◌, map, arith, Result, ok, ◌⊎◌, inl,
  inr, All, All-append, Bool-cases, is_some, if◌then◌else◌,
}
use ce_local_studio.Turn.Types.{
  Status, redacted, EvidenceRef, ComposerRef, Payload, answer_delta, turn_redacted, Event, Turn,
  Scope, is_redacted, Conversation,
}
use ce_local_studio.Turn.Event.{Fault, next_event}
use ce_local_studio.Turn.Redact.{
  sanitize, sanitize_event, redact_evidence_ref, redact_composer_ref, redacted_values, redact_turn,
  redact_turns, linked_to_source, redact_turns_for_source,
}

-- An event that shows no answer text, no evidence item, no citation and no accepted reference.
abbrev pub NoContent : Event → Type 0
NoContent e = sanitize e.payload ≡ e.payload

abbrev pub BareEvidence : EvidenceRef → Type 0
BareEvidence ref =
    (is_some ref.redacted_at ≡ true)
    × (ref.citation_label ≡ none)
    × (ref.source_label ≡ none)
    × (ref.excerpt ≡ none)

abbrev pub BareComposer : ComposerRef → Type 0
BareComposer ref =
    (is_some ref.redacted_at ≡ true) × (ref.safe_label ≡ none) × (ref.safe_description ≡ none)

-- A turn of which nothing generated or quoted is stored any more.
pub record IsErased (t : Turn) : Type 0 where
  pub state : t.status ≡ redacted
  pub answer : t.assistant_answer ≡ none
  pub error : t.safe_error_code ≡ none
  pub done : is_some t.completed_at ≡ true
  pub evidence : All BareEvidence t.evidence_refs
  pub composer : All BareComposer t.composer_refs
  pub log : All NoContent t.events

sanitize_twice : (p : Payload) → sanitize (sanitize p) ≡ sanitize p
unfolding sanitize
sanitize_twice (answer_delta text) = refl
sanitize_twice _ = refl

All-sanitize : (es : List Event) → All NoContent (map sanitize_event es)
All-sanitize [] = tt
All-sanitize (e ∷ es) = (sanitize_twice e.payload, All-sanitize es)

All-redact_evidence_ref :
    (now : ℕ) (refs : List EvidenceRef) → All BareEvidence (map (redact_evidence_ref now) refs)
unfolding redact_evidence_ref
All-redact_evidence_ref now [] = tt
All-redact_evidence_ref now (ref ∷ refs) =
    ((refl, refl, refl, refl), All-redact_evidence_ref now refs)

All-redact_composer_ref :
    (now : ℕ) (refs : List ComposerRef) → All BareComposer (map (redact_composer_ref now) refs)
unfolding redact_composer_ref
All-redact_composer_ref now [] = tt
All-redact_composer_ref now (ref ∷ refs) = ((refl, refl, refl), All-redact_composer_ref now refs)

-- The turn that a redaction writes: the erased columns, and one `turn.redacted` at the end.
abbrev pub Redacted : ℕ → Turn → Turn
Redacted now t =
    let u = redacted_values now t in
    record u { events = u.events ++ next_event (turn_redacted now) now u.events ∷ [] }

pub Redacted-IsErased : (now : ℕ) (t : Turn) → IsErased (Redacted now t)
unfolding redacted_values
Redacted-IsErased now t = record {
  state = refl;
  answer = refl;
  error = refl;
  done = refl;
  evidence = All-redact_evidence_ref now t.evidence_refs;
  composer = All-redact_composer_ref now t.composer_refs;
  log = All-append NoContent (map sanitize_event t.events) _ (All-sanitize t.events) (refl, tt);
}

-- Redaction never raises; it changes a turn once.
pub redact_turn_lem :
    (now : ℕ) (s : Scope)
    → ((is_redacted s.turn.status ≡ true) × (redact_turn now s ≡ ok (s, 0)))
      ⊎ ((is_redacted s.turn.status ≡ false)
          × (redact_turn now s
              ≡ ok (
                record {
                  turn = Redacted now s.turn;
                  version = s.version + 1;
                  conversation_updated_at = now;
                },
                1,
              )))
unfolding redact_turn
redact_turn_lem now s = elim (Bool-cases (is_redacted s.turn.status)) [
  | inl done ↦ inl (done, rw done)
  | inr live ↦ inr (live, rw live)
]

-- What the redaction for a source did to one turn: nothing, where the turn does not show the source.
abbrev pub Touched : (Turn → Bool) → Turn → Turn → Type 0
Touched selected t t' = (selected t ≡ true → IsErased t') × (selected t ≡ false → t' ≡ t)

abbrev pub Pairwise : (Turn → Turn → Type 0) → List Turn → List Turn → Type 0
Pairwise R [] [] = Unit {0}
Pairwise R (t ∷ ts) (u ∷ us) = R t u × Pairwise R ts us
Pairwise R _ _ = ⊥

-- A turn that is redacted has been erased.
abbrev pub Tidy : Turn → Type 0
Tidy t = t.status ≡ redacted → IsErased t

redacted_of_test : (s : Status) → is_redacted s ≡ true → s ≡ redacted
redacted_of_test redacted h = refl
redacted_of_test _ h = cc

redact_turn-erases :
    (now : ℕ) (s : Scope)
    → Tidy s.turn
    → (s' : Scope) × (n : ℕ) × (redact_turn now s ≡ ok (s', n))
      × IsErased s'.turn
      × (s'.version ≡ s.version + n)
redact_turn-erases now s tidy = elim (redact_turn_lem now s) [
  | inl (done, e) ↦ (s, 0, e, tidy (redacted_of_test s.turn.status done), omega arith)
  | inr (live, e) ↦ (_, 1, e, Redacted-IsErased now s.turn, refl)
]

abbrev step_selected : (Turn → Bool) → ℕ → Scope → Result Fault (Scope × ℕ)
step_selected selected now s = if selected s.turn then redact_turn now s else ok (s, 0)

step_selected-touches :
    (selected : Turn → Bool) (now : ℕ) (s : Scope)
    → Tidy s.turn
    → (s' : Scope) × (n : ℕ) × (step_selected selected now s ≡ ok (s', n))
      × Touched selected s.turn s'.turn
      × (s'.version ≡ s.version + n)
step_selected-touches selected now s tidy = elim (Bool-cases (selected s.turn)) [
  | inl yes' ↦
      let (s', n, e, erased, v) = redact_turn-erases now s tidy in
      (s', n, rw yes' e, (λ _. erased, λ no'. cc), v)
  | inr no' ↦ (s, 0, rw no', (λ yes'. cc, λ _. refl), omega arith)
]

redact_turns-touches :
    (selected : Turn → Bool) (now : ℕ) (ts : List Turn) (version updated_at : ℕ)
    → All Tidy ts
    → (ts' : List Turn) × (version' : ℕ) × (updated_at' : ℕ) × (n : ℕ) × (redact_turns selected now
          ts version updated_at
        ≡ ok (ts', version', updated_at', n))
      × Pairwise (Touched selected) ts ts'
      × (version' ≡ version + n)
unfolding redact_turns
redact_turns-touches selected now [] version updated_at h =
    ([], version, updated_at, 0, refl, tt, omega arith)
redact_turns-touches selected now (t ∷ ts) version updated_at h =
    let s : Scope = record { turn = t; version = version; conversation_updated_at = updated_at } in
    let (s', n, e, touched, v) = step_selected-touches selected now s h.0 in
    let (ts', version', updated_at', m, e', rest, v') =
      redact_turns-touches selected now ts s'.version s'.conversation_updated_at h.1 in
    (s'.turn ∷ ts', version', updated_at', n + m, rw e (rw e'), (touched, rest), omega arith)

-- Deleting a source: if every turn of the conversation that is redacted already has been erased,
-- the call does not raise; it leaves each turn that refers to the source erased and every other turn
-- as it was, and advances the conversation's version by the number that it returns.
pub redact_turns_for_source_lem :
    (source now : ℕ) (c : Conversation)
    → All Tidy c.turns
    → (c' : Conversation) × (n : ℕ) × (redact_turns_for_source source now c ≡ ok (c', n))
      × Pairwise (Touched (linked_to_source source)) c.turns c'.turns
      × (c'.version ≡ c.version + n)
unfolding redact_turns_for_source
redact_turns_for_source_lem source now c h =
    let (ts', version', updated_at', n, e, touched, v) =
      redact_turns-touches (linked_to_source source) now c.turns c.version c.updated_at h in
    (record c { turns = ts'; version = version'; updated_at = updated_at' }, n, rw e, touched, v)
