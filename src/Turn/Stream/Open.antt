-- ===== src/Turn/Stream/Open.antt =====
-- What an executor writes while its fence is open: an event, or the evidence.
use ce_local_studio.Base.{ℕ, ◌+◌, ◌≡◌, refl, ◌∙◌, true, some, List, [], ◌∷◌, ◌++◌, max}
use ce_local_studio.Turn.Types.{Payload, Scope}
use ce_local_studio.Turn.Event.{next_event, execution_fence_open}
use ce_local_studio.Turn.Finalize.{MappedEvidence, persist_evidence_refs, evidence_rows}
use ce_local_studio.Turn.Stream.{then_event}
use ce_local_studio.Turn.Stream.Answer.{logged, logged_fence, persist_open}

-- The scope after one more event.
abbrev pub noted : Scope → Payload → ℕ → Scope
noted s p now = logged s (s.turn.events ++ next_event p now s.turn.events ∷ [])

pub then_event-open :
    (s : Scope) (p : Payload) (g now : ℕ) (rest : Scope → Scope)
    → execution_fence_open s.turn (some g) ≡ true
    → then_event s p g now rest ≡ rest (noted s p now)
then_event-open s p g now rest h = rw (persist_open s.turn p g now h, then_event) refl

pub noted_fence :
    (s : Scope) (p : Payload) (g now : ℕ)
    → execution_fence_open s.turn (some g) ≡ true
    → execution_fence_open (noted s p now).turn (some g) ≡ true
noted_fence s p g now h =
    logged_fence s (some g) (s.turn.events ++ next_event p now s.turn.events ∷ []) ∙ h

-- The scope after the evidence is stored.
abbrev pub stored : Scope → List MappedEvidence → ℕ → Scope
stored s evidence now = record {
  turn = record s.turn {
    evidence_refs = s.turn.evidence_refs ++ evidence_rows 1 evidence;
    retrieval_operation_count = max s.turn.retrieval_operation_count 1;
    updated_at = now;
  };
  version = s.version + 1;
  conversation_updated_at = now;
}

pub persist_evidence_refs-open :
    (s : Scope) (evidence : List MappedEvidence) (g now : ℕ)
    → execution_fence_open s.turn (some g) ≡ true
    → persist_evidence_refs s evidence (some g) now ≡ stored s evidence now
unfolding persist_evidence_refs
persist_evidence_refs-open s evidence g now h = rw h refl

pub stored_fence :
    (s : Scope) (evidence : List MappedEvidence) (g now : ℕ)
    → execution_fence_open s.turn (some g) ≡ true
    → execution_fence_open (stored s evidence now).turn (some g) ≡ true
unfolding execution_fence_open
stored_fence s evidence g now h = h
