-- ===== src/Turn/Redact.antt =====
-- Redaction when a source or a domain goes: `_sanitize_turn_events_for_redaction`, the body and the
-- loop of `_redact_turns`, and `_turns_linked_to_source` of
-- app/context_engine/services/chat_turns.py. The audit row of each redaction is left out. The loop
-- runs over the turns of one conversation, whose version it advances. It reads a turn as the row is:
-- a commit between the selection of the turns and the lock of their conversation is not modelled.
pub mod Erasure
use ce_local_studio.Base.{
  ℕ, suc, Bool, true, false, not, ◌&&◌, ◌||◌, Option, none, some, List, [], ◌∷◌, map, Result, ok,
  err, ◌>>=◌, or_else, if◌then◌else◌, any, ◌==◌, same_option, ◌+◌,
}
use ce_local_studio.Turn.Types.{
  Text, StopReason, by_redaction, Status, redacted, EvidenceRef, ComposerRef, Payload,
  evidence_delta, answer_delta, turn_completed, turn_redacted, Event, Turn, Scope, Conversation,
  is_redacted,
}
use ce_local_studio.Turn.Event.{Fault, persist_event}
use ce_local_studio.Turn.Finalize.{mark_conversation_changed}

unfoldable pub sanitize : Payload → Payload
sanitize (answer_delta text) = answer_delta []
sanitize (evidence_delta items) = evidence_delta []
sanitize (turn_completed reason citations accepted_refs replay) = turn_completed reason [] [] replay
sanitize payload = payload

abbrev pub sanitize_event : Event → Event
sanitize_event row = record row { payload = sanitize row.payload }

unfoldable pub redact_evidence_ref : ℕ → EvidenceRef → EvidenceRef
redact_evidence_ref now ref = record ref {
  redacted_at = some (or_else ref.redacted_at now);
  citation_label = none;
  source_label = none;
  excerpt = none;
}

unfoldable pub redact_composer_ref : ℕ → ComposerRef → ComposerRef
redact_composer_ref now ref = record ref {
  redacted_at = some (or_else ref.redacted_at now);
  safe_label = none;
  safe_description = none;
}

unfoldable pub redacted_values : ℕ → Turn → Turn
unfolding redact_evidence_ref redact_composer_ref sanitize
redacted_values now t = record t {
  status = redacted;
  stop_reason = some by_redaction;
  assistant_answer = none;
  safe_error_code = none;
  completed_at = some (or_else t.completed_at now);
  updated_at = now;
  evidence_refs = map (redact_evidence_ref now) t.evidence_refs;
  composer_refs = map (redact_composer_ref now) t.composer_refs;
  events = map sanitize_event t.events;
}

-- The loop's body: the scope, and how many turns were changed.
unfoldable pub redact_turn : ℕ → Scope → Result Fault (Scope × ℕ)
unfolding redacted_values persist_event mark_conversation_changed
redact_turn now s = if is_redacted s.turn.status then ok (s, 0) else do
  turn ← persist_event (redacted_values now s.turn) (turn_redacted now) none now
  ok (mark_conversation_changed now (record s { turn = turn }), 1)

-- The turns of a conversation that the query selected, in their order. The count is `changed`.
pub redact_turns : (Turn → Bool) → ℕ → List Turn → ℕ → ℕ → Result Fault (List Turn × ℕ × ℕ × ℕ)
redact_turns selected now [] version updated_at = ok ([], version, updated_at, 0)
redact_turns selected now (t ∷ ts) version updated_at = do
  let s : Scope = record { turn = t; version = version; conversation_updated_at = updated_at }
  (s', n) ← if selected t then redact_turn now s else ok (s, 0)
  (ts', version', updated_at', m) ←
      redact_turns selected now ts s'.version s'.conversation_updated_at
  ok (s'.turn ∷ ts', version', updated_at', n + m)

-- `_turns_linked_to_source`: the turns with an evidence or a composer reference to the source.
unfoldable pub linked_to_source : ℕ → Turn → Bool
linked_to_source source_document_id t =
    any (λ ref. ref.source_document_id == source_document_id) t.evidence_refs
    || any (λ ref. same_option ref.source_document_id (some source_document_id)) t.composer_refs

unfoldable pub redact_turns_for_source : ℕ → ℕ → Conversation → Result Fault (Conversation × ℕ)
unfolding redact_turns linked_to_source
redact_turns_for_source source_document_id now c = do
  (turns, version, updated_at, changed) ←
      redact_turns (linked_to_source source_document_id) now c.turns c.version c.updated_at
  ok (record c { turns = turns; version = version; updated_at = updated_at }, changed)
