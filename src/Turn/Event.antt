-- ===== src/Turn/Event.antt =====
-- The event log of a turn: `_persist_event`, `_stored_events`, `_latest_event`,
-- `_execution_fence_open` and the payloads of the terminal events
-- (app/context_engine/services/chat_turns.py). The refresh, the checks, the highest sequence and the
-- insert of `_persist_event` are one step.
pub mod Sequence
pub mod Tail
use ce_local_studio.Base.{
  ℕ, ◌+◌, max, Bool, true, false, not, ◌&&◌, Option, none, some, List, [], ◌∷◌, ◌++◌, map, Result,
  ok, err, or_else, ◌==◌, ltb, if◌then◌else◌, select, is_some,
}
use ce_local_studio.Turn.Types.{
  Status, running, completed, failed, cancelled, redacted, Payload, accepted, route_selected,
  retrieval_started, retrieval_completed, evidence_delta, answer_delta, turn_completed, turn_failed,
  cancellation, turn_redacted, Event, Turn, EvidenceRef, ComposerRef, SafeError, provider_failed,
  is_running, is_redacted,
}

-- The two `RuntimeError`s of `_persist_event` and that of `_latest_event`.
pub data Fault : Type 0 where
  terminal_turn lease_lost no_terminal_event : Fault

-- The table `allowed_terminal`; a running turn takes any event.
abbrev pub may_append : Status → Payload → Bool
may_append running _ = true
may_append completed (turn_completed _ _ _ _) = true
may_append completed (turn_redacted _) = true
may_append failed (turn_failed _ _) = true
may_append failed (turn_redacted _) = true
may_append cancelled (cancellation _) = true
may_append cancelled (turn_redacted _) = true
may_append redacted (turn_redacted _) = true
may_append _ _ = false

-- `execution_generation is not None and turn.execution_generation != execution_generation`
abbrev pub generation_lost : Option ℕ → ℕ → Bool
generation_lost none current = false
generation_lost (some generation) current = not (current == generation)

-- `coalesce(max(sequence), 0)` over the turn's events.
abbrev pub max_sequence : List Event → ℕ
max_sequence [] = 0
max_sequence (e ∷ es) = max e.sequence (max_sequence es)

abbrev pub next_event : Payload → ℕ → List Event → Event
next_event payload now events = record {
  sequence = max_sequence events + 1;
  payload = payload;
  occurred_at = now;
}

unfoldable pub persist_event : Turn → Payload → Option ℕ → ℕ → Result Fault Turn
persist_event turn payload execution_generation now =
    if not (may_append turn.status payload)
    then err terminal_turn
    else if generation_lost execution_generation turn.execution_generation
    then err lease_lost
    else ok (record turn { events = turn.events ++ next_event payload now turn.events ∷ [] })

unfoldable pub execution_fence_open : Turn → Option ℕ → Bool
execution_fence_open turn execution_generation =
    if not (is_running turn.status)
    then false
    else not (generation_lost execution_generation turn.execution_generation)

-- `_public_evidence_refs` and `_public_composer_refs`: a redacted turn shows none. The rows are kept
-- in the order that the source sorts them by.
unfoldable pub public_evidence_refs : Turn → List EvidenceRef
public_evidence_refs turn =
    if is_redacted turn.status
    then []
    else select (λ ref. not (is_some (ref.redacted_at))) turn.evidence_refs

unfoldable pub public_composer_refs : Turn → List ComposerRef
public_composer_refs turn =
    if is_redacted turn.status
    then []
    else select (λ ref. not (is_some (ref.redacted_at))) turn.composer_refs

-- `citations` of `safe_turn_summary`: the references that still have a label.
abbrev labelled : EvidenceRef → Bool
labelled ref = is_some ref.citation_label

unfoldable pub completed_payload : Turn → Bool → Payload
unfolding public_evidence_refs public_composer_refs
completed_payload turn replay =
    turn_completed turn.stop_reason
      (map (λ ref. ref.public_ref) (select labelled (public_evidence_refs turn)))
      (map (λ ref. ref.public_ref) (public_composer_refs turn)) replay

-- `_terminal_event_payload_for_emit`, by the payload that is stored.
abbrev pub terminal_payload_for_emit : Turn → Payload → Option Payload
terminal_payload_for_emit turn (turn_completed _ _ _ _) = some (completed_payload turn true)
terminal_payload_for_emit turn (turn_failed _ _) =
    some (turn_failed (or_else turn.safe_error_code provider_failed) true)
terminal_payload_for_emit turn (cancellation _) = some (cancellation true)
terminal_payload_for_emit turn _ = none

unfoldable pub with_emit_replay : Turn → Bool → Event → Event
with_emit_replay turn terminal_replay event =
    if terminal_replay
    then record event {
      payload = or_else (terminal_payload_for_emit turn event.payload) event.payload;
    }
    else event

unfoldable pub stored_events : Turn → ℕ → Bool → List Event
unfolding with_emit_replay
stored_events turn after terminal_replay =
    map (with_emit_replay turn terminal_replay) (select (λ row. ltb after row.sequence) turn.events)

abbrev latest_from : Option Event → List Event → Option Event
latest_from best [] = best
latest_from none (e ∷ es) = latest_from (some e) es
latest_from (some best) (e ∷ es) =
    latest_from (some (if ltb best.sequence e.sequence then e else best)) es

unfoldable pub latest_event : Turn → Result Fault Event
latest_event turn = elim (latest_from none turn.events) [
  | none ↦ err no_terminal_event
  | some row ↦ ok row
]

-- `_has_answer_delta`
abbrev pub is_answer_delta : Payload → Bool
is_answer_delta (answer_delta _) = true
is_answer_delta _ = false
