-- ===== src/Turn/Log.antt =====
-- A turn's life as its event log tells it, and the steps that any party may take on a turn: the
-- executor of some generation, a worker that claims, a heartbeat, a user who cancels, a redaction.
-- Each step is one database transaction of app/context_engine/services/chat_turns.py; the steps of
-- all parties interleave in any order.
pub mod Safety
pub mod Reachable
pub mod Forward
pub mod Stale
use ce_local_studio.Base.{
  ℕ, ◌+◌, ◌≡◌, Bool, true, false, Option, none, some, List, [], ◌∷◌, Result, ok,
}
use ce_local_studio.Turn.Types.{
  Text, StopReason, SafeError, Status, running, completed, failed, cancelled, redacted, Payload,
  accepted, route_selected, retrieval_started, retrieval_completed, evidence_delta, answer_delta,
  turn_completed, turn_failed, cancellation, turn_redacted, Event, Turn, Scope,
}
use ce_local_studio.Turn.Event.{Fault, persist_event}
use ce_local_studio.Turn.Lease.{is_claimable, take_lease, heartbeat_turn_lease}
use ce_local_studio.Turn.Finalize.{
  Counters, MappedEvidence, complete_turn, fail_turn, cancel_running_turn, persist_evidence_refs,
}
use ce_local_studio.Turn.Redact.{redact_turn}

-- The event kinds that the orchestrator appends while a turn runs.
abbrev pub is_progress : Payload → Bool
is_progress retrieval_started = true
is_progress (retrieval_completed _ _) = true
is_progress (evidence_delta _) = true
is_progress (answer_delta _) = true
is_progress _ = false

-- The status that a client arrives at by reading events in order; `none` for a log that no turn
-- can have.
abbrev pub read_event : Status → Payload → Option Status
read_event running (turn_completed _ _ _ _) = some completed
read_event running (turn_failed _ _) = some failed
read_event running (cancellation _) = some cancelled
read_event running (turn_redacted _) = some redacted
read_event running _ = some running
read_event redacted _ = none
read_event _ (turn_redacted _) = some redacted
read_event _ _ = none

abbrev pub read_log : Option Status → List Event → Option Status
read_log none _ = none
read_log (some status) [] = some status
read_log (some status) (e ∷ es) = read_log (read_event status e.payload) es

-- One transaction.
pub data Step (s : Scope) : Scope → Type 0 where
  emit :
      (p : Payload) (generation : Option ℕ) (now : ℕ) {t : Turn}
      → is_progress p ≡ true
      → persist_event s.turn p generation now ≡ ok t
      → Step s (record s { turn = t })
  keep_evidence :
      (evidence : List MappedEvidence) (generation : Option ℕ) (now : ℕ)
      → Step s (persist_evidence_refs s evidence generation now)
  complete :
      (reason : StopReason) (answer : Option Text) (counters : Counters) (generation : Option ℕ)
      (now : ℕ) {s' : Scope}
      → complete_turn s reason answer counters generation now ≡ ok s'
      → Step s s'
  fail :
      (code : SafeError) (reason : StopReason) (generation : Option ℕ) (now : ℕ) {s' : Scope}
      → fail_turn s code reason generation now ≡ ok s'
      → Step s s'
  cancel : (now : ℕ) {s' : Scope} → cancel_running_turn s now ≡ ok s' → Step s s'
  redact : (now n : ℕ) {s' : Scope} → redact_turn now s ≡ ok (s', n) → Step s s'
  claim :
      (worker seconds now : ℕ)
      → is_claimable s.turn now ≡ true
      → Step s (record s { turn = take_lease worker seconds now s.turn })
  beat :
      (owner seconds generation now : ℕ)
      → Step s (record s { turn = (heartbeat_turn_lease s.turn owner seconds generation now).0 })

pub data Reach (s : Scope) : Scope → Type 0 where
  here : Reach s s
  next : {t u : Scope} → Reach s t → Step t u → Reach s u
