-- ===== src/Turn/Finalize.antt =====
-- Ending a turn: `_finalize_turn_if_running`, `_complete_turn`, `_fail_turn`,
-- `_cancel_running_turn`, `_persist_evidence_refs` and `_mark_conversation_changed` of
-- app/context_engine/services/chat_turns.py. Logs, metrics and traces are left out. A clock reading
-- is an argument; the writes of one database transaction are one step.
pub mod Outcome
use ce_local_studio.Base.{
  ℕ, suc, ◌+◌, max, Bool, true, false, not, ◌&&◌, Option, none, some, List, [], ◌∷◌, ◌++◌, Result,
  ok, err, ◌>>=◌, if◌then◌else◌, or_else,
}
use ce_local_studio.Turn.Types.{
  Text, StopReason, by_cancel, Status, running, completed, failed, cancelled, SafeError,
  turn_cancelled, EvidenceRef, Turn, Scope, Payload, turn_failed, cancellation, is_running,
}
use ce_local_studio.Turn.Event.{
  Fault, persist_event, completed_payload, generation_lost, execution_fence_open,
}

unfoldable pub mark_conversation_changed : ℕ → Scope → Scope
mark_conversation_changed now s = record s {
  version = s.version + 1;
  conversation_updated_at = now;
}

-- `**_clear_turn_lease_values()`
unfoldable pub clear_turn_lease : Turn → Turn
clear_turn_lease t = record t { lease_owner = none; lease_expires_at = none; claimable_at = none }

-- The compare-and-set `UPDATE … WHERE status = 'running' [AND execution_generation = …]`. `values`
-- writes the columns. The Boolean is false where no row matched, and the transaction is rolled back.
unfoldable pub finalize_turn_if_running : Scope → (Turn → Turn) → ℕ → Option ℕ → Scope × Bool
unfolding mark_conversation_changed
finalize_turn_if_running s values updated_at execution_generation =
    if is_running s.turn.status
      && not (generation_lost execution_generation s.turn.execution_generation)
    then (mark_conversation_changed updated_at (record s { turn = values s.turn }), true)
    else (s, false)

-- What follows a finalize that matched: the terminal event is appended in the same transaction, so
-- a `RuntimeError` there rolls all of it back.
abbrev with_event : Scope → Payload → Option ℕ → ℕ → Result Fault Scope
with_event s payload execution_generation now = do
  turn ← persist_event s.turn payload execution_generation now
  ok (record s { turn = turn })

-- The counters that `_complete_turn` is given, each only if it is not `None`.
pub record Counters : Type 0 where
  pub plan_steps : Option ℕ
  pub retrievals : Option ℕ
  pub repairs : Option ℕ

unfoldable pub completed_values : StopReason → Option Text → Counters → ℕ → Turn → Turn
unfolding clear_turn_lease
completed_values stop_reason answer counters now t = record (clear_turn_lease t) {
  status = completed;
  stop_reason = some stop_reason;
  assistant_answer = answer;
  safe_error_code = none;
  completed_at = some now;
  updated_at = now;
  plan_step_count = or_else counters.plan_steps t.plan_step_count;
  retrieval_operation_count = or_else counters.retrievals t.retrieval_operation_count;
  repair_attempt_count = or_else counters.repairs t.repair_attempt_count;
}

unfoldable pub complete_turn :
    Scope → StopReason → Option Text → Counters → Option ℕ → ℕ → Result Fault Scope
unfolding finalize_turn_if_running completed_values persist_event
complete_turn s stop_reason answer counters generation now =
    let (s', matched) =
      finalize_turn_if_running s (completed_values stop_reason answer counters now) now
        generation in
    if matched then with_event s' (completed_payload s'.turn false) generation now else ok s

unfoldable pub failed_values : SafeError → StopReason → ℕ → Turn → Turn
unfolding clear_turn_lease
failed_values code stop_reason now t = record (clear_turn_lease t) {
  status = failed;
  stop_reason = some stop_reason;
  assistant_answer = none;
  safe_error_code = some code;
  completed_at = some now;
  updated_at = now;
}

unfoldable pub fail_turn : Scope → SafeError → StopReason → Option ℕ → ℕ → Result Fault Scope
unfolding finalize_turn_if_running failed_values persist_event
fail_turn s code stop_reason generation now =
    let (s', matched) =
      finalize_turn_if_running s (failed_values code stop_reason now) now generation in
    if matched then with_event s' (turn_failed code false) generation now else ok s

unfoldable pub cancelled_values : ℕ → Turn → Turn
unfolding clear_turn_lease
cancelled_values now t = record (clear_turn_lease t) {
  status = cancelled;
  stop_reason = some by_cancel;
  assistant_answer = none;
  safe_error_code = some turn_cancelled;
  completed_at = some now;
  updated_at = now;
}

unfoldable pub cancel_running_turn : Scope → ℕ → Result Fault Scope
unfolding finalize_turn_if_running cancelled_values persist_event
cancel_running_turn s now =
    if not (is_running s.turn.status)
    then ok s
    else let (s', matched) = finalize_turn_if_running s (cancelled_values now) now none in
      if matched then with_event s' (cancellation false) none now else ok s

-- An item of retrieved evidence, as it becomes a row; `public_ref` is the fresh id of the row.
pub record MappedEvidence : Type 0 where
  pub public_ref : ℕ
  pub source_document_id : ℕ
  pub source_block_id : ℕ
  pub source_label : ℕ
  pub excerpt : Text

-- `enumerate(evidence, start=1)`; the citation label `[i]` is the number `i`.
abbrev pub evidence_rows : ℕ → List MappedEvidence → List EvidenceRef
evidence_rows index [] = []
evidence_rows index (item ∷ items) =
    record {
      public_ref = item.public_ref;
      evidence_order = index;
      source_document_id = item.source_document_id;
      source_block_id = item.source_block_id;
      citation_label = some index;
      source_label = some item.source_label;
      excerpt = some item.excerpt;
      redacted_at = none;
    }
    ∷ evidence_rows (suc index) items

unfoldable pub persist_evidence_refs : Scope → List MappedEvidence → Option ℕ → ℕ → Scope
unfolding mark_conversation_changed execution_fence_open
persist_evidence_refs s evidence generation now =
    if not (execution_fence_open s.turn generation)
    then s
    else mark_conversation_changed now (record s {
      turn = record s.turn {
        evidence_refs = s.turn.evidence_refs ++ evidence_rows 1 evidence;
        retrieval_operation_count = max s.turn.retrieval_operation_count 1;
        updated_at = now;
      };
    })
