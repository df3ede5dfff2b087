-- ===== src/Turn/Finalize/Outcome.antt =====
-- How a turn ends: exactly once, by its current executor or a user, with its terminal event.
use ce_local_studio.Base.{
  ℕ, ◌+◌, ◌≡◌, true, false, Option, [], ◌∷◌, ◌++◌, arith, ok, ◌⊎◌, inl, inr, Bool-cases,
}
use ce_local_studio.Turn.Types.{
  Text, StopReason, SafeError, Turn, Scope, Payload, turn_failed, cancellation, is_running,
}
use ce_local_studio.Turn.Event.{
  generation_lost, completed_payload, next_event, execution_fence_open,
}
use ce_local_studio.Turn.Finalize.{
  Counters, complete_turn, completed_values, fail_turn, failed_values, cancel_running_turn,
  cancelled_values, finalize_turn_if_running,
}

-- What one terminal write does to a scope: the columns, one event at the end of the log, and the
-- conversation's version.
abbrev pub Ended : Scope → Turn → Payload → ℕ → Scope
Ended s t payload now = record {
  turn = record t { events = t.events ++ next_event payload now t.events ∷ [] };
  version = s.version + 1;
  conversation_updated_at = now;
}

pub fence_open :
    (t : Turn) (g : Option ℕ)
    → execution_fence_open t g ≡ true
    → (is_running t.status ≡ true) × (generation_lost g t.execution_generation ≡ false)
unfolding execution_fence_open
fence_open t g h = ground arith

no_match :
    (s : Scope) (values : Turn → Turn) (now : ℕ) (g : Option ℕ)
    → execution_fence_open s.turn g ≡ false
    → finalize_turn_if_running s values now g ≡ (s, false)
unfolding finalize_turn_if_running execution_fence_open
no_match s values now g h = ground arith

complete_turn-open :
    (s : Scope) (r : StopReason) (a : Option Text) (c : Counters) (g : Option ℕ) (now : ℕ)
    → (is_running s.turn.status ≡ true)
    → generation_lost g s.turn.execution_generation ≡ false
    → let t = completed_values r a c now s.turn in
      complete_turn s r a c g now ≡ ok (Ended s t (completed_payload t false) now)
unfolding complete_turn completed_payload
complete_turn-open s r a c g now run gen = rw (run, gen) (rw gen)

complete_turn-closed :
    (s : Scope) (r : StopReason) (a : Option Text) (c : Counters) (g : Option ℕ) (now : ℕ)
    → execution_fence_open s.turn g ≡ false
    → complete_turn s r a c g now ≡ ok s
unfolding complete_turn completed_payload
complete_turn-closed s r a c g now h = rw (no_match s (completed_values r a c now) now g h)

-- `_complete_turn` never raises. While the executor's fence is open it ends the turn, with one
-- `turn.completed` event and one version; otherwise nothing changes.
pub complete_turn_lem :
    (s : Scope) (r : StopReason) (a : Option Text) (c : Counters) (g : Option ℕ) (now : ℕ)
    → let t = completed_values r a c now s.turn in
      ((execution_fence_open s.turn g ≡ true)
        × (complete_turn s r a c g now ≡ ok (Ended s t (completed_payload t false) now)))
      ⊎ ((execution_fence_open s.turn g ≡ false) × (complete_turn s r a c g now ≡ ok s))
complete_turn_lem s r a c g now = elim (Bool-cases (execution_fence_open s.turn g)) [
  | inl o ↦
      inl (o, complete_turn-open s r a c g now (fence_open s.turn g o).0 (fence_open s.turn g o).1)
  | inr o ↦ inr (o, complete_turn-closed s r a c g now o)
]

-- `_fail_turn` never raises. While the executor's fence is open it ends the turn, with one
-- `turn.failed` event and one version; otherwise nothing changes.
pub fail_turn_lem :
    (s : Scope) (code : SafeError) (r : StopReason) (g : Option ℕ) (now : ℕ)
    → ((execution_fence_open s.turn g ≡ true)
        × (fail_turn s code r g now
            ≡ ok (Ended s (failed_values code r now s.turn) (turn_failed code false) now)))
      ⊎ ((execution_fence_open s.turn g ≡ false) × (fail_turn s code r g now ≡ ok s))
unfolding fail_turn execution_fence_open
fail_turn_lem s code r g now = ground arith

-- A cancel never raises. While the turn runs, whatever generation executes it, the cancel ends it,
-- with one `turn.cancelled` event and one version; otherwise nothing changes.
pub cancel_running_turn_lem :
    (s : Scope) (now : ℕ)
    → ((is_running s.turn.status ≡ true)
        × (cancel_running_turn s now
            ≡ ok (Ended s (cancelled_values now s.turn) (cancellation false) now)))
      ⊎ ((is_running s.turn.status ≡ false) × (cancel_running_turn s now ≡ ok s))
unfolding cancel_running_turn
cancel_running_turn_lem s now = ground arith
