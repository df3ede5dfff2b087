-- ===== src/Turn/Event/Tail.antt =====
-- `_tail_turn_events` and `_assert_event_cursor_available` of
-- app/context_engine/services/chat_turns.py: a reader polls the turn's row, and sees at each poll
-- what has been committed by then. The list of snapshots ends with the idle deadline.
use native.Mathlib.Nat.{add-zero, zero-add}
use ce_local_studio.Base.{
  inl, inr, ℕ, zero, suc, ◌+◌, ◌≡◌, Bool, true, false, Option, none, some, List, [], ◌∷◌, ◌++◌, map,
  arith, length, drop, ltb, if◌then◌else◌, Bool-cases,
}
use ce_local_studio.Turn.Types.{Event, Turn, is_running}
use ce_local_studio.Turn.Event.{stored_events, with_emit_replay}
use ce_local_studio.Turn.Event.Sequence.{Numbered, stored_events-drop}

-- `for event in rows: cursor = event.sequence`
abbrev pub last_sequence : ℕ → List Event → ℕ
last_sequence cursor [] = cursor
last_sequence cursor (e ∷ es) = last_sequence e.sequence es

unfoldable pub tail_turn_events : List (Option Turn) → ℕ → Bool → List Event
tail_turn_events [] cursor terminal_replay = []
tail_turn_events (none ∷ later) cursor terminal_replay = []
tail_turn_events (some current ∷ later) cursor terminal_replay =
    let rows = stored_events current cursor terminal_replay in
    let rest = tail_turn_events later (last_sequence cursor rows) terminal_replay in
    if is_running current.status then rows ++ rest else rows

-- `true` where the cursor is still available; otherwise the call raises `cursor_expired`.
unfoldable pub cursor_available : Turn → ℕ → Bool
cursor_available turn after = if ltb after turn.events_retained_after then false else true

Numbered-drop : (k n : ℕ) (es : List Event) → Numbered k es → Numbered (k + n) (drop n es)
Numbered-drop k zero es h = rw add-zero h
Numbered-drop k (suc n) [] h = tt
Numbered-drop k (suc n) (e ∷ es) h = rw (shift k n) (Numbered-drop (suc k) n es h.1)
  where
    shift : (k n : ℕ) → k + suc n ≡ suc k + n
    shift k n = omega arith

Numbered-emit :
    (t : Turn) (replay : Bool) (k : ℕ) (es : List Event)
    → Numbered k es
    → Numbered k (map (with_emit_replay t replay) es)
unfolding with_emit_replay
Numbered-emit t replay k [] h = tt
Numbered-emit t true k (e ∷ es) h = (h.0, Numbered-emit t true (suc k) es h.1)
Numbered-emit t false k (e ∷ es) h = (h.0, Numbered-emit t false (suc k) es h.1)

Numbered-stored :
    (t : Turn) (after : ℕ) (replay : Bool)
    → Numbered 0 t.events
    → Numbered after (stored_events t after replay)
Numbered-stored t after replay h = rw (stored_events-drop t after replay h) (
    Numbered-emit t replay after (drop after t.events)
      (rw zero-add at (Numbered-drop 0 after t.events h)))

last_sequence-Numbered :
    (k : ℕ) (es : List Event) → Numbered k es → last_sequence k es ≡ k + length es
last_sequence-Numbered k [] h = omega arith
last_sequence-Numbered k (e ∷ es) h = rw h.0 (omega (arith, last_sequence-Numbered (suc k) es h.1))

Numbered-join :
    (k : ℕ) (es fs : List Event)
    → Numbered k es
    → Numbered (k + length es) fs
    → Numbered k (es ++ fs)
Numbered-join k [] fs h g = rw add-zero at g
Numbered-join k (e ∷ es) fs h g =
    (h.0, Numbered-join (suc k) es fs h.1 (rw (shift k (length es)) at g))
  where
    shift : (k n : ℕ) → k + suc n ≡ suc k + n
    shift k n = omega arith

-- Every snapshot has its events numbered.
abbrev pub AllNumbered : List (Option Turn) → Type 0
AllNumbered [] = Unit {0}
AllNumbered (none ∷ later) = AllNumbered later
AllNumbered (some t ∷ later) = Numbered 0 t.events × AllNumbered later

-- A reader that resumes after `cursor` gets the events `cursor + 1`, `cursor + 2`, … with no gap and
-- no event twice, however the polls fall between the writers' transactions.
pub tail_turn_events-Numbered :
    (snapshots : List (Option Turn)) (cursor : ℕ) (replay : Bool)
    → AllNumbered snapshots
    → Numbered cursor (tail_turn_events snapshots cursor replay)
unfolding tail_turn_events
tail_turn_events-Numbered [] cursor replay h = tt
tail_turn_events-Numbered (none ∷ later) cursor replay h = tt
tail_turn_events-Numbered (some t ∷ later) cursor replay h =
    let rows = Numbered-stored t cursor replay h.0 in
    let next = last_sequence-Numbered cursor (stored_events t cursor replay) rows in
    elim (Bool-cases (is_running t.status)) [
      | inl run ↦ rw run (
          Numbered-join cursor (stored_events t cursor replay) _ rows (
            rw (← next) (
              tail_turn_events-Numbered later (last_sequence cursor (stored_events t cursor replay))
                replay h.1)))
      | inr over ↦ rw over rows
    ]
