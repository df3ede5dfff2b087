-- ===== src/Turn/Event/Sequence.antt =====
-- The sequence numbers of a turn's events, and what a reader sees from a cursor on.
use ce_local_studio.Base.{
  ℕ, zero, suc, ◌+◌, ◌≤◌, max, ◌≡◌, refl, ap, Bool, true, List, [], ◌∷◌, ◌++◌, map, arith, ok,
  Option, length, drop, select, ltb,
}
use ce_local_studio.Turn.Types.{Payload, Event, Turn}
use ce_local_studio.Turn.Event.{
  max_sequence, next_event, persist_event, may_append, stored_events, with_emit_replay,
}

-- The events that follow the `k`-th carry the numbers `k + 1`, `k + 2`, …
abbrev pub Numbered : ℕ → List Event → Type 0
Numbered k [] = Unit {0}
Numbered k (e ∷ es) = (e.sequence ≡ suc k) × Numbered (suc k) es

Numbered-append :
    (k : ℕ) (es : List Event) (e : Event)
    → Numbered k es
    → e.sequence ≡ suc (k + length es)
    → Numbered k (es ++ e ∷ [])
Numbered-append k [] e h p = (omega arith, tt)
Numbered-append k (x ∷ es) e h p = (h.0, Numbered-append (suc k) es e h.1 (omega arith))

max_sequence-Numbered :
    (k : ℕ) (es : List Event) → Numbered k es → max k (max_sequence es) ≡ k + length es
max_sequence-Numbered k [] h = omega arith
max_sequence-Numbered k (e ∷ es) h = omega (arith, h.0, max_sequence-Numbered (suc k) es h.1)

pub Numbered-next_event :
    (payload : Payload) (now : ℕ) (es : List Event)
    → Numbered 0 es
    → Numbered 0 (es ++ next_event payload now es ∷ [])
Numbered-next_event payload now es h =
    Numbered-append 0 es (next_event payload now es) h (omega (arith, max_sequence-Numbered 0 es h))

abbrev above : ℕ → Event → Bool
above m row = ltb m row.sequence

select-all : (m k : ℕ) (es : List Event) → m ≤ k → Numbered k es → select (above m) es ≡ es
select-all m k [] le h = refl
select-all m k (e ∷ es) le h = ground (arith, select-all m (suc k) es, h.0)

select-after :
    (m k n : ℕ) (es : List Event) → m ≡ k + n → Numbered k es → select (above m) es ≡ drop n es
select-after m k zero es q h = select-all m k es (omega arith) h
select-after m k (suc n) [] q h = refl
select-after m k (suc n) (e ∷ es) q h = ground (arith, select-after m (suc k) n es, h.0)

-- Appending an event keeps a turn's events numbered 1, 2, 3, … and leaves the earlier ones alone.
pub persist_event-Numbered :
    (t t' : Turn) (p : Payload) (generation : Option ℕ) (now : ℕ)
    → Numbered 0 t.events
    → persist_event t p generation now ≡ ok t'
    → Numbered 0 t'.events × (t'.events ≡ t.events ++ next_event p now t.events ∷ [])
unfolding persist_event
persist_event-Numbered t t' p generation now h e =
    ground (arith, Numbered-next_event p now t.events h)

-- A read after cursor `after` returns the events that follow the first `after` ones, each as
-- `_with_emit_replay` shows it.
pub stored_events-drop :
    (t : Turn) (after : ℕ) (replay : Bool)
    → Numbered 0 t.events
    → stored_events t after replay ≡ map (with_emit_replay t replay) (drop after t.events)
unfolding stored_events
stored_events-drop t after replay h =
    ap (map (with_emit_replay t replay)) (select-after after 0 after t.events (omega arith) h)

pub persist_event-ok :
    (t t' : Turn) (p : Payload) (g : Option ℕ) (now : ℕ)
    → persist_event t p g now ≡ ok t'
    → (may_append t.status p ≡ true)
      × (t' ≡ record t { events = t.events ++ next_event p now t.events ∷ [] })
unfolding persist_event
persist_event-ok t t' p g now h = ground arith
