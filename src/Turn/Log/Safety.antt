-- ===== src/Turn/Log/Safety.antt =====
-- The invariant of a turn under every interleaving of its parties.
use ce_local_studio.Base.{
  ℕ, suc, ◌≡◌, refl, sym, ap, ◌∙◌, Bool, true, false, Option, none, some, is_some, List, [], ◌∷◌,
  ◌++◌, map, arith, ◌⊎◌, inl, inr,
}
use ce_local_studio.Turn.Types.{
  Status, running, completed, failed, cancelled, redacted, Payload, answer_delta, turn_redacted,
  Event, Turn, is_running, is_redacted,
}
use ce_local_studio.Turn.Event.{next_event, may_append}
use ce_local_studio.Turn.Event.Sequence.{Numbered, Numbered-next_event}
use ce_local_studio.Turn.Redact.{sanitize, sanitize_event}
use ce_local_studio.Turn.Redact.Erasure.{IsErased}
use ce_local_studio.Turn.Log.{is_progress, read_event, read_log}

abbrev pub is_over : Status → Bool
is_over completed = true
is_over failed = true
is_over cancelled = true
is_over _ = false

-- What a running turn does not have yet, and what an ended one has given up.
abbrev pub Live : Turn → Type 0
Live t =
    (t.status ≡ running)
    × (t.assistant_answer ≡ none)
    × (t.completed_at ≡ none)
    × (t.stop_reason ≡ none)

abbrev pub Over : Turn → Type 0
Over t =
    (is_over t.status ≡ true)
    × (t.lease_owner ≡ none)
    × (t.lease_expires_at ≡ none)
    × (t.claimable_at ≡ none)
    × (is_some t.completed_at ≡ true)
    × (is_some t.stop_reason ≡ true)

pub record IsValid (t : Turn) : Type 0 where
  pub numbered : Numbered 0 t.events
  pub told : read_log (some running) t.events ≡ some t.status
  pub settled : Live t ⊎ Over t ⊎ IsErased t

read_log-nil : (o : Option Status) → read_log o [] ≡ o
read_log-nil none = refl
read_log-nil (some s) = refl

read_log-append :
    (o : Option Status) (es : List Event) (e : Event) {s : Status}
    → read_log o es ≡ some s
    → read_log o (es ++ e ∷ []) ≡ read_event s e.payload
read_log-append none es e h = cc
read_log-append (some r) [] e h = cc (read_log-nil (read_event r e.payload))
read_log-append (some r) (x ∷ es) e h = read_log-append (read_event r x.payload) es e h

read_event-sanitize : (s : Status) (p : Payload) → read_event s (sanitize p) ≡ read_event s p
unfolding sanitize
read_event-sanitize s (answer_delta text) = ground arith
read_event-sanitize s _ = ground arith

read_log-sanitize :
    (o : Option Status) (es : List Event) → read_log o (map sanitize_event es) ≡ read_log o es
read_log-sanitize none es = refl
read_log-sanitize (some s) [] = refl
read_log-sanitize (some s) (e ∷ es) =
    ap (λ o. read_log o (map sanitize_event es)) (read_event-sanitize s e.payload)
    ∙ read_log-sanitize (read_event s e.payload) es

Numbered-sanitize : (k : ℕ) (es : List Event) → Numbered k es → Numbered k (map sanitize_event es)
Numbered-sanitize k [] h = tt
Numbered-sanitize k (e ∷ es) h = (h.0, Numbered-sanitize (suc k) es h.1)

-- Appending an event that the log's status allows.
abbrev pub Log : List Event → Status → Type 0
Log es status = Numbered 0 es × (read_log (some running) es ≡ some status)

pub Log-append :
    (es : List Event) (p : Payload) (now : ℕ) {s s' : Status}
    → Log es s
    → read_event s p ≡ some s'
    → Log (es ++ next_event p now es ∷ []) s'
Log-append es p now h e = (
  Numbered-next_event p now es h.0,
  read_log-append (some running) es (next_event p now es) h.1 ∙ e,
)

pub Log-sanitize : (es : List Event) {s : Status} → Log es s → Log (map sanitize_event es) s
Log-sanitize es h = (Numbered-sanitize 0 es h.0, read_log-sanitize (some running) es ∙ h.1)

pub running_of_test : {s : Status} → is_running s ≡ true → s ≡ running
running_of_test {s} h = ground arith

pub read_redacted :
    (s : Status) (now : ℕ)
    → is_redacted s ≡ false
    → read_event s (turn_redacted now) ≡ some redacted
read_redacted s now h = ground arith

read_progress : (p : Payload) → is_progress p ≡ true → read_event running p ≡ some running
read_progress p h = ground arith

pub progress_needs_running :
    (s : Status) (p : Payload) → is_progress p ≡ true → may_append s p ≡ true → s ≡ running
progress_needs_running s p h m = ground arith

module _ (t : Turn) (v : IsValid t) (run : t.status ≡ running) where
  pub running-Live : Live t
  running-Live = ground (arith, v.settled)

  running-Log : Log t.events running
  running-Log = (v.numbered, rw run at v.told)

  -- A terminal write, whose event says what it writes into the columns.
  pub ended-IsValid :
      (u : Turn) (p : Payload) (now : ℕ)
      → u.events ≡ t.events
      → read_event running p ≡ some u.status
      → Over u
      → IsValid (record u { events = u.events ++ next_event p now u.events ∷ [] })
  ended-IsValid u p now e r h =
      let log = Log-append u.events p now {s = running} (rw e running-Log) r in
      record { numbered = log.0; told = log.1; settled = inr (inl h) }

  pub emitted-IsValid :
      (p : Payload) (now : ℕ)
      → is_progress p ≡ true
      → IsValid (record t { events = t.events ++ next_event p now t.events ∷ [] })
  emitted-IsValid p now h =
      let log = Log-append t.events p now {s = running} running-Log (read_progress p h) in
      record { numbered = log.0; told = log.1 ∙ ap some (sym run); settled = inl (running-Live) }
