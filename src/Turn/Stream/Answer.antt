-- ===== src/Turn/Stream/Answer.antt =====
-- What a run of an executor leaves behind when nobody interferes.
use mathlib.Core.Bool.{false≢true}
use ce_local_studio.Base.{
  ℕ, ◌+◌, ◌≡◌, refl, sym, ap, ◌∙◌, true, false, Option, none, some, List, [], ◌∷◌, ◌++◌, map, arith,
  append_assoc, append-nil, ok, ◌⊎◌, inl, inr, Bool-cases, if◌then◌else◌,
}
use ce_local_studio.Turn.Types.{
  Text, completed, failed, by_direct_llm, provider_failure, provider_failed, Payload, answer_delta,
  turn_failed, Event, Turn, Scope,
}
use ce_local_studio.Turn.Event.{persist_event, next_event, execution_fence_open, completed_payload}
use ce_local_studio.Turn.Finalize.{complete_turn, completed_values, failed_values}
use ce_local_studio.Turn.Finalize.Outcome.{complete_turn_lem, fail_turn_lem}
use ce_local_studio.Turn.Stream.{
  Signal, token, exhausted, is_empty, strip, join, answer_loop, stream_direct, provider_fails,
  counts, committed,
}

abbrev pub Tokens : Type 0
Tokens = List (Text × ℕ)

abbrev pub signals_of : Tokens → List Signal
signals_of [] = []
signals_of ((text, at) ∷ rest) = token text at ∷ signals_of rest

-- The tokens that are not empty.
abbrev pub texts : Tokens → List Text
texts [] = []
texts ((text, _) ∷ rest) = if is_empty text then texts rest else text ∷ texts rest

abbrev pub payloads : List Event → List Payload
payloads [] = []
payloads (e ∷ es) = e.payload ∷ payloads es

abbrev pub add_deltas : Tokens → List Event → List Event
add_deltas [] es = es
add_deltas ((text, at) ∷ rest) es = elim (is_empty text) [
  | true ↦ add_deltas rest es
  | false ↦ add_deltas rest (es ++ next_event (answer_delta text) at es ∷ [])
]

abbrev pub logged : Scope → List Event → Scope
logged s es = record s { turn = record s.turn { events = es } }

pub payloads-append : (xs ys : List Event) → payloads (xs ++ ys) ≡ payloads xs ++ payloads ys
payloads-append [] ys = refl
payloads-append (x ∷ xs) ys = ap (λ r. x.payload ∷ r) (payloads-append xs ys)

pub payloads-add_deltas :
    (toks : Tokens) (es : List Event)
    → payloads (add_deltas toks es) ≡ payloads es ++ map answer_delta (texts toks)
payloads-add_deltas [] es = sym (append-nil (payloads es))
payloads-add_deltas (([], at) ∷ rest) es = payloads-add_deltas rest es
payloads-add_deltas ((c ∷ cs, at) ∷ rest) es =
    rw
      (
        payloads-add_deltas rest (es ++ next_event (answer_delta (c ∷ cs)) at es ∷ []),
        payloads-append,
      )
      (append_assoc (payloads es) _ _)

pub persist_open :
    (t : Turn) (p : Payload) (g at : ℕ)
    → execution_fence_open t (some g) ≡ true
    → persist_event t p (some g) at
      ≡ ok (record t { events = t.events ++ next_event p at t.events ∷ [] })
unfolding persist_event execution_fence_open
persist_open t p g at h = ground arith

pub logged_fence :
    (s : Scope) (g : Option ℕ) (es : List Event)
    → execution_fence_open (logged s es).turn g ≡ execution_fence_open s.turn g
unfolding execution_fence_open
logged_fence s g es = refl

pub answer_loop-empty :
    (g at : ℕ) (rest : List Signal) (acc : List Text) (s : Scope)
    → execution_fence_open s.turn (some g) ≡ true
    → answer_loop g (token [] at ∷ rest) acc s ≡ answer_loop g rest acc s
unfolding answer_loop
answer_loop-empty g at rest acc s h = rw (h, answer_loop)

pub answer_loop-token :
    (g at c : ℕ) (cs : Text) (rest : List Signal) (acc : List Text) (s : Scope)
    → execution_fence_open s.turn (some g) ≡ true
    → answer_loop g (token (c ∷ cs) at ∷ rest) acc s
      ≡ answer_loop g rest
          (acc ++ (c ∷ cs) ∷ [])
          (logged s (s.turn.events ++ next_event (answer_delta (c ∷ cs)) at s.turn.events ∷ []))
unfolding answer_loop
answer_loop-token g at c cs rest acc s h =
    rw (h, answer_loop) (rw (persist_open s.turn (answer_delta (c ∷ cs)) g at h, answer_loop))

pub answer_loop_undisturbed :
    (g : ℕ) (toks : Tokens) (acc : List Text) (s : Scope)
    → execution_fence_open s.turn (some g) ≡ true
    → answer_loop g (signals_of toks) acc s
      ≡ (exhausted (acc ++ texts toks), logged s (add_deltas toks s.turn.events))
unfolding answer_loop
answer_loop_undisturbed g [] acc s h = rw append-nil
answer_loop_undisturbed g (([], at) ∷ rest) acc s h =
    answer_loop-empty g at (signals_of rest) acc s h ∙ answer_loop_undisturbed g rest acc s h
answer_loop_undisturbed g ((c ∷ cs, at) ∷ rest) acc s h =
    answer_loop-token g at c cs (signals_of rest) acc s h
    ∙ answer_loop_undisturbed g rest _ _ (logged_fence s (some g) _ ∙ h)
    ∙ rw append_assoc

-- All that the provider said, in order.
abbrev pub said : Tokens → Text
said [] = []
said ((text, _) ∷ rest) = text ++ said rest

pub join-texts : (toks : Tokens) → join (texts toks) ≡ said toks
join-texts [] = refl
join-texts (([], at) ∷ rest) = join-texts rest
join-texts ((c ∷ cs, at) ∷ rest) = ap (λ r. (c ∷ cs) ++ r) (join-texts rest)

-- How an undisturbed direct answer ends.
abbrev pub Answered : Scope → Tokens → Scope → Type 0
Answered s toks s' =
    (s'.turn.status ≡ completed)
    × (s'.turn.stop_reason ≡ some by_direct_llm)
    × (s'.turn.assistant_answer ≡ some (strip (said toks)))
    × (payloads s'.turn.events
        ≡ payloads s.turn.events
          ++ map answer_delta (texts toks)
          ++ completed_payload s'.turn false ∷ [])
    × (s'.version ≡ s.version + 1)

abbrev pub GaveUp : Scope → Tokens → Scope → Type 0
GaveUp s toks s' =
    (s'.turn.status ≡ failed)
    × (s'.turn.stop_reason ≡ some provider_failure)
    × (s'.turn.assistant_answer ≡ none)
    × (payloads s'.turn.events
        ≡ payloads s.turn.events
          ++ map answer_delta (texts toks)
          ++ turn_failed provider_failed false ∷ [])
    × (s'.version ≡ s.version + 1)

payloads-ended :
    (s : Scope) (toks : Tokens) (p : Payload) (now : ℕ)
    → payloads
        (add_deltas toks s.turn.events ++ next_event p now (add_deltas toks s.turn.events) ∷ [])
      ≡ payloads s.turn.events ++ map answer_delta (texts toks) ++ p ∷ []
payloads-ended s toks p now =
    payloads-append (add_deltas toks s.turn.events) _ ∙ rw (payloads-add_deltas toks s.turn.events)

finish_failed :
    (s : Scope) (toks : Tokens) (g now : ℕ)
    → execution_fence_open s.turn (some g) ≡ true
    → GaveUp s toks (provider_fails g now (logged s (add_deltas toks s.turn.events)))
unfolding provider_fails failed_values
finish_failed s toks g now h =
    elim (fail_turn_lem (logged s (add_deltas toks s.turn.events)) provider_failed provider_failure
      (some g) now) [
        | inl (_, q) ↦
            rw q (
              refl,
              refl,
              refl,
              payloads-ended s toks (turn_failed provider_failed false) now,
              refl,
            )
        | inr (o, _) ↦ absurd (false≢true (sym o ∙ logged_fence s (some g) _ ∙ h))
      ]

finish_completed :
    (s : Scope) (toks : Tokens) (g now : ℕ)
    → execution_fence_open s.turn (some g) ≡ true
    → let s1 = logged s (add_deltas toks s.turn.events) in
      Answered s toks (
        committed s1
          (complete_turn s1 by_direct_llm (some (strip (said toks))) (counts 0 0 0) (some g) now))
unfolding completed_values completed_payload
finish_completed s toks g now h =
    let s1 = logged s (add_deltas toks s.turn.events) in
    elim (complete_turn_lem s1 by_direct_llm (some (strip (said toks))) (counts 0 0 0) (some g)
      now) [
        | inl (_, q) ↦ rw q (refl, refl, refl, payloads-ended s toks _ now, refl)
        | inr (o, _) ↦ absurd (false≢true (sym o ∙ logged_fence s (some g) _ ∙ h))
      ]

-- A direct answer with no interference: every token that is not empty is logged as one
-- `answer.delta`, in order; then the turn completes with the stripped concatenation of all tokens,
-- or fails as `provider_failure` where that is empty.
pub stream_direct_undisturbed :
    (g now : ℕ) (toks : Tokens) (s : Scope)
    → execution_fence_open s.turn (some g) ≡ true
    → let s' = stream_direct g (signals_of toks) now s in
      ((is_empty (strip (said toks)) ≡ false) × Answered s toks s')
      ⊎ ((is_empty (strip (said toks)) ≡ true) × GaveUp s toks s')
unfolding stream_direct
stream_direct_undisturbed g now toks s h = rw (answer_loop_undisturbed g toks [] s h) (
    rw (logged_fence s (some g) (add_deltas toks s.turn.events), h, join-texts toks)
      (elim (Bool-cases (is_empty (strip (said toks)))) [
        | inl none_said ↦ inr (none_said, rw none_said (finish_failed s toks g now h))
        | inr some_said ↦ inl (some_said, rw some_said (finish_completed s toks g now h))
      ]))
