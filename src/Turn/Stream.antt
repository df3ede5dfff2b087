-- ===== src/Turn/Stream.antt =====
-- `TurnOrchestrator` and the execution of a claimed turn in `ConversationTurnWorker.run_once`
-- (app/context_engine/services/chat_turns.py). The provider's stream is a list of signals; among them
-- stand the transactions that other parties commit meanwhile. The worker discards the events that
-- the generators yield, so a run is the state that it has committed; a `RuntimeError` ends it with
-- what was committed before.
pub mod Answer
pub mod Open
pub mod Grounded
pub mod Progress
use ce_local_studio.Base.{
  ℕ, Bool, true, false, not, ◌&&◌, ◌||◌, Option, none, some, List, [], ◌∷◌, ◌++◌, Result, ok, err,
  length, any, leb, ◌==◌, if◌then◌else◌,
}
use ce_local_studio.Turn.Types.{
  Text, Route, direct_llm, domain_rag, StopReason, by_direct_llm, grounded, no_grounded_context,
  evidence_only, provider_failure, SafeError, provider_failed, passed_on, EvidenceRef, Payload,
  retrieval_started, retrieval_completed, evidence_delta, answer_delta, Event, Turn, Scope,
}
use ce_local_studio.Turn.Event.{
  Fault, persist_event, execution_fence_open, public_evidence_refs, is_answer_delta,
}
use ce_local_studio.Turn.Finalize.{
  Counters, MappedEvidence, complete_turn, fail_turn, persist_evidence_refs,
}

-- The white space of `str.strip`.
abbrev pub is_space : ℕ → Bool
is_space c =
    leb 9 c && leb c 13
    || leb 28 c && leb c 32
    || (c == 133)
    || (c == 160)
    || (c == 5760)
    || leb 8192 c && leb c 8202
    || (c == 8232)
    || (c == 8233)
    || (c == 8239)
    || (c == 8287)
    || (c == 12288)

abbrev pub is_empty {ℓ} : {A : Type ℓ} → List A → Bool
is_empty [] = true
is_empty (_ ∷ _) = false

pub lstrip : Text → Text
lstrip [] = []
lstrip (c ∷ cs) = let rest = lstrip cs in if is_space c then rest else c ∷ cs

pub rstrip : Text → Text
rstrip [] = []
rstrip (c ∷ cs) = let rest = rstrip cs in if is_empty rest && is_space c then [] else c ∷ rest

unfoldable pub strip : Text → Text
unfolding lstrip rstrip
strip t = rstrip (lstrip t)

-- `"".join(tokens)`
abbrev pub join : List Text → Text
join [] = []
join (t ∷ ts) = t ++ join ts

-- What happens while the provider streams: a token that arrives at an instant, an exception (a
-- `RuntimeError` or another), the loss of the lease that closes the generator, or a transaction of
-- someone else.
pub data Signal : Type 0 where
  token : (text : Text) (now : ℕ) → Signal
  raises : (runtime_error : Bool) → Signal
  lost : Signal
  meanwhile : (Scope → Scope) → Signal

-- How the loop over the tokens is left.
pub data Left : Type 0 where
  exhausted : (tokens : List Text) → Left
  closed : Left
  provider_error : (answer_delta_persisted : Bool) → Left

unfoldable pub answer_loop : ℕ → List Signal → List Text → Scope → Left × Scope
answer_loop generation [] tokens s = (exhausted tokens, s)
answer_loop generation (raises true ∷ rest) tokens s = (closed, s)
answer_loop generation (raises false ∷ rest) tokens s = (provider_error (not (is_empty tokens)), s)
answer_loop generation (lost ∷ rest) tokens s = (closed, s)
answer_loop generation (meanwhile other ∷ rest) tokens s =
    answer_loop generation rest tokens (other s)
answer_loop generation (token text now ∷ rest) tokens s =
    elim (execution_fence_open s.turn (some generation)) [
      | false ↦ (closed, s)
      | true ↦ elim (is_empty text) [
        | true ↦ answer_loop generation rest tokens s
        | false ↦ elim (persist_event s.turn (answer_delta text) (some generation) now) [
          | err _ ↦ (closed, s)
          | ok t ↦ answer_loop generation rest (tokens ++ text ∷ []) (record s { turn = t })
        ]
      ]
    ]

-- What is committed of a call that may raise `RuntimeError`.
abbrev pub committed : Scope → Result Fault Scope → Scope
committed s (ok s') = s'
committed s (err _) = s

abbrev pub counts : ℕ → ℕ → ℕ → Counters
counts plan_steps retrievals repairs = record {
  plan_steps = some plan_steps;
  retrievals = some retrievals;
  repairs = some repairs;
}

unfoldable pub provider_fails : ℕ → ℕ → Scope → Scope
provider_fails generation now s =
    committed s (fail_turn s provider_failed provider_failure (some generation) now)

-- The rest of `_stream_direct`, after its `try` block.
abbrev pub finish_direct : ℕ → ℕ → Left → Scope → Scope
finish_direct generation now closed s = s
finish_direct generation now (provider_error _) s = provider_fails generation now s
finish_direct generation now (exhausted tokens) s =
    if not (execution_fence_open s.turn (some generation))
    then s
    else let answer = strip (join tokens) in
      if is_empty answer
      then provider_fails generation now s
      else committed s
          (complete_turn s by_direct_llm (some answer) (counts 0 0 0) (some generation) now)

unfoldable pub stream_direct : ℕ → List Signal → ℕ → Scope → Scope
unfolding answer_loop
stream_direct generation signals now s =
    let (left, s') = answer_loop generation signals [] s in finish_direct generation now left s'

unfoldable pub evidence_only_answer : ℕ → ℕ → Scope → Scope
evidence_only_answer generation now s =
    committed s (complete_turn s evidence_only none (counts 1 1 0) (some generation) now)

-- The rest of `_stream_domain_rag`, after the loop over the tokens.
abbrev pub finish_grounded : ℕ → ℕ → Left → Scope → Scope
finish_grounded generation now closed s = s
finish_grounded generation now (provider_error true) s = provider_fails generation now s
finish_grounded generation now (provider_error false) s = evidence_only_answer generation now s
finish_grounded generation now (exhausted tokens) s =
    if not (execution_fence_open s.turn (some generation))
    then s
    else let answer = strip (join tokens) in
      if is_empty answer
      then (if is_empty tokens
          then evidence_only_answer generation now s
          else provider_fails generation now s)
      else committed s (complete_turn s grounded (some answer) (counts 1 1 0) (some generation) now)

-- What `P6RetrievalPort.retrieve` comes back with: a `ChatTurnError` or the evidence. Another
-- exception is not modelled.
pub data Retrieval : Type 0 where
  refused : (code : ℕ) → Retrieval
  found : List MappedEvidence → Retrieval

-- `_persist_event` and what follows it; a `RuntimeError` ends the run.
abbrev pub then_event : Scope → Payload → ℕ → ℕ → (Scope → Scope) → Scope
then_event s payload generation now rest =
    elim (persist_event s.turn payload (some generation) now) [
      | err _ ↦ s
      | ok t ↦ rest (record s { turn = t })
    ]

-- `project` is what the source and block tables say of a reference, `_projected_turn_evidence_item`.
unfoldable pub stream_evidence :
    ℕ → List MappedEvidence → (List EvidenceRef → List ℕ) → List Signal → ℕ → Scope → Scope
unfolding answer_loop
stream_evidence generation evidence project signals now s =
    if not (execution_fence_open s.turn (some generation))
    then s
    else then_event s (evidence_delta (project (public_evidence_refs s.turn))) generation now λ s1.
      then_event s1 (retrieval_completed true (length (public_evidence_refs s1.turn))) generation
        now
        λ s2.
          let (left, s3) = answer_loop generation signals [] s2 in
          finish_grounded generation now left s3

abbrev pub after_retrieval :
    ℕ → Retrieval → (List EvidenceRef → List ℕ) → List Signal → ℕ → Scope → Scope
after_retrieval generation (refused code) project signals now s =
    committed s (fail_turn s (passed_on code) provider_failure (some generation) now)
after_retrieval generation (found evidence) project signals now s =
    if not (execution_fence_open s.turn (some generation))
    then s
    else if is_empty evidence
    then (then_event s (retrieval_completed false 0) generation now λ s1.
        committed s1
          (complete_turn s1 no_grounded_context none (counts 1 1 0) (some generation) now))
    else stream_evidence generation evidence project signals now
        (persist_evidence_refs s evidence (some generation) now)

-- `during` is what others commit while the retrieval runs.
unfoldable pub stream_domain_rag :
    ℕ → (Scope → Scope) → Retrieval → (List EvidenceRef → List ℕ) → List Signal → ℕ → Scope → Scope
unfolding stream_evidence provider_fails evidence_only_answer
stream_domain_rag generation during retrieval project signals now s =
    if not (execution_fence_open s.turn (some generation))
    then s
    else then_event s retrieval_started generation now
        λ s1. after_retrieval generation retrieval project signals now (during s1)

-- `_has_answer_delta`
unfoldable pub has_answer_delta : Turn → Bool
has_answer_delta t = any (λ row. is_answer_delta row.payload) t.events

-- What the outside supplies to a run: the synthesis profile or the code of `ChatTurnError`, the
-- retrieval and the stream.
pub record Supplies : Type 0 where
  pub synthesis_error : Option ℕ
  pub during : Scope → Scope
  pub retrieval : Retrieval
  pub project : List EvidenceRef → List ℕ
  pub signals : List Signal

abbrev pub route_stream : Route → ℕ → Supplies → ℕ → Scope → Scope
route_stream direct_llm generation x now s = stream_direct generation x.signals now s
route_stream domain_rag generation x now s =
    stream_domain_rag generation x.during x.retrieval x.project x.signals now s

-- `run_once` from the claim on: an interrupted answer is failed, never continued.
unfoldable pub execute_claimed : Supplies → ℕ → Scope → Scope
unfolding has_answer_delta stream_direct stream_domain_rag provider_fails
execute_claimed x now s =
    let generation = s.turn.execution_generation in
    if has_answer_delta s.turn then provider_fails generation now s else elim x.synthesis_error [
      | some code ↦
          committed s (fail_turn s (passed_on code) provider_failure (some generation) now)
      | none ↦ route_stream s.turn.route generation x now s
    ]
