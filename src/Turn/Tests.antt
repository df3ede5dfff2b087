-- ===== src/Turn/Tests.antt =====
-- Turns of a small conversation, and the theorems at them.
use ce_local_studio.Base.{
  ℕ, ◌+◌, ◌≡◌, ◌≢◌, ◌⊎◌, refl, true, false, Option, none, some, List, [], ◌∷◌, arith, ok,
}
use ce_local_studio.Turn.Types.{
  Text, direct_llm, completed, cancelled, Turn, Scope, Conversation, Payload, SafeError, StopReason,
}
use ce_local_studio.Turn.Event.{persist_event, execution_fence_open, completed_payload}
use ce_local_studio.Turn.Event.Sequence.{Numbered}
use ce_local_studio.Turn.Event.Tail.{tail_turn_events, tail_turn_events-Numbered}
use ce_local_studio.Turn.Lease.{
  turn_lease_current, heartbeat_turn_lease, is_claimable, take_lease, claim_next_turn, replace,
}
use ce_local_studio.Turn.Lease.Claim.{Chosen, claim_next_turn_lem}
use ce_local_studio.Turn.Lease.Exclusion.{take_lease-fences}
use ce_local_studio.Turn.Finalize.{
  complete_turn, fail_turn, persist_evidence_refs, Counters, MappedEvidence,
}
use ce_local_studio.Turn.Redact.{redact_turns_for_source, linked_to_source}
use ce_local_studio.Turn.Redact.Erasure.{redact_turns_for_source_lem, Pairwise, Touched, IsErased}
use ce_local_studio.Turn.Log.{Reach, here, next, claim}
use ce_local_studio.Turn.Log.Safety.{IsValid}
use ce_local_studio.Turn.Log.Reachable.{Reach-IsValid}
use ce_local_studio.Turn.Log.Forward.{Reach-final}
use ce_local_studio.Turn.Log.Stale.{stale_executor}
use ce_local_studio.Turn.Stream.{
  Supplies, token, raises, stream_domain_rag, found, stream_direct, is_empty, strip,
}
use ce_local_studio.Turn.Stream.Grounded.{Ends, stream_domain_rag_undisturbed}
use ce_local_studio.Turn.Stream.Answer.{
  stream_direct_undisturbed, Answered, GaveUp, signals_of, said,
}
use ce_local_studio.Turn.Admission.{Request, Context, accepted_turn, add_turn, start_or_replay_turn}
use ce_local_studio.Turn.Admission.Insert.{IsConsistent}
use ce_local_studio.Turn.Admission.Replay.{
  accepted_turn-IsValid, start_or_replay_turn-IsConsistent, start_or_replay_turn_again,
}

-- `request1`, and ` hi `.
abbrev request_id : Text
request_id = 114 ∷ 101 ∷ 113 ∷ 117 ∷ 101 ∷ 115 ∷ 116 ∷ 49 ∷ []

abbrev request : Request
request = record {
  client_request_id = request_id;
  user_message = 104 ∷ 105 ∷ [];
  domain_id = none;
  route = direct_llm;
}

abbrev context : Context
context = record {
  requires_domain = λ _. false;
  tokens_error = none;
  fingerprint = 7;
  domain_error = none;
  composer_error = none;
  composer_refs = [];
  authenticated = true;
  meanwhile = λ c. c;
  consume_error = none;
  turn_id = 1;
  now = 100;
}

abbrev empty : Conversation
empty = record { id = 1; owner_id = 2; version = 1; updated_at = 50; turns = [] }

abbrev asked : Turn
asked = accepted_turn context request

abbrev after : Conversation
after = add_turn asked 100 empty

started :
    start_or_replay_turn context request_id (32 ∷ 104 ∷ 105 ∷ 32 ∷ []) none empty
    ≡ ok (after, asked, false)
unfolding start_or_replay_turn strip
started = refl

start_or_replay_turn_again_example :
    start_or_replay_turn
      (record context { authenticated = false; now = 900 })
      request_id
      (32 ∷ 104 ∷ 105 ∷ 32 ∷ [])
      none
      after
    ≡ ok (after, asked, true)
start_or_replay_turn_again_example =
    start_or_replay_turn_again context (record context { authenticated = false; now = 900 })
      request_id (32 ∷ 104 ∷ 105 ∷ 32 ∷ []) none empty after asked started refl refl refl

start_or_replay_turn-IsConsistent_example : IsConsistent after
start_or_replay_turn-IsConsistent_example =
    start_or_replay_turn-IsConsistent context request_id (32 ∷ 104 ∷ 105 ∷ 32 ∷ []) none empty after
      asked false (record { one_running = omega arith; distinct = tt }) (λ v. v) started

abbrev waiting : Scope
waiting = record { turn = asked; version = 2; conversation_updated_at = 100 }

abbrev claimed : Scope
claimed = record waiting { turn = take_lease 5 60 110 asked }

claimable : is_claimable asked 110 ≡ true
unfolding is_claimable accepted_turn
claimable = refl

by_claim : Reach waiting claimed
by_claim = next here (claim 5 60 110 claimable)

Reach-IsValid_example : IsValid claimed.turn
Reach-IsValid_example = Reach-IsValid {s = waiting} (accepted_turn-IsValid context request) by_claim

-- A worker that claimed the turn at generation 1 meets a second claim, at generation 2.
abbrev reclaimed : Scope
reclaimed = record claimed { turn = take_lease 6 60 200 claimed.turn }

stale_executor_example :
    ((p : Payload) (now : ℕ) (t : Turn) → persist_event reclaimed.turn p (some 1) now ≢ ok t)
    × ((r : StopReason) (a : Option Text) (c : Counters) (now : ℕ)
        → complete_turn reclaimed r a c (some 1) now ≡ ok reclaimed)
    × ((code : SafeError) (r : StopReason) (now : ℕ)
        → fail_turn reclaimed code r (some 1) now ≡ ok reclaimed)
    × ((evidence : List MappedEvidence) (now : ℕ)
        → persist_evidence_refs reclaimed evidence (some 1) now ≡ reclaimed)
    × ((owner seconds now : ℕ)
        → heartbeat_turn_lease reclaimed.turn owner seconds 1 now ≡ (reclaimed.turn, false))
unfolding take_lease accepted_turn
stale_executor_example = stale_executor {s = reclaimed} 1 (omega arith) here

-- A turn that was cancelled.
abbrev ended : Scope
ended = record waiting { turn = record asked { status = cancelled } }

Reach-final_example : (ended.turn ≡ ended.turn) ⊎ IsErased ended.turn
Reach-final_example = Reach-final {s = ended} refl here

abbrev tokens : List (Text × ℕ)
tokens = (32 ∷ 97 ∷ [], 120) ∷ ([], 121) ∷ (98 ∷ 32 ∷ [], 122) ∷ []

stream_direct_undisturbed_example :
    let s' = stream_direct 1 (signals_of tokens) 130 claimed in
    ((is_empty (strip (said tokens)) ≡ false) × Answered claimed tokens s')
    ⊎ ((is_empty (strip (said tokens)) ≡ true) × GaveUp claimed tokens s')
unfolding take_lease execution_fence_open accepted_turn
stream_direct_undisturbed_example = stream_direct_undisturbed 1 130 tokens claimed refl

-- The run of `tokens`, to the end.
answered :
    ((stream_direct 1 (signals_of tokens) 130 claimed).turn.status ≡ completed)
    × ((stream_direct 1 (signals_of tokens) 130 claimed).turn.assistant_answer
        ≡ some (97 ∷ 98 ∷ []))
unfolding take_lease execution_fence_open accepted_turn stream_direct complete_turn persist_event
    strip completed_payload
answered = (refl, refl)

abbrev item : MappedEvidence
item = record {
  public_ref = 31;
  source_document_id = 4;
  source_block_id = 5;
  source_label = 6;
  excerpt = 97 ∷ [];
}

stream_domain_rag_undisturbed_example :
    Ends
      (item ∷ [])
      (λ _. 31 ∷ [])
      tokens
      claimed
      (stream_domain_rag 1
        (λ s'. s')
        (found (item ∷ []))
        (λ _. 31 ∷ [])
        (signals_of tokens)
        130
        claimed)
unfolding take_lease execution_fence_open accepted_turn
stream_domain_rag_undisturbed_example =
    stream_domain_rag_undisturbed 1 130 item [] (λ _. 31 ∷ []) tokens claimed refl

abbrev supplies : Supplies
supplies = record {
  synthesis_error = none;
  during = λ s. s;
  retrieval = found (item ∷ []);
  project = λ _. 31 ∷ [];
  signals = token (97 ∷ []) 120 ∷ raises false ∷ [];
}

redact_turns_for_source_lem_example :
    (c' : Conversation) × (n : ℕ) × (redact_turns_for_source 4 500 after ≡ ok (c', n))
    × Pairwise (Touched (linked_to_source 4)) after.turns c'.turns
    × (c'.version ≡ after.version + n)
unfolding accepted_turn
redact_turns_for_source_lem_example = redact_turns_for_source_lem 4 500 after (λ e. cc, tt)

tail_turn_events-Numbered_example :
    Numbered 1 (tail_turn_events (some asked ∷ some claimed.turn ∷ []) 1 false)
unfolding accepted_turn take_lease
tail_turn_events-Numbered_example =
    tail_turn_events-Numbered (some asked ∷ some claimed.turn ∷ []) 1 false
      ((refl, (refl, tt)), ((refl, (refl, tt)), tt))

leased : turn_lease_current claimed.turn 5 1 150 ≡ true
unfolding turn_lease_current take_lease accepted_turn
leased = refl

take_lease-fences_example :
    let t' = take_lease 6 60 200 claimed.turn in
    (turn_lease_current t' 6 (claimed.turn.execution_generation + 1) 200 ≡ true)
    × (turn_lease_current t' 5 1 201 ≡ false)
    × (heartbeat_turn_lease t' 5 60 1 201 ≡ (t', false))
unfolding take_lease accepted_turn
take_lease-fences_example = take_lease-fences claimed.turn 6 60 200 5 1 201 60 refl (omega arith)

claim_next_turn_lem_example :
    ((claim_next_turn 5 60 110 (asked ∷ []) ≡ (none, asked ∷ [])) × Chosen 110 (asked ∷ []) none)
    ⊎ ((u : Turn) × Chosen 110 (asked ∷ []) (some u)
        × (claim_next_turn 5 60 110 (asked ∷ [])
            ≡ (some (take_lease 5 60 110 u), replace (take_lease 5 60 110 u) (asked ∷ []))))
claim_next_turn_lem_example = claim_next_turn_lem 5 60 110 (asked ∷ [])
