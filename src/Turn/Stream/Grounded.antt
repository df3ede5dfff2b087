-- ===== src/Turn/Stream/Grounded.antt =====
-- What a run over a domain's evidence leaves behind when nobody interferes.
use mathlib.Core.Bool.{false≢true}
use ce_local_studio.Base.{
  ℕ, ◌+◌, ◌≡◌, refl, sym, ap, ◌∙◌, true, false, Option, none, some, List, [], ◌∷◌, ◌++◌, map, arith,
  select, not, is_some, length, ◌⊎◌, inl, inr, Bool-cases,
}
use ce_local_studio.Turn.Types.{
  Text, Status, completed, failed, StopReason, grounded, evidence_only, provider_failure,
  provider_failed, EvidenceRef, Payload, retrieval_started, retrieval_completed, evidence_delta,
  answer_delta, turn_failed, Turn, Scope,
}
use ce_local_studio.Turn.Event.{
  next_event, execution_fence_open, completed_payload, public_evidence_refs,
}
use ce_local_studio.Turn.Finalize.{
  MappedEvidence, complete_turn, completed_values, failed_values, evidence_rows,
}
use ce_local_studio.Turn.Finalize.Outcome.{complete_turn_lem, fail_turn_lem}
use ce_local_studio.Turn.Stream.{
  exhausted, is_empty, strip, answer_loop, found, then_event, stream_evidence, after_retrieval,
  stream_domain_rag, finish_grounded, evidence_only_answer, provider_fails, counts, committed,
}
use ce_local_studio.Turn.Stream.Answer.{
  Tokens, signals_of, texts, said, payloads, add_deltas, logged, logged_fence, payloads-append,
  payloads-add_deltas, answer_loop_undisturbed, join-texts,
}
use ce_local_studio.Turn.Stream.Open.{
  noted, then_event-open, noted_fence, stored, persist_evidence_refs-open, stored_fence,
}

-- The references that are not redacted.
abbrev visible : List EvidenceRef → List EvidenceRef
visible = select (λ ref. not (is_some ref.redacted_at))

-- What a run over `evidence` has done to `s`, by how it ends.
abbrev pub EndedAs :
    List MappedEvidence
    → (List EvidenceRef → List ℕ)
    → Tokens
    → Scope
    → Status
    → StopReason
    → Option Text
    → (Turn → Payload)
    → Scope
    → Type 0
EndedAs evidence project toks s status reason answer last s' =
    let refs = visible s'.turn.evidence_refs in
    (s'.turn.status ≡ status)
    × (s'.turn.stop_reason ≡ some reason)
    × (s'.turn.assistant_answer ≡ answer)
    × (s'.turn.evidence_refs ≡ s.turn.evidence_refs ++ evidence_rows 1 evidence)
    × (payloads s'.turn.events
        ≡ payloads s.turn.events
          ++ retrieval_started ∷ []
          ++ evidence_delta (project refs) ∷ []
          ++ retrieval_completed true (length refs) ∷ []
          ++ map answer_delta (texts toks)
          ++ last s'.turn ∷ [])
    × (s'.version ≡ s.version + 2)

abbrev pub Ends :
    List MappedEvidence → (List EvidenceRef → List ℕ) → Tokens → Scope → Scope → Type 0
Ends evidence project toks s s' =
    ((is_empty (strip (said toks)) ≡ false)
      × EndedAs evidence project toks s completed grounded (some (strip (said toks)))
          (λ t. completed_payload t false) s')
    ⊎ ((is_empty (strip (said toks)) ≡ true)
        × (is_empty (texts toks) ≡ true)
        × EndedAs evidence project toks s completed evidence_only none
            (λ t. completed_payload t false) s')
    ⊎ ((is_empty (strip (said toks)) ≡ true)
        × (is_empty (texts toks) ≡ false)
        × EndedAs evidence project toks s failed provider_failure none
            (λ _. turn_failed provider_failed false) s')

module _ (g now : ℕ) (evidence : List MappedEvidence) (project : List EvidenceRef → List ℕ)
    (s : Scope) (may : execution_fence_open s.turn (some g) ≡ true) where
  -- The scope with the evidence, and then with the two events before the tokens.
  abbrev kept : Scope
  kept = stored (noted s retrieval_started now) evidence now

  abbrev listed : Scope
  listed = noted kept (evidence_delta (project (public_evidence_refs kept.turn))) now

  abbrev told : Scope
  told = noted listed (retrieval_completed true (length (public_evidence_refs listed.turn))) now

  kept_fence : execution_fence_open kept.turn (some g) ≡ true
  kept_fence =
      stored_fence (noted s retrieval_started now) evidence g now
        (noted_fence s retrieval_started g now may)

  listed_fence : execution_fence_open listed.turn (some g) ≡ true
  listed_fence = noted_fence kept _ g now kept_fence

  told_fence : execution_fence_open told.turn (some g) ≡ true
  told_fence = noted_fence listed _ g now listed_fence

  -- The tokens and the end of the run.
  abbrev finished : Tokens → Scope → Scope
  finished toks s2 =
      let (left, s3) = answer_loop g (signals_of toks) [] s2 in finish_grounded g now left s3

  stream_evidence-told :
      (toks : Tokens)
      → stream_evidence g evidence project (signals_of toks) now kept
        ≡ finish_grounded g now
            (exhausted (texts toks))
            (logged told (add_deltas toks told.turn.events))
  unfolding stream_evidence
  stream_evidence-told toks = rw kept_fence (
      then_event-open kept (evidence_delta (project (public_evidence_refs kept.turn))) g now
        (λ s1.
          then_event s1 (retrieval_completed true (length (public_evidence_refs s1.turn))) g now
            (finished toks))
        kept_fence
      ∙ then_event-open listed
          (retrieval_completed true (length (public_evidence_refs listed.turn))) g now
          (finished toks) listed_fence
      ∙ rw (answer_loop_undisturbed g toks [] told told_fence) refl)

  -- The references that are shown from now on.
  abbrev refs : List EvidenceRef
  refs = visible (s.turn.evidence_refs ++ evidence_rows 1 evidence)

  kept-refs : public_evidence_refs kept.turn ≡ refs
  unfolding public_evidence_refs execution_fence_open
  kept-refs = ground (arith, may)

  listed-refs : public_evidence_refs listed.turn ≡ refs
  unfolding public_evidence_refs
  listed-refs = kept-refs

  told-payloads :
      payloads told.turn.events
      ≡ payloads s.turn.events
        ++ retrieval_started ∷ []
        ++ evidence_delta (project refs) ∷ []
        ++ retrieval_completed true (length refs) ∷ []
  told-payloads =
      payloads-append listed.turn.events _
      ∙ ap (λ r. payloads listed.turn.events ++ retrieval_completed true (length r) ∷ [])
          listed-refs
      ∙ ap (λ r. r ++ retrieval_completed true (length refs) ∷ [])
          (payloads-append kept.turn.events _
            ∙ ap (λ r. payloads kept.turn.events ++ evidence_delta (project r) ∷ []) kept-refs
            ∙ ap (λ r. r ++ evidence_delta (project refs) ∷ []) (payloads-append s.turn.events _))

  ended-payloads :
      (toks : Tokens) (p : Payload)
      → let es = add_deltas toks told.turn.events in
        payloads (es ++ next_event p now es ∷ [])
        ≡ payloads s.turn.events
          ++ retrieval_started ∷ []
          ++ evidence_delta (project refs) ∷ []
          ++ retrieval_completed true (length refs) ∷ []
          ++ map answer_delta (texts toks)
          ++ p ∷ []
  ended-payloads toks p =
      payloads-append (add_deltas toks told.turn.events) _
      ∙ ap (λ r. r ++ p ∷ [])
          (payloads-add_deltas toks told.turn.events
            ∙ ap (λ r. r ++ map answer_delta (texts toks)) told-payloads)

  -- The scope when the tokens have arrived.
  abbrev spoken : Tokens → Scope
  spoken toks = logged told (add_deltas toks told.turn.events)

  spoken_fence : (toks : Tokens) → execution_fence_open (spoken toks).turn (some g) ≡ true
  spoken_fence toks = logged_fence told (some g) (add_deltas toks told.turn.events) ∙ told_fence

  completed-EndedAs :
      (toks : Tokens) (reason : StopReason) (answer : Option Text)
      → EndedAs evidence project toks s completed reason answer
          (λ t. completed_payload t false)
          (committed
            (spoken toks)
            (complete_turn (spoken toks) reason answer (counts 1 1 0) (some g) now))
  unfolding completed_values completed_payload
  completed-EndedAs toks reason answer =
      elim (complete_turn_lem (spoken toks) reason answer (counts 1 1 0) (some g) now) [
        | inl (_, q) ↦ rw q (refl, refl, refl, refl, ended-payloads toks _, omega arith)
        | inr (o, _) ↦ absurd (false≢true (sym o ∙ spoken_fence toks))
      ]

  failed-EndedAs :
      (toks : Tokens)
      → EndedAs evidence project toks s failed provider_failure none
          (λ _. turn_failed provider_failed false)
          (provider_fails g now (spoken toks))
  unfolding provider_fails failed_values
  failed-EndedAs toks =
      elim (fail_turn_lem (spoken toks) provider_failed provider_failure (some g) now) [
        | inl (_, q) ↦ rw q (refl, refl, refl, refl, ended-payloads toks _, omega arith)
        | inr (o, _) ↦ absurd (false≢true (sym o ∙ spoken_fence toks))
      ]

  -- How the tokens end the run.
  finished-Ends :
      (toks : Tokens)
      → Ends evidence project toks s (finish_grounded g now (exhausted (texts toks)) (spoken toks))
  unfolding evidence_only_answer
  finished-Ends toks =
      rw (spoken_fence toks, join-texts toks)
        (elim (Bool-cases (is_empty (strip (said toks)))) [
          | inr some_said ↦ rw some_said (inl (refl, completed-EndedAs toks grounded _))
          | inl none_said ↦ rw none_said (elim (Bool-cases (is_empty (texts toks))) [
            | inl silent ↦
                rw silent (inr (inl (refl, refl, completed-EndedAs toks evidence_only none)))
            | inr blank ↦ rw blank (inr (inr (refl, refl, failed-EndedAs toks)))
          ])
        ])

  -- After the retrieval.
  after_found :
      (toks : Tokens)
      → is_empty evidence ≡ false
      → after_retrieval g
          (found evidence)
          project
          (signals_of toks)
          now
          (noted s retrieval_started now)
        ≡ finish_grounded g now (exhausted (texts toks)) (spoken toks)
  after_found toks some_found =
      let open_still = noted_fence s retrieval_started g now may in
      rw (open_still, some_found)
        (ap (stream_evidence g evidence project (signals_of toks) now)
            (persist_evidence_refs-open (noted s retrieval_started now) evidence g now open_still)
          ∙ stream_evidence-told toks)

-- A run over a domain that finds evidence, with no interference: it logs the start of the retrieval,
-- stores the evidence, logs the references that are shown and their number, and logs each token that
-- is not empty. Then the turn completes as `grounded` with the stripped concatenation of all tokens;
-- where that is empty, it completes as `evidence_only` without an answer if no token came, and
-- otherwise fails as `provider_failure`.
pub stream_domain_rag_undisturbed :
    (g now : ℕ) (item : MappedEvidence) (items : List MappedEvidence)
    (project : List EvidenceRef → List ℕ) (toks : Tokens) (s : Scope)
    → execution_fence_open s.turn (some g) ≡ true
    → Ends
        (item ∷ items)
        project
        toks
        s
        (stream_domain_rag g (λ s'. s') (found (item ∷ items)) project (signals_of toks) now s)
unfolding stream_domain_rag
stream_domain_rag_undisturbed g now item items project toks s may =
    let s1 = noted s retrieval_started now in
    let evidence = item ∷ items in
    rw
      (
        may,
        then_event-open s retrieval_started g now
            (after_retrieval g (found evidence) project (signals_of toks) now) may,
        after_found g now evidence project s may toks refl,
      )
      (finished-Ends g now evidence project s may toks)
