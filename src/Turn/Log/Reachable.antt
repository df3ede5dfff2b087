-- ===== src/Turn/Log/Reachable.antt =====
-- Every interleaving of executors, workers, cancels and redactions keeps a turn valid, and a turn's
-- status and generation only go forward.
use mathlib.Core.Path.{subst}
use ce_local_studio.Base.{
  ℕ, ◌≡◌, refl, sym, ap, ◌∙◌, true, false, Option, List, [], ◌∷◌, ◌++◌, map, arith, Result, ok, err,
  inl, inr, Bool-cases,
}
use ce_local_studio.Turn.Types.{
  Text, StopReason, SafeError, Payload, turn_failed, cancellation, turn_redacted, Turn, Scope,
  is_running, is_redacted,
}
use ce_local_studio.Turn.Event.{
  Fault, persist_event, next_event, completed_payload, execution_fence_open,
}
use ce_local_studio.Turn.Event.Sequence.{persist_event-ok}
use ce_local_studio.Turn.Lease.{is_claimable, take_lease, heartbeat_turn_lease, turn_lease_current}
use ce_local_studio.Turn.Finalize.{
  Counters, MappedEvidence, persist_evidence_refs, completed_values, failed_values,
  cancelled_values,
}
use ce_local_studio.Turn.Finalize.Outcome.{
  complete_turn_lem, fail_turn_lem, cancel_running_turn_lem, fence_open,
}
use ce_local_studio.Turn.Redact.{redacted_values, sanitize_event}
use ce_local_studio.Turn.Redact.Erasure.{Redacted, Redacted-IsErased, redact_turn_lem}
use ce_local_studio.Turn.Log.{
  is_progress, Step, emit, keep_evidence, complete, fail, cancel, redact, claim, beat, Reach, here,
  next,
}
use ce_local_studio.Turn.Log.Safety.{
  IsValid, Log-append, Log-sanitize, running_of_test, read_redacted, progress_needs_running,
  ended-IsValid, emitted-IsValid, running-Live,
}

emit-IsValid :
    (t t' : Turn) (p : Payload) (g : Option ℕ) (now : ℕ)
    → IsValid t
    → is_progress p ≡ true
    → persist_event t p g now ≡ ok t'
    → IsValid t'
emit-IsValid t t' p g now v h e =
    let (may, q) = persist_event-ok t t' p g now e in
    rw q (emitted-IsValid t v (progress_needs_running t.status p h may) p now h)

completed-IsValid :
    (t : Turn)
    → IsValid t
    → is_running t.status ≡ true
    → (r : StopReason) (a : Option Text) (c : Counters) (now : ℕ)
    → let u = completed_values r a c now t in
      IsValid
        (record u { events = u.events ++ next_event (completed_payload u false) now u.events ∷ [] })
unfolding completed_values completed_payload
completed-IsValid t v run r a c now =
    ended-IsValid t v (running_of_test run) (completed_values r a c now t)
      (completed_payload (completed_values r a c now t) false) now refl refl
      (refl, refl, refl, refl, refl, refl)

failed-IsValid :
    (t : Turn)
    → IsValid t
    → is_running t.status ≡ true
    → (code : SafeError) (r : StopReason) (now : ℕ)
    → let u = failed_values code r now t in
      IsValid
        (record u { events = u.events ++ next_event (turn_failed code false) now u.events ∷ [] })
unfolding failed_values
failed-IsValid t v run code r now =
    ended-IsValid t v (running_of_test run) (failed_values code r now t) (turn_failed code false)
      now refl refl (refl, refl, refl, refl, refl, refl)

cancelled-IsValid :
    (t : Turn)
    → IsValid t
    → is_running t.status ≡ true
    → (now : ℕ)
    → let u = cancelled_values now t in
      IsValid (record u { events = u.events ++ next_event (cancellation false) now u.events ∷ [] })
unfolding cancelled_values
cancelled-IsValid t v run now =
    ended-IsValid t v (running_of_test run) (cancelled_values now t) (cancellation false) now refl
      refl (refl, refl, refl, refl, refl, refl)

Redacted-IsValid :
    (t : Turn) (now : ℕ) → IsValid t → is_redacted t.status ≡ false → IsValid (Redacted now t)
unfolding redacted_values
Redacted-IsValid t now v live =
    let log =
      Log-append (map sanitize_event t.events) (turn_redacted now) now {s = t.status}
        (Log-sanitize t.events (v.numbered, v.told)) (read_redacted t.status now live) in
    record { numbered = log.0; told = log.1; settled = inr (inr (Redacted-IsErased now t)) }

keep_evidence-IsValid :
    (s : Scope) (evidence : List MappedEvidence) (g : Option ℕ) (now : ℕ)
    → IsValid s.turn
    → IsValid (persist_evidence_refs s evidence g now).turn
unfolding persist_evidence_refs
keep_evidence-IsValid s evidence g now v = elim (Bool-cases (execution_fence_open s.turn g)) [
  | inl o ↦
      let run = running_of_test (fence_open s.turn g o).0 in
      rw o
        (record { numbered = v.numbered; told = v.told; settled = inl (running-Live s.turn v run) })
  | inr o ↦ rw o v
]

claim-IsValid :
    (t : Turn) (worker seconds now : ℕ)
    → is_claimable t now ≡ true
    → IsValid t
    → IsValid (take_lease worker seconds now t)
unfolding take_lease is_claimable
claim-IsValid t worker seconds now h v = record {
  numbered = v.numbered;
  told = v.told;
  settled = inl (running-Live t v (running_of_test (ground arith)));
}

running_of_lease :
    (t : Turn) (owner g now : ℕ)
    → turn_lease_current t owner g now ≡ true
    → is_running t.status ≡ true
unfolding turn_lease_current
running_of_lease t owner g now h = ground arith

beat-IsValid :
    (t : Turn) (owner seconds g now : ℕ)
    → IsValid t
    → IsValid (heartbeat_turn_lease t owner seconds g now).0
unfolding heartbeat_turn_lease
beat-IsValid t owner seconds g now v = elim (Bool-cases (turn_lease_current t owner g now)) [
  | inl o ↦ rw o (record {
    numbered = v.numbered;
    told = v.told;
    settled = inl (running-Live t v (running_of_test (running_of_lease t owner g now o)));
  })
  | inr o ↦ rw o v
]

abbrev first_of_pair : Result Fault (Scope × ℕ) → Scope → Scope
first_of_pair (ok (s, _)) _ = s
first_of_pair (err _) s = s

along :
    {s s' : Scope} → IsValid s.turn → ◌≡◌ {A = Result Fault Scope} (ok s) (ok s') → IsValid s'.turn
along {s} {s'} v e = let same : s ≡ s' = cc in subst (λ (x : Scope). IsValid x.turn) same v

along_pair :
    {s s' : Scope} {n m : ℕ}
    → IsValid s.turn
    → ◌≡◌ {A = Result Fault (Scope × ℕ)} (ok (s, n)) (ok (s', m))
    → IsValid s'.turn
along_pair {s} v e = subst (λ (x : Scope). IsValid x.turn) (ap (λ r. first_of_pair r s) e) v

-- Every transaction, of whatever party, keeps the invariant of the turn.
pub Step-IsValid : {s s' : Scope} → Step s s' → IsValid s.turn → IsValid s'.turn
Step-IsValid {s} (emit p g now {t} h e) v = emit-IsValid s.turn t p g now v h e
Step-IsValid {s} (keep_evidence evidence g now) v = keep_evidence-IsValid s evidence g now v
Step-IsValid {s} (complete r a c g now e) v = elim (complete_turn_lem s r a c g now) [
  | inl (o, q) ↦ along (completed-IsValid s.turn v (fence_open s.turn g o).0 r a c now) (sym q ∙ e)
  | inr (o, q) ↦ along v (sym q ∙ e)
]
Step-IsValid {s} (fail code r g now e) v = elim (fail_turn_lem s code r g now) [
  | inl (o, q) ↦ along (failed-IsValid s.turn v (fence_open s.turn g o).0 code r now) (sym q ∙ e)
  | inr (o, q) ↦ along v (sym q ∙ e)
]
Step-IsValid {s} (cancel now e) v = elim (cancel_running_turn_lem s now) [
  | inl (o, q) ↦ along (cancelled-IsValid s.turn v o now) (sym q ∙ e)
  | inr (o, q) ↦ along v (sym q ∙ e)
]
Step-IsValid {s} (redact now n e) v = elim (redact_turn_lem now s) [
  | inl (o, q) ↦ along_pair v (sym q ∙ e)
  | inr (o, q) ↦ along_pair (Redacted-IsValid s.turn now v o) (sym q ∙ e)
]
Step-IsValid {s} (claim worker seconds now h) v = claim-IsValid s.turn worker seconds now h v
Step-IsValid {s} (beat owner seconds g now) v = beat-IsValid s.turn owner seconds g now v

-- From a valid turn, whatever the parties do and however their transactions interleave, the turn
-- stays valid: its events are numbered 1, 2, 3, …; reading them in order gives the status of its
-- row; a running turn has no answer, reason or completion instant; a completed, failed or cancelled
-- one has a reason and an instant and holds no lease; and a redacted one is erased.
pub Reach-IsValid : {s s' : Scope} → IsValid s.turn → Reach s s' → IsValid s'.turn
Reach-IsValid v here = v
Reach-IsValid v (next r st) = Step-IsValid st (Reach-IsValid v r)
