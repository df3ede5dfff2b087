-- ===== src/Turn/Log/Stale.antt =====
-- A generation that a later claim has replaced is powerless.
use ce_local_studio.Base.{ℕ, ◌≡◌, ◌≢◌, false, Option, some, List, arith, ok, inl, inr, ◌<◌}
use ce_local_studio.Turn.Types.{Text, StopReason, SafeError, Payload, Turn, Scope}
use ce_local_studio.Turn.Event.{persist_event, execution_fence_open}
use ce_local_studio.Turn.Lease.{heartbeat_turn_lease, turn_lease_current}
use ce_local_studio.Turn.Finalize.{
  Counters, MappedEvidence, complete_turn, fail_turn, persist_evidence_refs,
}
use ce_local_studio.Turn.Finalize.Outcome.{complete_turn_lem, fail_turn_lem}
use ce_local_studio.Turn.Log.{Reach}
use ce_local_studio.Turn.Log.Forward.{Reach-generation}

shut : (t : Turn) (g : ℕ) → g < t.execution_generation → execution_fence_open t (some g) ≡ false
unfolding execution_fence_open
shut t g h = ground arith

persist-stale :
    (t : Turn) (g now : ℕ) (p : Payload) (u : Turn)
    → g < t.execution_generation
    → persist_event t p (some g) now ≢ ok u
unfolding persist_event
persist-stale t g now p u h = ground arith

complete-stale :
    (s : Scope) (r : StopReason) (a : Option Text) (c : Counters) (g : Option ℕ) (now : ℕ)
    → execution_fence_open s.turn g ≡ false
    → complete_turn s r a c g now ≡ ok s
complete-stale s r a c g now h = elim (complete_turn_lem s r a c g now) [
  | inl (o, _) ↦ cc
  | inr (_, q) ↦ q
]

fail-stale :
    (s : Scope) (code : SafeError) (r : StopReason) (g : Option ℕ) (now : ℕ)
    → execution_fence_open s.turn g ≡ false
    → fail_turn s code r g now ≡ ok s
fail-stale s code r g now h = elim (fail_turn_lem s code r g now) [
  | inl (o, _) ↦ cc
  | inr (_, q) ↦ q
]

evidence-stale :
    (s : Scope) (evidence : List MappedEvidence) (g : Option ℕ) (now : ℕ)
    → execution_fence_open s.turn g ≡ false
    → persist_evidence_refs s evidence g now ≡ s
unfolding persist_evidence_refs
evidence-stale s evidence g now h = rw h

beat-stale :
    (t : Turn) (owner seconds g now : ℕ)
    → g < t.execution_generation
    → heartbeat_turn_lease t owner seconds g now ≡ (t, false)
unfolding heartbeat_turn_lease turn_lease_current
beat-stale t owner seconds g now h = ground arith

-- An executor whose turn has been claimed anew is powerless from then on: whatever else happens, no
-- event of its generation is appended, neither ending nor evidence of its takes effect, and its
-- heartbeat fails.
pub stale_executor :
    {s s' : Scope} (generation : ℕ)
    → generation < s.turn.execution_generation
    → Reach s s'
    → ((p : Payload) (now : ℕ) (t : Turn) → persist_event s'.turn p (some generation) now ≢ ok t)
      × ((r : StopReason) (a : Option Text) (c : Counters) (now : ℕ)
          → complete_turn s' r a c (some generation) now ≡ ok s')
      × ((code : SafeError) (r : StopReason) (now : ℕ)
          → fail_turn s' code r (some generation) now ≡ ok s')
      × ((evidence : List MappedEvidence) (now : ℕ)
          → persist_evidence_refs s' evidence (some generation) now ≡ s')
      × ((owner seconds now : ℕ)
          → heartbeat_turn_lease s'.turn owner seconds generation now ≡ (s'.turn, false))
stale_executor {s} {s'} generation old r =
    let newer : generation < s'.turn.execution_generation = omega (arith, Reach-generation r) in
    (
      λ p now t. persist-stale s'.turn generation now p t newer,
      λ reason a c now.
          complete-stale s' reason a c (some generation) now (shut s'.turn generation newer),
      λ code reason now.
          fail-stale s' code reason (some generation) now (shut s'.turn generation newer),
      λ evidence now.
          evidence-stale s' evidence (some generation) now (shut s'.turn generation newer),
      λ owner seconds now. beat-stale s'.turn owner seconds generation now newer,
    )
