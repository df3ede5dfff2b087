-- ===== src/Turn/Stream/Progress.antt =====
-- That an executor brings its turn to an end.
use ce_local_studio.Base.{ℕ, ◌≡◌, true, false, none, some, List, [], ◌∷◌, ◌⊎◌, length}
use ce_local_studio.Turn.Types.{completed, failed, EvidenceRef, retrieval_completed, Scope}
use ce_local_studio.Turn.Event.{execution_fence_open, public_evidence_refs}
use ce_local_studio.Turn.Stream.{
  Signal, token, raises, lost, meanwhile, Left, exhausted, closed, provider_error, answer_loop,
  finish_grounded, then_event,
}

-- A stream of tokens that may break off with an exception of the provider.
abbrev pub Steady : List Signal → Type 0
Steady [] = Unit {0}
Steady (token _ _ ∷ rest) = Steady rest
Steady (raises true ∷ rest) = ⊥
Steady (raises false ∷ rest) = Steady rest
Steady (lost ∷ rest) = ⊥
Steady (meanwhile _ ∷ rest) = ⊥

-- The turn has ended, and its lease is given up.
abbrev pub HasEnded : Scope → Type 0
HasEnded s =
    ((s.turn.status ≡ completed) ⊎ (s.turn.status ≡ failed))
    × (s.turn.lease_owner ≡ none)
    × (s.turn.lease_expires_at ≡ none)

module _ (g now : ℕ) where
  abbrev IsOpen : Scope → Type 0
  IsOpen s = execution_fence_open s.turn (some g) ≡ true

  -- The loop over the tokens is not closed, and the fence stays open.
  abbrev StillOpen : Left × Scope → Type 0
  StillOpen (exhausted _, s) = IsOpen s
  StillOpen (provider_error _, s) = IsOpen s
  StillOpen (closed, s) = ⊥

  module _ (project : List EvidenceRef → List ℕ) (signals : List Signal)
      (steady : Steady signals) where
    abbrev finished : Scope → Scope
    finished s2 = let (left, s3) = answer_loop g signals [] s2 in finish_grounded g now left s3

    abbrev counted : Scope → Scope
    counted s1 =
        then_event s1 (retrieval_completed true (length (public_evidence_refs s1.turn))) g now
          finished
