-- ===== src/Indexing/Serial.antt =====
-- The life of a source whose calls and worker runs come one after the other.
use ce_local_studio.Base.{ℕ, ◌≡◌, Bool, true, ◌&&◌, arith, Bool-cases, inl, inr}
use ce_local_studio.Indexing.Types.{Source, Domain, is_state, ready, source_is_query_eligible}
use ce_local_studio.Indexing.Requests.{
  Deletion, Outcome, queue_source_index_after_publish, retry_source_index, cancel_source_index,
  cleanup_index_before_source_delete,
}
use ce_local_studio.Indexing.Results.{is_index_claimable, claim_source}
use ce_local_studio.Indexing.Consistent.{
  IsConsistent, ready-is_out, cancel-IsConsistent, claim-IsConsistent, cleanup-IsConsistent,
  publish-IsConsistent, retry-IsConsistent,
}
use ce_local_studio.Indexing.Worker.{Session, Run, run_once}
use ce_local_studio.Indexing.Undisturbed.{run_once-IsConsistent}

-- Nobody else writes the source during the run.
abbrev pub IsUndisturbed : Run → Type 0
IsUndisturbed r =
    ((y : Source) → r.probing.source y ≡ y) × ((y : Source) → r.submitting.source y ≡ y)

-- The session of a worker that has just claimed a source.
abbrev pub claimed_session : Source → Domain → Session
claimed_session x d = record { held = x; row = x; domain = d }

-- One request, claim, or whole run of a worker.
pub data Happens (prefix : ℕ → ℕ) (x : Source) : Source → Type 0 where
  publishes :
      (hash now : ℕ) → Happens prefix x (queue_source_index_after_publish prefix hash now x).0
  retries :
      (hash now : ℕ) (deletion : Deletion) (domain : Domain)
      → Happens prefix x (Outcome.source (retry_source_index prefix hash deletion now domain x))
  cancels :
      (now : ℕ) (deletion : Deletion) (domain : Domain)
      → Happens prefix x (Outcome.source (cancel_source_index deletion now domain x))
  cleans_up :
      (now : ℕ) (deletion : Deletion) (domain : Domain)
      → Happens prefix x (Outcome.source (cleanup_index_before_source_delete deletion now domain x))
  claims :
      (worker seconds now : ℕ)
      → is_index_claimable now x ≡ true
      → Happens prefix x (claim_source worker seconds now x)
  runs :
      (r : Run) (d : Domain)
      → IsUndisturbed r
      → Happens prefix x (run_once r (claimed_session x d)).row

pub data Serial (prefix : ℕ → ℕ) (x : Source) : Source → Type 0 where
  untouched : Serial prefix x x
  then_happens : {y z : Source} → Serial prefix x y → Happens prefix y z → Serial prefix x z

Happens-IsConsistent :
    (prefix : ℕ → ℕ) {x y : Source}
    → Happens prefix x y
    → IsConsistent prefix x
    → IsConsistent prefix y
Happens-IsConsistent prefix {x} (publishes hash now) v = publish-IsConsistent prefix x hash now v
Happens-IsConsistent prefix {x} (retries hash now deletion domain) v =
    retry-IsConsistent prefix x hash now deletion domain v
Happens-IsConsistent prefix {x} (cancels now deletion domain) v =
    cancel-IsConsistent prefix x now deletion domain v
Happens-IsConsistent prefix {x} (cleans_up now deletion domain) v =
    cleanup-IsConsistent prefix x now deletion domain
Happens-IsConsistent prefix {x} (claims worker seconds now h) v =
    claim-IsConsistent prefix x worker seconds now v
Happens-IsConsistent prefix {x} (runs r d quiet) v = (run_once-IsConsistent prefix r x d quiet v).1

-- A source whose index columns are consistent keeps them consistent over requests, claims and whole
-- runs of workers, whatever the runtime answers, in any order in which each ends before the next
-- begins and nobody else writes the source during a run: while a request is out the request id is
-- that of the current generation and content, an accepted source has its remote document, and a
-- ready one the instant of it.
pub Serial-IsConsistent :
    (prefix : ℕ → ℕ) {x y : Source}
    → IsConsistent prefix x
    → Serial prefix x y
    → IsConsistent prefix y
Serial-IsConsistent prefix v untouched = v
Serial-IsConsistent prefix v (then_happens before h) =
    Happens-IsConsistent prefix h (Serial-IsConsistent prefix v before)

-- Of a source whose columns were consistent once, after any such series of requests, claims and
-- undisturbed runs, a query sees exactly what is ready, prepared and in a domain that is available:
-- no ready source is left out for a stale identity.
pub source_is_query_eligible-Serial :
    (prefix : ℕ → ℕ) {x y : Source} (available : Bool)
    → IsConsistent prefix x
    → Serial prefix x y
    → source_is_query_eligible prefix available y ≡ (available && y.prepared && is_state ready y)
unfolding source_is_query_eligible
source_is_query_eligible-Serial prefix {x} {y} available v before =
    let w = Serial-IsConsistent prefix v before in
    elim (Bool-cases (is_state ready y)) [
      | inl h ↦ rw (h, w.identified (ready-is_out y h)) (ground arith)
      | inr n ↦ rw n (ground arith)
    ]
