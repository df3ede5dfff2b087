-- ===== src/Indexing/Undisturbed.antt =====
-- A run of the worker that nobody disturbs.
use ce_local_studio.Base.{
  ℕ, ◌≡◌, refl, sym, ◌∙◌, Bool, true, false, not, Option, none, some, if◌then◌else◌, or_else,
}
use ce_local_studio.Indexing.Types.{
  RequestId, ErrorCode, Source, is_state, submitting, accepted, source_index_missing,
  source_index_failed,
}
use ce_local_studio.Indexing.Results.{schedule_index_poll_backoff, fail_request_missing}
use ce_local_studio.Indexing.Changes.{here}
use ce_local_studio.Indexing.Worker
use ce_local_studio.Indexing.Worker.{
  Session, Run, Others, Submission, submitted, timed_out, refused, lease_lost, commit, meanwhile,
  refresh, flush, apply_all, try_ready, try_accept, try_fail, accepted_probe, run_accepted, put_off,
  finish_submit, submit, try_submit, absent_probe, failed_probe, submitting_probe, run_submitting,
  run_state, run_once,
}
use ce_local_studio.Indexing.Types.{Domain}
use ce_local_studio.Indexing.Consistent.{IsConsistent}
use ce_local_studio.Indexing.Identity.{Changes-IsConsistent}
use ce_local_studio.Indexing.Allowed.{
  Took, commit-Took, beat-Allowed, poll-Allowed, accept-Allowed, ready-Allowed, fail-Allowed,
  doubt-Allowed, postpone-Allowed, miss-Allowed,
}

module _ (prefix : ℕ → ℕ) (before : Source) where
  module _ (r : Run) where
    applied-Took :
        (done : Bool) (s : Session)
        → Took prefix before s
        → Took prefix before (if done then apply_all r.now s else s)
    applied-Took true s t = t
    applied-Took false s t = t

    try_ready-Took : (s : Session) → Took prefix before s → Took prefix before (try_ready r s)
    try_ready-Took s t = applied-Took _ _ (
        commit-Took prefix before s _ t
          (ready-Allowed prefix before r.generation r.request_id r.now s.held))

    try_accept-Took :
        (remote : ℕ) (s : Session)
        → Took prefix before s
        → Took prefix before (try_accept r remote s).0
    try_accept-Took remote s t =
        commit-Took prefix before s _ t
          (accept-Allowed prefix before r.generation r.request_id remote r.now s.held)

    try_fail-Took :
        (code : ErrorCode) (s : Session)
        → Took prefix before s
        → Took prefix before (try_fail r code s)
    try_fail-Took code s t =
        commit-Took prefix before s _ t
          (fail-Allowed prefix before r.generation r.request_id code r.now s.held)

    accepted_probe-Took :
        (s : Session) → Took prefix before s → Took prefix before (accepted_probe r s)
    accepted_probe-Took s t = go r.readiness.failed r.readiness.ready
      where
        go :
            (failed ready : Bool)
            → Took prefix before (
                if failed
                then try_fail r (or_else r.readiness.error_code source_index_failed) s
                else if ready
                then try_ready r s
                else (commit s (
                    schedule_index_poll_backoff r.generation r.request_id r.backoff_seconds r.now
                      s.held)).0)
        go true ready = try_fail-Took _ s t
        go false true = try_ready-Took s t
        go false false =
            commit-Took prefix before s _ t
              (poll-Allowed prefix before r.generation r.request_id r.backoff_seconds r.now s.held)

    refresh-Took : (s : Session) → Took prefix before s → Took prefix before (refresh s)
    refresh-Took s t = (refl, t.1)

    finish_submit-Took :
        (outcome : Submission) (s : Session)
        → Took prefix before s
        → Took prefix before (finish_submit r outcome s)
    finish_submit-Took (submitted remote) s t = try_accept-Took remote s t
    finish_submit-Took timed_out s t =
        commit-Took prefix before (refresh s) _ (refresh-Took s t)
          (doubt-Allowed prefix before r.generation r.request_id r.backoff_seconds r.now s.row)
    finish_submit-Took (refused code) s t = try_fail-Took code (refresh s) (refresh-Took s t)
    finish_submit-Took lease_lost s t = t

    module _
        (quiet : ((x : Source) → r.probing.source x ≡ x)
          × ((x : Source) → r.submitting.source x ≡ x)) where
      submit-Took : (s : Session) → Took prefix before s → Took prefix before (submit r s)
      submit-Took s t =
          finish_submit-Took r.submission _ (t.0 ∙ sym (quiet.1 s.row), rw (quiet.1 s.row) t.1)

      absent_probe-Took :
          (s : Session) → Took prefix before s → Took prefix before (absent_probe r s)
      absent_probe-Took s t = go r.allows_submit r.seal_error
        where
          go :
              (allows : Bool) (sealed : Option ErrorCode)
              → Took prefix before (if not allows then put_off r s else try_submit r sealed s)
          go false sealed =
              commit-Took prefix before s _ t
                (postpone-Allowed prefix before r.backoff_seconds r.now s.held)
          go true none = submit-Took s t
          go true (some code) = try_fail-Took code s t

      failed_probe-Took :
          (code : Option ErrorCode) (s : Session)
          → Took prefix before s
          → Took prefix before (failed_probe r code s)
      failed_probe-Took none s t = absent_probe-Took s t
      failed_probe-Took (some source_index_missing) s t = absent_probe-Took s t
      failed_probe-Took (some code) s t = try_fail-Took code s t

      landed-Took :
          (done : Bool) (s : Session)
          → Took prefix before s
          → Took prefix before (if done then try_ready r s else s)
      landed-Took true s t = try_ready-Took s t
      landed-Took false s t = t

      submitting_probe-Took :
          (s : Session) → Took prefix before s → Took prefix before (submitting_probe r s)
      submitting_probe-Took s t =
          go (or_else s.held.index_remote_document_id r.private_remote_id) r.readiness.ready
            r.readiness.failed
        where
          go :
              (remote : ℕ) (ready failed : Bool)
              → Took prefix before (
                  if ready
                  then (let (s', done) = try_accept r remote s in
                      if done then try_ready r s' else s')
                  else if not failed
                  then (try_accept r remote s).0
                  else failed_probe r r.readiness.error_code s)
          go remote true failed = landed-Took _ _ (try_accept-Took remote s t)
          go remote false false = try_accept-Took remote s t
          go remote false true = failed_probe-Took r.readiness.error_code s t

      -- Both kinds of run: the heartbeat, then the probe where it renewed the lease.
      renewed-Took :
          (probe : Session → Session)
          → ((s : Session) → Took prefix before s → Took prefix before (probe s))
          → (renewed : Bool) (s : Session) → Took prefix before s
          → Took prefix before (if renewed then probe (meanwhile r.probing s) else s)
      renewed-Took probe p true s t = p _ (t.0 ∙ sym (quiet.0 s.row), rw (quiet.0 s.row) t.1)
      renewed-Took probe p false s t = t

      beat-Took : (s : Session) → Took prefix before s → Took prefix before (Worker.beat r s).0
      beat-Took s t =
          commit-Took prefix before (refresh s) _ (refresh-Took s t)
            (beat-Allowed prefix before r.owner r.lease_seconds r.now s.row)

      run_once-Took : (s : Session) → Took prefix before s → Took prefix before (run_once r s)
      unfolding run_once run_accepted run_submitting
      run_once-Took s t =
          go s.held.index_request_id refl (is_state submitting s.held) (is_state accepted s.held)
        where
          go :
              (o : Option RequestId)
              → s.held.index_request_id ≡ o
              → (is_submitting is_accepted : Bool)
              → Took prefix before (elim o [
                | none ↦ (commit s (some (fail_request_missing r.now s.held))).0
                | some _ ↦
                    if is_submitting
                    then run_submitting r s
                    else if is_accepted
                    then run_accepted r s
                    else s
              ])
          go none e is_submitting is_accepted =
              commit-Took prefix before s _ t (miss-Allowed prefix before r.now s.held e)
          go (some q) e true is_accepted =
              renewed-Took (submitting_probe r) submitting_probe-Took _ _ (beat-Took s t)
          go (some q) e false true =
              renewed-Took (accepted_probe r) accepted_probe-Took _ _ (beat-Took s t)
          go (some q) e false false = t

-- A run of the worker on a claimed source, whatever the runtime answers, during which nobody else
-- writes the source, keeps a consistent row consistent, and it ends with the session's copy equal to
-- the row.
pub run_once-IsConsistent :
    (prefix : ℕ → ℕ) (r : Run) (x : Source) (d : Domain)
    → ((y : Source) → r.probing.source y ≡ y) × ((y : Source) → r.submitting.source y ≡ y)
    → IsConsistent prefix x
    → let s' = run_once r (record { held = x; row = x; domain = d }) in
      (s'.held ≡ s'.row) × IsConsistent prefix s'.row
run_once-IsConsistent prefix r x d quiet v =
    let t =
      run_once-Took prefix x r quiet (record { held = x; row = x; domain = d }) (refl, here) in
    (t.0, Changes-IsConsistent prefix v t.1)
