-- ===== src/Indexing/Overtaken.antt =====
-- A run of a worker whose generation is over.
use ce_local_studio.Base.{
  ℕ, ◌+◌, ◌<◌, ◌≡◌, refl, Bool, true, false, not, Option, none, some, arith, if◌then◌else◌, or_else,
  guard-some, guard-else,
}
use ce_local_studio.Indexing.Types.{
  RequestId, ErrorCode, Source, is_state, submitting, accepted, source_index_missing,
  source_index_failed,
}
use ce_local_studio.Indexing.Requests.{
  advance_domain_graph_desired_generation, mark_domain_indexing_ever_started,
}
use ce_local_studio.Indexing.Results.{
  worker_result_is_current, heartbeat_index_lease, schedule_index_poll_backoff,
  mark_index_accepted_if_current, mark_index_ready_if_current, mark_index_failed_if_current,
  mark_index_uncertain_if_current, renewed, fail_request_missing,
}
use ce_local_studio.Indexing.Worker
use ce_local_studio.Indexing.Worker.{
  Session, Run, Others, Submission, submitted, timed_out, refused, lease_lost, commit, meanwhile,
  refresh, column, error_number, flush, apply_all, try_ready, try_accept, try_fail, accepted_probe,
  run_accepted, put_off, finish_submit, submit, try_submit, absent_probe, failed_probe,
  submitting_probe, run_submitting, run_state, run_once,
}
use ce_local_studio.Indexing.Fence.{
  LeftToOthers, as_found, leased, while_probing, while_submitting, Raises, flush-SameButLease,
  not_current,
}

module _ (r : Run) (x : Source) where
  -- A session that is past the run's generation in its copy and in the row.
  abbrev Past : Session → Type 0
  Past s =
      (r.generation < s.held.index_generation)
      × (r.generation < s.row.index_generation)
      × LeftToOthers r x s.row

  over : (s : Session) → Past s → worker_result_is_current s.held r.generation r.request_id ≡ false
  over s h = not_current s.held r.generation r.request_id h.0

  unwritten-Past : (s : Session) (o : Option Source) → o ≡ none → Past s → Past (commit s o).0
  unwritten-Past s o e h = rw e h

  leased-Past :
      (s : Session) (owner expires updated : Option ℕ) (at : ℕ)
      → Past s
      → Past
          (commit s (
            some (record s.held {
              index_lease_owner = owner;
              index_lease_expires_at = expires;
              index_updated_at = updated;
              updated_at = at;
            }))).0
  unfolding flush
  leased-Past s owner expires updated at h =
      (h.0, h.1, leased h.2 (flush-SameButLease s.held s.row owner expires updated at))

  refresh-Past : (s : Session) → Past s → Past (refresh s)
  refresh-Past s h = (h.1, h.1, h.2)

  try_accept-none :
      (remote : ℕ) (s : Session)
      → Past s
      → mark_index_accepted_if_current r.generation r.request_id remote r.now s.held ≡ none
  unfolding mark_index_accepted_if_current
  try_accept-none remote s h = ground (arith, over s h)

  try_accept-Past : (remote : ℕ) (s : Session) → Past s → Past (try_accept r remote s).0
  try_accept-Past remote s h = unwritten-Past s _ (try_accept-none remote s h) h

  try_ready-Past : (s : Session) → Past s → Past (try_ready r s)
  unfolding mark_index_ready_if_current
  try_ready-Past s h =
      let e : mark_index_ready_if_current r.generation r.request_id r.now s.held ≡ none =
        ground (arith, over s h) in
      rw e h

  try_fail-Past : (code : ErrorCode) (s : Session) → Past s → Past (try_fail r code s)
  unfolding mark_index_failed_if_current
  try_fail-Past code s h = unwritten-Past s _ (ground (arith, over s h)) h

  accepted_probe-Past : (s : Session) → Past s → Past (accepted_probe r s)
  unfolding schedule_index_poll_backoff
  accepted_probe-Past s h = go r.readiness.failed r.readiness.ready
    where
      go :
          (failed ready : Bool)
          → Past (
              if failed
              then try_fail r (or_else r.readiness.error_code source_index_failed) s
              else if ready
              then try_ready r s
              else (commit s (
                  schedule_index_poll_backoff r.generation r.request_id r.backoff_seconds r.now
                    s.held)).0)
      go true ready = try_fail-Past _ s h
      go false true = try_ready-Past s h
      go false false = unwritten-Past s _ (ground (arith, over s h)) h

  finish_submit-Past :
      (outcome : Submission) (s : Session) → Past s → Past (finish_submit r outcome s)
  unfolding mark_index_uncertain_if_current
  finish_submit-Past (submitted remote) s h = try_accept-Past remote s h
  finish_submit-Past timed_out s h =
      let h' = refresh-Past s h in
      unwritten-Past (refresh s) _ (ground (arith, over (refresh s) h')) h'
  finish_submit-Past (refused code) s h = try_fail-Past code (refresh s) (refresh-Past s h)
  finish_submit-Past lease_lost s h = h

  module _ (raising : Raises r.probing × Raises r.submitting) where
    probing-Past : (s : Session) → Past s → Past (meanwhile r.probing s)
    probing-Past s h = (h.0, omega (arith, h.1, raising.0 s.row), while_probing h.2)

    submitting-Past : (s : Session) → Past s → Past (meanwhile r.submitting s)
    submitting-Past s h = (h.0, omega (arith, h.1, raising.1 s.row), while_submitting h.2)

    submit-Past : (s : Session) → Past s → Past (submit r s)
    submit-Past s h =
        let started = mark_domain_indexing_ever_started r.now s.domain in
        let s' : Session = record s {
          domain = advance_domain_graph_desired_generation r.now started;
        } in
        finish_submit-Past r.submission (meanwhile r.submitting s') (submitting-Past s' h)

    absent_probe-Past : (s : Session) → Past s → Past (absent_probe r s)
    absent_probe-Past s h = go r.allows_submit r.seal_error
      where
        go :
            (allows : Bool) (sealed : Option ErrorCode)
            → Past (if not allows then put_off r s else try_submit r sealed s)
        go false sealed = leased-Past s none (some (r.now + r.backoff_seconds)) (some r.now) r.now h
        go true none = submit-Past s h
        go true (some code) = try_fail-Past code s h

    failed_probe-Past :
        (code : Option ErrorCode) (s : Session) → Past s → Past (failed_probe r code s)
    failed_probe-Past none s h = absent_probe-Past s h
    failed_probe-Past (some source_index_missing) s h = absent_probe-Past s h
    failed_probe-Past (some code) s h = try_fail-Past code s h

    submitting_probe-Past : (s : Session) → Past s → Past (submitting_probe r s)
    submitting_probe-Past s h =
        go (or_else s.held.index_remote_document_id r.private_remote_id) r.readiness.ready
          r.readiness.failed
      where
        go :
            (remote : ℕ) (ready failed : Bool)
            → Past (
                if ready
                then (let (s', done) = try_accept r remote s in if done then try_ready r s' else s')
                else if not failed
                then (try_accept r remote s).0
                else failed_probe r r.readiness.error_code s)
        go remote true failed = rw (try_accept-none remote s h) h
        go remote false false = try_accept-Past remote s h
        go remote false true = failed_probe-Past r.readiness.error_code s h

    beat-Past : (s : Session) → Past s → Past (Worker.beat r s).0
    unfolding heartbeat_index_lease
    beat-Past s h = go (heartbeat_index_lease r.owner r.lease_seconds r.now s.row) refl
      where
        go :
            (o : Option Source)
            → heartbeat_index_lease r.owner r.lease_seconds r.now s.row ≡ o
            → Past (commit (refresh s) o).0
        go none e = refresh-Past s h
        go (some new) e =
            let (_, e') = guard-else _ _ e in
            let (_, q) = guard-some _ (renewed r.lease_seconds r.now s.row) e' in
            let expires = some (r.now + r.lease_seconds) in
            let owner = s.row.index_lease_owner in
            rw q (leased-Past (refresh s) owner expires (some r.now) r.now (refresh-Past s h))

    renewed-Past :
        (probe : Session → Session)
        → ((s : Session) → Past s → Past (probe s))
        → (renews : Bool) (s : Session) → Past s
        → Past (if renews then probe (meanwhile r.probing s) else s)
    renewed-Past probe p true s h = p _ (probing-Past s h)
    renewed-Past probe p false s h = h

-- A worker's run on a source whose row has come to a later generation before the run's heartbeat,
-- whatever copy of the source with a request id the session still holds, whatever the runtime
-- answers, and whatever others write meanwhile without lowering the generation: the row is taken only
-- by those writes of others, and by changes of the lease and of the instants of the last change; the
-- run records no acceptance, no readiness, no failure and no error code.
pub superseded_run :
    (r : Run) (s : Session) (q : RequestId)
    → r.generation < s.row.index_generation
    → s.held.index_request_id ≡ some q
    → Raises r.probing
    → Raises r.submitting
    → LeftToOthers r s.row (run_once r s).row
unfolding run_once run_accepted run_submitting
superseded_run r s q later requested probing submitting' =
    go s.held.index_request_id requested (is_state submitting s.held) (is_state accepted s.held)
  where
    start : Past r s.row (refresh s)
    start = (later, later, as_found)

    go :
        (o : Option RequestId)
        → o ≡ some q
        → (is_submitting is_accepted : Bool)
        → LeftToOthers r s.row (
            Session.row (elim o [
              | none ↦ (commit s (some (fail_request_missing r.now s.held))).0
              | some _ ↦
                  if is_submitting
                  then run_submitting r s
                  else if is_accepted
                  then run_accepted r s
                  else s
            ]))
    go none e is_submitting is_accepted = cc
    go (some _) e true is_accepted =
        (renewed-Past r s.row (probing, submitting') (submitting_probe r)
          (submitting_probe-Past r s.row (probing, submitting')) (Worker.beat r s).1
          (Worker.beat r s).0 (beat-Past r s.row (probing, submitting') (refresh s) start)).2
    go (some _) e false true =
        (renewed-Past r s.row (probing, submitting') (accepted_probe r)
          (accepted_probe-Past r s.row) (Worker.beat r s).1 (Worker.beat r s).0
          (beat-Past r s.row (probing, submitting') (refresh s) start)).2
    go (some _) e false false = as_found
