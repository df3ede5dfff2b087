-- ===== src/Indexing/Identity.antt =====
-- What one call does to a consistent source when it reads the row as it is.
use ce_local_studio.Base.{ℕ, refl, guard-some, guard-else}
use ce_local_studio.Indexing.Types.{Source}
use ce_local_studio.Indexing.Results.{
  heartbeat_index_lease, schedule_index_poll_backoff, mark_index_uncertain_if_current,
  uncertain_row, renewed, back_off, fail_request_missing,
}
use ce_local_studio.Indexing.Changes.{
  Change, publish, retry, cancel, cleanup, claim, miss, beat, poll, accept, finish, fail, doubt,
  postpone, Changes, here, next,
}
use ce_local_studio.Indexing.Consistent.{
  IsConsistent, Untouched-IsConsistent, accept-IsConsistent, cancel-IsConsistent,
  claim-IsConsistent, cleanup-IsConsistent, failed-IsConsistent, off-IsConsistent,
  publish-IsConsistent, ready-IsConsistent, retry-IsConsistent,
}

module _ (prefix : ℕ → ℕ) where
  Change-IsConsistent :
      {s s' : Source} → Change prefix s s' → IsConsistent prefix s → IsConsistent prefix s'
  unfolding fail_request_missing heartbeat_index_lease schedule_index_poll_backoff
      mark_index_uncertain_if_current
  Change-IsConsistent {s} (publish hash now) v = publish-IsConsistent prefix s hash now v
  Change-IsConsistent {s} (retry hash now deletion domain) v =
      retry-IsConsistent prefix s hash now deletion domain v
  Change-IsConsistent {s} (cancel now deletion domain) v =
      cancel-IsConsistent prefix s now deletion domain v
  Change-IsConsistent {s} (cleanup now deletion domain) v =
      cleanup-IsConsistent prefix s now deletion domain
  Change-IsConsistent {s} (claim worker seconds now h) v =
      claim-IsConsistent prefix s worker seconds now v
  Change-IsConsistent {s} (miss now h) v = off-IsConsistent prefix _ refl
  Change-IsConsistent {s} {s'} (beat owner seconds now e) v =
      let (_, e') = guard-else _ _ e in
      let (_, q) = guard-some _ (renewed seconds now s) e' in
      rw q (Untouched-IsConsistent prefix s _ (refl, refl, refl, refl, refl, refl, refl, refl) v)
  Change-IsConsistent {s} {s'} (poll generation request seconds now e) v =
      let (_, e') = guard-else _ _ e in
      let (_, q) = guard-some _ (back_off seconds now s) e' in
      rw q (Untouched-IsConsistent prefix s _ (refl, refl, refl, refl, refl, refl, refl, refl) v)
  Change-IsConsistent {s} {s'} (accept generation request remote now e) v =
      accept-IsConsistent prefix s s' generation request remote now v e
  Change-IsConsistent {s} {s'} (finish generation request now e) v =
      ready-IsConsistent prefix s s' generation request now v e
  Change-IsConsistent {s} {s'} (fail generation request code now e) v =
      failed-IsConsistent prefix s s' generation request code now e
  Change-IsConsistent {s} {s'} (doubt generation request seconds now e) v =
      let (_, q) = guard-some _ (uncertain_row seconds now s) e in
      rw q (Untouched-IsConsistent prefix s _ (refl, refl, refl, refl, refl, refl, refl, refl) v)
  Change-IsConsistent {s} (postpone seconds now) v =
      Untouched-IsConsistent prefix s _ (refl, refl, refl, refl, refl, refl, refl, refl) v

pub Changes-IsConsistent :
    (prefix : ℕ → ℕ) {s s' : Source}
    → IsConsistent prefix s
    → Changes prefix s s'
    → IsConsistent prefix s'
Changes-IsConsistent prefix v here = v
Changes-IsConsistent prefix v (next r c) =
    Change-IsConsistent prefix c (Changes-IsConsistent prefix v r)
