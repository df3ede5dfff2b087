-- ===== src/Lifecycle/Removed.antt =====
-- A run of the delete worker that nobody disturbs removes the domain.
use mathlib.Core.Path.{subst}
use ce_local_studio.Base.{
  ℕ, ◌+◌, ◌≤◌, ◌≡◌, refl, sym, ap, ◌∙◌, Bool, true, none, some, List, [], ◌∷◌, arith, ◌==◌, inl,
  inr, ok, Bool-cases, eqb_refl, eqb→eq, All,
}
use ce_local_studio.Lifecycle.Types.{Operation, Domain, Rows, LifecycleSettings, ControllerOutcome}
use ce_local_studio.Lifecycle.Rows.{
  Outcome, has_row, update_row, write, operation_lease_current, heartbeat_operation_lease,
}
use ce_local_studio.Lifecycle.Requests.{and_then}
use ce_local_studio.Lifecycle.Valid.{Sound, Distinct, IsValid}
use ce_local_studio.Lifecycle.Begun.{valid_of}
use ce_local_studio.Lifecycle.Removing.{
  Found, Found-has_row, oldest_claimable-Found, claimable-active,
}
use ce_local_studio.Lifecycle.DeleteWorker.{
  Removal, purged, oldest_claimable, claimed, claim_next_operation, heartbeat, commit_renewed,
  renewed_row, find_row, lease_still_owned, remove, remove_domain, after_delete, if_held,
  after_purge, run_removal, run_for, run_claimed,
}

-- A row that was written is found by its id.
find-update_row :
    (id : ℕ) (change : Operation → Operation) (os : List Operation) (o : Operation)
    → ((x : Operation) → (change x).id ≡ x.id)
    → find_row id os ≡ some o
    → find_row id (update_row id change os) ≡ some (change o)
find-update_row id change [] o k f = cc
find-update_row id change (x ∷ os) o k f = elim (Bool-cases (x.id == id)) [
  | inl e ↦
      let same : x ≡ o = ground (arith, e, f) in
      let h : ((change x).id == id) ≡ true = ap (λ n. n == id) (k x) ∙ e in
      rw (e, h) (ap some (ap change same))
  | inr e ↦ rw (e, e) (find-update_row id change os o k (rw e at f))
]

find-has_row :
    (id : ℕ) (os : List Operation) (o : Operation) → find_row id os ≡ some o → has_row id os ≡ true
find-has_row id [] o f = cc
find-has_row id (x ∷ os) o f = elim (Bool-cases (x.id == id)) [
  | inl e ↦ rw e
  | inr e ↦ rw e (find-has_row id os o (rw e at f))
]

Found-All :
    (Q : Operation → Type 0) (op : Operation) (os : List Operation) → Found op os → All Q os → Q op
Found-All Q op [] f q = absurd f
Found-All Q op (o ∷ os) (inl e) q = subst Q e q.0
Found-All Q op (o ∷ os) (inr f) q = Found-All Q op os f q.1

-- What a run goes by: its copy of the operation is leased until `until`, and so is the row.
record IsHeld (settings : LifecycleSettings) (until : ℕ) (d : Domain) (copy : Operation)
    (rows : Rows) : Type 0 where
  there : rows.domain ≡ some d
  row : Operation
  stored : find_row copy.id rows.operations ≡ some row
  copy_owner : copy.lease_owner ≡ some settings.delete_worker_id
  copy_until : copy.lease_expires_at ≡ some until
  row_owner : row.lease_owner ≡ some settings.delete_worker_id
  row_until : row.lease_expires_at ≡ some until
  present : d.control_generation ≡ copy.control_generation_at_start

held :
    (owner until now : ℕ) (o : Operation)
    → o.lease_owner ≡ some owner
    → o.lease_expires_at ≡ some until
    → now ≤ until
    → operation_lease_current owner now o ≡ true
unfolding operation_lease_current
held owner until now o e f h = ground (arith, e, f, h)

abbrev renewed_copy : LifecycleSettings → ℕ → Operation → Operation
renewed_copy settings now copy = record copy {
  lease_expires_at = some (now + settings.delete_lease_seconds);
  updated_at = now;
}

abbrev beaten : LifecycleSettings → ℕ → Operation → Rows → Rows
beaten settings now copy rows = record rows {
  operations =
      update_row copy.id (renewed_row now (some (now + settings.delete_lease_seconds)))
        rows.operations;
}

-- A heartbeat within the lease renews it.
heartbeat-held :
    (settings : LifecycleSettings) (until now : ℕ) (d : Domain) (copy : Operation) (rows : Rows)
    → IsHeld settings until d copy rows
    → now ≤ until
    → heartbeat settings now copy rows
      ≡ (ok (some (renewed_copy settings now copy)), beaten settings now copy rows)
unfolding heartbeat heartbeat_operation_lease commit_renewed write
heartbeat-held settings until now d copy rows s t = rw (
  held settings.delete_worker_id until now copy s.copy_owner s.copy_until t,
  find-has_row copy.id rows.operations s.row s.stored,
)

beaten-IsHeld :
    (settings : LifecycleSettings) (until now : ℕ) (d : Domain) (copy : Operation) (rows : Rows)
    → IsHeld settings until d copy rows
    → IsHeld settings
        (now + settings.delete_lease_seconds)
        d
        (renewed_copy settings now copy)
        (beaten settings now copy rows)
beaten-IsHeld settings until now d copy rows s = record {
  there = s.there;
  row = renewed_row now (some (now + settings.delete_lease_seconds)) s.row;
  stored = find-update_row copy.id _ rows.operations s.row (λ x. refl) s.stored;
  copy_owner = s.copy_owner;
  copy_until = refl;
  row_owner = s.row_owner;
  row_until = refl;
  present = s.present;
}

remove-held :
    (settings : LifecycleSettings) (r : Removal) (until : ℕ) (d : Domain) (copy : Operation)
    (rows : Rows)
    → IsHeld settings until d copy rows
    → r.ending ≤ until
    → remove settings r d copy rows ≡ (ok true, remove_domain rows)
unfolding remove lease_still_owned
remove-held settings r until d copy rows s t = rw (
  s.stored,
  held settings.delete_worker_id until r.ending s.row s.row_owner s.row_until t,
  and_then,
  s.present,
  eqb_refl copy.control_generation_at_start,
)

if_held-runs :
    (settings : LifecycleSettings) (until now : ℕ) (d : Domain) (copy : Operation) (rows : Rows)
    (rest : Operation → Rows → Outcome Bool)
    → IsHeld settings until d copy rows
    → now ≤ until
    → if_held settings now copy rows rest
      ≡ rest (renewed_copy settings now copy) (beaten settings now copy rows)
unfolding if_held
if_held-runs settings until now d copy rows rest s t =
    rw (heartbeat-held settings until now d copy rows s t, and_then)

module _ (settings : LifecycleSettings) (r : Removal) (d : Domain)
    (undisturbed : (x : Rows) → r.others x ≡ x) (p : r.purge ≡ purged)
    (o : r.result.outcome ≡ ControllerOutcome.succeeded) where
  after_purge-purged :
      (copy : Operation) (rows : Rows)
      → after_purge settings r d copy rows
        ≡ if_held settings r.third_beat copy rows
            (λ leased after. after_delete settings r d leased (r.others after))
  unfolding after_purge
  after_purge-purged copy rows = rw (p, after_purge)

  after_delete-succeeded :
      (copy : Operation) (rows : Rows)
      → after_delete settings r d copy rows ≡ remove settings r d copy rows
  unfolding after_delete
  after_delete-succeeded copy rows = rw (o, after_delete)

  -- The part of a run after the purge.
  purged_removes :
      (until : ℕ) (copy : Operation) (rows : Rows)
      → IsHeld settings until d copy rows
      → r.third_beat ≤ until
      → r.ending ≤ r.third_beat + settings.delete_lease_seconds
      → after_purge settings r d copy rows ≡ (ok true, remove_domain rows)
  purged_removes until copy rows s t1 t2 =
      let beat = beaten settings r.third_beat copy rows in
      let leased = renewed_copy settings r.third_beat copy in
      after_purge-purged copy rows
      ∙ if_held-runs settings until r.third_beat d copy rows _ s t1
      ∙ ap (after_delete settings r d leased) (undisturbed beat)
      ∙ after_delete-succeeded leased beat
      ∙ remove-held settings r _ d leased beat
          (beaten-IsHeld settings until r.third_beat d copy rows s) t2

  claimed_delete_removes :
      (until : ℕ) (copy : Operation) (rows : Rows)
      → IsHeld settings until d copy rows
      → r.first_beat ≤ until
      → r.second_beat ≤ r.first_beat + settings.delete_lease_seconds
      → r.third_beat ≤ r.second_beat + settings.delete_lease_seconds
      → r.ending ≤ r.third_beat + settings.delete_lease_seconds
      → run_claimed settings r copy rows ≡ (ok true, record { domain = none; operations = [] })
  unfolding run_claimed run_for run_removal
  claimed_delete_removes until copy rows s t1 t2 t3 t4 =
      let first = beaten-IsHeld settings until r.first_beat d copy rows s in
      let second = beaten-IsHeld settings _ r.second_beat d _ _ first in
      let c1 = renewed_copy settings r.first_beat copy in
      let rows1 = beaten settings r.first_beat copy rows in
      let c2 = renewed_copy settings r.second_beat c1 in
      let rows2 = beaten settings r.second_beat c1 rows1 in
      ap (run_for settings r copy rows) s.there
      ∙ if_held-runs settings until r.first_beat d copy rows _ s t1
      ∙ ap
          (λ x.
            if_held settings r.second_beat c1 x
              (λ second afterwards. after_purge settings r d second (r.others afterwards)))
          (undisturbed rows1)
      ∙ if_held-runs settings _ r.second_beat d c1 rows1 _ first t2
      ∙ ap (after_purge settings r d c2) (undisturbed rows2)
      ∙ purged_removes _ c2 rows2 second t3 t4

Found-find :
    (op : Operation) (os : List Operation) → Found op os → Distinct os → find_row op.id os ≡ some op
Found-find op [] f u = absurd f
Found-find op (o ∷ os) (inl e) u =
    subst (λ x. find_row x.id (o ∷ os) ≡ some x) e (rw (eqb_refl o.id))
Found-find op (o ∷ os) (inr f) u = elim (Bool-cases (o.id == op.id)) [
  | inl e ↦
      let h = Found-has_row op os f in
      let k = ap (λ x. has_row x os) (sym (eqb→eq o.id op.id e)) ∙ u.0 in cc
  | inr e ↦ rw e (Found-find op os f u.1)
]

-- The claim holds the lease of the delete that it takes.
claim-IsHeld :
    (says : ℕ → Bool) (settings : LifecycleSettings) (now : ℕ) (rows : Rows) (d : Domain)
    (op : Operation)
    → IsValid rows
    → rows.domain ≡ some d
    → oldest_claimable now rows.operations ≡ some op
    → IsHeld settings
        (now + settings.delete_lease_seconds)
        d
        (claimed says settings now op)
        (record rows { operations = update_row op.id (claimed says settings now) rows.operations })
unfolding claimed
claim-IsHeld says settings now rows d op v e h =
    let (s, u, k) = valid_of rows e v in
    let (f, c) = oldest_claimable-Found now rows.operations op h in
    record {
      there = e;
      row = claimed says settings now op;
      stored =
          find-update_row op.id (claimed says settings now) rows.operations op (λ x. refl)
            (Found-find op rows.operations f u);
      copy_owner = refl;
      copy_until = refl;
      row_owner = refl;
      row_until = refl;
      present =
          sym (
            Sound.current (Found-All (Sound d) op rows.operations f s) (claimable-active now op c));
    }

-- In valid rows, a worker that claims a delete and is disturbed by nobody, whose purge and deletion
-- succeed and whose heartbeats are each within the lease, removes the domain and its operations.
pub claimed_delete_ends :
    (says : ℕ → Bool) (settings : LifecycleSettings) (now : ℕ) (r : Removal) (rows : Rows)
    (d : Domain) (op : Operation)
    → IsValid rows
    → rows.domain ≡ some d
    → oldest_claimable now rows.operations ≡ some op
    → ((x : Rows) → r.others x ≡ x)
    → r.purge ≡ purged
    → r.result.outcome ≡ ControllerOutcome.succeeded
    → r.first_beat ≤ now + settings.delete_lease_seconds
    → r.second_beat ≤ r.first_beat + settings.delete_lease_seconds
    → r.third_beat ≤ r.second_beat + settings.delete_lease_seconds
    → r.ending ≤ r.third_beat + settings.delete_lease_seconds
    → let (taken, after) = claim_next_operation says settings now rows in
      (copy : Operation) × (taken ≡ some copy)
      × (run_claimed settings r copy after ≡ (ok true, record { domain = none; operations = [] }))
unfolding claim_next_operation
claimed_delete_ends says settings now r rows d op v e h n p o t1 t2 t3 t4 =
    rw (h, claim_next_operation)
      (
        claimed says settings now op,
        refl,
        claimed_delete_removes settings r d n p o (now + settings.delete_lease_seconds)
            (claimed says settings now op) _ (claim-IsHeld says settings now rows d op v e h) t1 t2
            t3 t4,
      )
