-- ===== src/Indexing/Deleted.antt =====
-- What a cancellation that raises nothing has done, in the row and in the runtime.
use ce_local_studio.Base.{
  ℕ, ◌+◌, ◌≤◌, ◌≡◌, refl, Bool, true, false, not, ◌||◌, Option, none, some, arith, if◌then◌else◌,
  is_some, ◌⊎◌, inl, inr, Bool-cases,
}
use ce_local_studio.Indexing.Types.{
  RequestId, Source, Domain, is_state, cancelling, cancelled, not_requested, submitting, accepted,
  ready,
}
use ce_local_studio.Indexing.Requests.{
  Deletion, deleted, delete_raises, Outcome, IndexError, refuse, domain_state_conflict,
  source_state_conflict, cancel_source_index, delete_remote_if_needed, needs_remote_delete,
  remote_delete_required, cancel_after, is_deleting, bump_version, start_cancel, finish_cancel,
  advance_domain_graph_desired_generation, mark_domain_graph_applied_generation,
}

-- The runtime confirmed the deletion, and the domain's applied generation is the one it was for.
abbrev pub Confirmed : Deletion → Domain → Domain → Type 0
Confirmed deletion before after =
    (deletion ≡ deleted true)
    × (after.graph_desired_generation ≡ before.graph_desired_generation + 1)
    × (after.graph_applied_generation ≡ after.graph_desired_generation)

delete-Confirmed :
    (request : Option RequestId) (deletion : Deletion) (now : ℕ) (d : Domain)
    → is_some request ≡ true
    → d.graph_applied_generation ≤ d.graph_desired_generation
    → (delete_remote_if_needed request deletion now d).1 ≡ none
    → Confirmed deletion d (delete_remote_if_needed request deletion now d).0
unfolding delete_remote_if_needed advance_domain_graph_desired_generation
    mark_domain_graph_applied_generation
delete-Confirmed none deletion now d h le e = cc
delete-Confirmed (some request) (delete_raises code) now d h le e = cc
delete-Confirmed (some request) (deleted false) now d h le e = cc
delete-Confirmed (some request) (deleted true) now d h le e =
    (refl, ground (arith, le), ground (arith, le))

-- The columns of a cancelled source.
abbrev pub Cancelled : Source → Source → Type 0
Cancelled s s' =
    (is_state cancelled s' ≡ true)
    × (s'.index_request_id ≡ none)
    × (s'.index_remote_document_id ≡ none)
    × (s'.index_lease_owner ≡ none)
    × (s'.index_generation ≡ s.index_generation + 1)

-- A source that has no content in the runtime as far as its columns tell: it has no request id, or
-- it is not submitting, accepted or ready and has no remote document.
abbrev pub IsIdle : Source → Type 0
IsIdle s =
    (s.index_request_id ≡ none)
    ⊎ ((is_state submitting s ≡ false)
        × (is_state accepted s ≡ false)
        × (is_state ready s ≡ false)
        × (s.index_remote_document_id ≡ none))

absent : (o : Option RequestId) → is_some o ≡ false → o ≡ none
absent none h = refl
absent (some _) h = cc

no_document : (o : Option ℕ) → is_some o ≡ false → o ≡ none
no_document none h = refl
no_document (some _) h = cc

unneeded-IsIdle : (s : Source) → needs_remote_delete s ≡ false → IsIdle s
unfolding needs_remote_delete remote_delete_required
unneeded-IsIdle s h = elim (Bool-cases (is_some s.index_request_id)) [
  | inr n ↦ inl (absent s.index_request_id n)
  | inl y ↦ inr (
    ground (arith, h, y),
    ground (arith, h, y),
    ground (arith, h, y),
    no_document s.index_remote_document_id (ground (arith, h, y)),
  )
]

abbrev Ends : Deletion → Domain → Source → Outcome → Type 0
Ends deletion domain s o =
    Outcome.raised o ≡ none
    → Cancelled s (Outcome.source o) × (Confirmed deletion domain (Outcome.domain o) ⊎ IsIdle s)

delete-Ends :
    (request : Option RequestId) (deletion : Deletion) (now : ℕ) (d : Domain) (s : Source)
    → s.index_request_id ≡ request
    → d.graph_applied_generation ≤ d.graph_desired_generation
    → (delete_remote_if_needed request deletion now d).1 ≡ none
    → Confirmed deletion d (delete_remote_if_needed request deletion now d).0 ⊎ IsIdle s
delete-Ends none deletion now d s q le e = inr (inl q)
delete-Ends (some request) deletion now d s q le e =
    inl (delete-Confirmed (some request) deletion now d refl le e)

-- A cancellation that raises nothing ends `cancelled` without a request, a remote document or a
-- lease, at a new generation. And the runtime confirmed the deletion, for which the domain's desired
-- generation advanced and its applied one with it, unless the source had no request id, or was not
-- submitting, accepted or ready and had no remote document.
pub cancel_source_index-Confirmed :
    (deletion : Deletion) (now : ℕ) (domain : Domain) (s : Source)
    → domain.graph_applied_generation ≤ domain.graph_desired_generation
    → Outcome.raised (cancel_source_index deletion now domain s) ≡ none
    → Cancelled s (Outcome.source (cancel_source_index deletion now domain s))
      × (Confirmed deletion domain (Outcome.domain (cancel_source_index deletion now domain s))
          ⊎ IsIdle s)
unfolding cancel_source_index start_cancel finish_cancel
cancel_source_index-Confirmed deletion now domain s le =
    go (is_deleting domain.state) (not s.prepared)
      (is_state not_requested s || is_state cancelled s) (needs_remote_delete s) refl
  where
    after :
        (r : Domain × Option IndexError)
        → (r.1 ≡ none → Confirmed deletion domain r.0 ⊎ IsIdle s)
        → Ends deletion domain s (cancel_after now (bump_version (start_cancel cancelling now s)) r)
    after (d, none) c h = ((refl, refl, refl, refl, refl), c refl)
    after (d, some e) c h = cc

    go :
        (gone unprepared idle needed : Bool)
        → needs_remote_delete s ≡ needed
        → Ends deletion domain s (
            if gone
            then refuse s domain domain_state_conflict
            else if unprepared
            then refuse s domain source_state_conflict
            else if idle
            then refuse s domain source_state_conflict
            else cancel_after now (bump_version (start_cancel cancelling now s)) (
                if needed
                then delete_remote_if_needed s.index_request_id deletion now domain
                else (domain, none)))
    go true unprepared idle needed e = λ h. cc
    go false true idle needed e = λ h. cc
    go false false true needed e = λ h. cc
    go false false false true e =
        after (delete_remote_if_needed s.index_request_id deletion now domain)
          λ q. delete-Ends s.index_request_id deletion now domain s refl le q
    go false false false false e = after (domain, none) λ q. inr (unneeded-IsIdle s e)
