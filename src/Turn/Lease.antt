-- ===== src/Turn/Lease.antt =====
-- The execution lease of a turn: `_turn_lease_current`, `_heartbeat_turn_lease`, and the claim of
-- `ConversationTurnWorker._claim_next_turn`. A heartbeat's refresh, check and write are one step; the
-- rows that another session has locked, which `SKIP LOCKED` passes over, are not modelled.
pub mod Exclusion
pub mod Claim
use ce_local_studio.Base.{
  ℕ, ◌+◌, ◌/◌, max, Bool, true, false, not, ◌&&◌, ◌||◌, Option, none, some, List, [], ◌∷◌, is_some,
  same_option, ◌==◌, ltb, leb, if◌then◌else◌, select,
}
use ce_local_studio.Turn.Types.{Status, Turn, is_running}

abbrev pub lease_heartbeat_seconds : ℕ → ℕ
lease_heartbeat_seconds lease_seconds = max 1 (lease_seconds / 3)

-- `lease_expires_at is not None and lease_expires_at >= current`
abbrev pub not_expired : Option ℕ → ℕ → Bool
not_expired none current = false
not_expired (some expires) current = leb current expires

unfoldable pub turn_lease_current : Turn → ℕ → ℕ → ℕ → Bool
turn_lease_current turn owner execution_generation current =
    if not (is_running turn.status)
    then false
    else if not (same_option turn.lease_owner (some owner))
    then false
    else if not (turn.execution_generation == execution_generation)
    then false
    else not_expired turn.lease_expires_at current

-- The turn, and whether the lease was renewed.
unfoldable pub heartbeat_turn_lease : Turn → ℕ → ℕ → ℕ → ℕ → Turn × Bool
unfolding turn_lease_current
heartbeat_turn_lease turn owner lease_seconds execution_generation current =
    if not (turn_lease_current turn owner execution_generation current) then (turn, false) else (
      record turn { lease_expires_at = some (current + lease_seconds); updated_at = current },
      true,
    )

-- `lease_expires_at IS NULL OR lease_expires_at < now`
abbrev pub lease_free : Option ℕ → ℕ → Bool
lease_free none now = true
lease_free (some expires) now = ltb expires now

abbrev pub due : Option ℕ → ℕ → Bool
due none now = false
due (some at) now = leb at now

-- The `WHERE` of `_claim_next_turn`.
unfoldable pub is_claimable : Turn → ℕ → Bool
is_claimable turn now =
    is_running turn.status && due turn.claimable_at now && lease_free turn.lease_expires_at now

unfoldable pub take_lease : ℕ → ℕ → ℕ → Turn → Turn
take_lease worker_id lease_seconds now turn = record turn {
  lease_owner = some worker_id;
  lease_expires_at = some (now + lease_seconds);
  execution_generation = turn.execution_generation + 1;
  updated_at = now;
}

-- `ORDER BY claimable_at, created_at, id`; a claimable turn has a `claimable_at`.
abbrev pub at_or_zero : Option ℕ → ℕ
at_or_zero none = 0
at_or_zero (some at) = at

abbrev pub before : Turn → Turn → Bool
before a b =
    ltb (at_or_zero a.claimable_at) (at_or_zero b.claimable_at)
    || (at_or_zero a.claimable_at == at_or_zero b.claimable_at)
      && (ltb a.created_at b.created_at || (a.created_at == b.created_at) && ltb a.id b.id)

-- The row that the query returns: the first of the claimable ones, by that order.
pub first_claimable : ℕ → List Turn → Option Turn
first_claimable now [] = none
first_claimable now (t ∷ ts) =
    let rest = first_claimable now ts in
    if is_claimable t now
    then elim rest [ none ↦ some t | some u ↦ some (if before u t then u else t) ]
    else rest

abbrev pub replace : Turn → List Turn → List Turn
replace u [] = []
replace u (t ∷ ts) = (if t.id == u.id then u else t) ∷ replace u ts

-- The claimed turn, if there is one, and the table with its row updated.
unfoldable pub claim_next_turn : ℕ → ℕ → ℕ → List Turn → Option Turn × List Turn
unfolding first_claimable is_claimable take_lease
claim_next_turn worker_id lease_seconds now table = elim (first_claimable now table) [
  | none ↦ (none, table)
  | some turn ↦
      let claimed = take_lease worker_id lease_seconds now turn in
      (some claimed, replace claimed table)
]
