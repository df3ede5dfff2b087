-- ===== src/Turn/Lease/Exclusion.antt =====
-- The lease of a turn between executors.
use ce_local_studio.Base.{ℕ, ◌+◌, ◌≤◌, ◌≡◌, true, false, arith, ◌⊎◌}
use ce_local_studio.Turn.Types.{Turn, is_running}
use ce_local_studio.Turn.Lease.{turn_lease_current, heartbeat_turn_lease, is_claimable, take_lease}

-- While some executor holds the lease of a turn, the turn is not claimable.
pub held-not_claimable :
    (t : Turn) (owner generation now : ℕ)
    → turn_lease_current t owner generation now ≡ true
    → is_claimable t now ≡ false
unfolding turn_lease_current is_claimable
held-not_claimable t owner generation now h = ground arith

-- A claim starts a lease of its own generation, and ends every lease of an earlier one, whoever
-- held it: neither the old executor's lease check nor its heartbeat succeeds again.
pub take_lease-fences :
    (t : Turn) (worker seconds now : ℕ) (owner generation at lease_seconds : ℕ)
    → is_running t.status ≡ true
    → generation ≤ t.execution_generation
    → let t' = take_lease worker seconds now t in
      (turn_lease_current t' worker (t.execution_generation + 1) now ≡ true)
      × (turn_lease_current t' owner generation at ≡ false)
      × (heartbeat_turn_lease t' owner lease_seconds generation at ≡ (t', false))
unfolding turn_lease_current heartbeat_turn_lease take_lease
take_lease-fences t worker seconds now owner generation at lease_seconds run le = ground arith

-- A heartbeat that succeeds keeps the lease, its owner and its generation, for `lease_seconds` from
-- now; one that fails changes nothing.
pub heartbeat-extends :
    (t : Turn) (owner seconds generation now : ℕ)
    → let r = heartbeat_turn_lease t owner seconds generation now in
      ((r.1 ≡ true)
        × (turn_lease_current r.0 owner generation (now + seconds) ≡ true)
        × (r.0.execution_generation ≡ t.execution_generation))
      ⊎ ((r.1 ≡ false) × (r.0 ≡ t))
unfolding heartbeat_turn_lease turn_lease_current
heartbeat-extends t owner seconds generation now = ground arith
