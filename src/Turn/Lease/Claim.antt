-- ===== src/Turn/Lease/Claim.antt =====
-- Which turn a worker claims.
use ce_local_studio.Base.{
  ℕ, ◌≡◌, refl, Bool, true, false, Option, none, some, List, [], ◌∷◌, arith, ◌⊎◌, inl, inr, All,
  if◌then◌else◌,
}
use ce_local_studio.Turn.Types.{Turn}
use ce_local_studio.Turn.Lease.{
  is_claimable, before, first_claimable, take_lease, replace, claim_next_turn,
}

-- A turn that is not claimable, or that does not come before `u`.
abbrev pub NotBefore : ℕ → Turn → Turn → Type 0
NotBefore now u t = is_claimable t now ≡ true → before t u ≡ false

before_asym : (t u : Turn) → before u t ≡ true → before t u ≡ false
before_asym t u h = ground (arith, h)

before_trans : (v u t : Turn) → before v u ≡ false → before u t ≡ false → before v t ≡ false
before_trans v u t h k = ground (arith, h, k)

idle :
    (now : ℕ) (u : Turn) (ts : List Turn)
    → All (λ (t : Turn). is_claimable t now ≡ false) ts
    → All (NotBefore now u) ts
idle now u [] h = tt
idle now u (t ∷ ts) h = ((λ c. cc (c, h.0)), idle now u ts h.1)

NotBefore-trans :
    (now : ℕ) (u t : Turn) (ts : List Turn)
    → before u t ≡ false
    → All (NotBefore now u) ts
    → All (NotBefore now t) ts
NotBefore-trans now u t [] k h = tt
NotBefore-trans now u t (v ∷ vs) k h =
    (λ c. before_trans v u t (h.0 c) k, NotBefore-trans now u t vs k h.1)

abbrev pub In : Turn → List Turn → Type 0
In u [] = ⊥
In u (t ∷ ts) = (u ≡ t) ⊎ In u ts

-- What the query of a claim finds.
abbrev pub Chosen : ℕ → List Turn → Option Turn → Type 0
Chosen now ts none = All (λ (t : Turn). is_claimable t now ≡ false) ts
Chosen now ts (some u) = In u ts × (is_claimable u now ≡ true) × All (NotBefore now u) ts

choose :
    (now : ℕ) (t : Turn) (ts : List Turn) (rest : Option Turn) (free : Bool)
    → is_claimable t now ≡ free
    → Chosen now ts rest
    → Chosen now (t ∷ ts) (
        if free
        then elim rest [ none ↦ some t | some u ↦ some (if before u t then u else t) ]
        else rest)
choose now t ts none false e c = (e, c)
choose now t ts none true e c = (inl refl, e, ((λ _. ground arith), idle now t ts c))
choose now t ts (some u) false e c = (inr c.0, c.1, ((λ h. cc (e, h)), c.2))
choose now t ts (some u) true e c = pick (before u t) refl
  where
    pick : (b : Bool) → before u t ≡ b → Chosen now (t ∷ ts) (some (if b then u else t))
    pick true y = (inr c.0, c.1, ((λ _. before_asym t u y), c.2))
    pick false n = (inl refl, e, ((λ _. ground arith), NotBefore-trans now u t ts n c.2))

first_claimable-Chosen : (now : ℕ) (ts : List Turn) → Chosen now ts (first_claimable now ts)
unfolding first_claimable
first_claimable-Chosen now [] = tt
first_claimable-Chosen now (t ∷ ts) =
    choose now t ts (first_claimable now ts) (is_claimable t now) refl
      (first_claimable-Chosen now ts)

-- A worker claims nothing only where no turn is claimable, and the table stays. Otherwise it claims
-- a claimable turn of the table that no claimable turn comes before, takes its lease at the next
-- generation, and writes that row.
pub claim_next_turn_lem :
    (worker seconds now : ℕ) (table : List Turn)
    → ((claim_next_turn worker seconds now table ≡ (none, table)) × Chosen now table none)
      ⊎ ((u : Turn) × Chosen now table (some u)
          × (claim_next_turn worker seconds now table ≡ (
            some (take_lease worker seconds now u),
            replace (take_lease worker seconds now u) table,
          )))
unfolding claim_next_turn
claim_next_turn_lem worker seconds now table =
    go (first_claimable now table) (first_claimable-Chosen now table)
  where
    go :
        (o : Option Turn)
        → Chosen now table o
        → let r : Option Turn × List Turn = elim o [
          | none ↦ (none, table)
          | some turn ↦ (
            some (take_lease worker seconds now turn),
            replace (take_lease worker seconds now turn) table,
          )
        ] in
          ((r ≡ (none, table)) × Chosen now table none)
          ⊎ ((u : Turn) × Chosen now table (some u)
              × (r ≡ (
                some (take_lease worker seconds now u),
                replace (take_lease worker seconds now u) table,
              )))
    go none c = inl (refl, c)
    go (some u) c = inr (u, c, refl)
