-- ===== src/Api/Claims.antt =====
-- The table of keys with a claim at its end.
use ce_local_studio.Base.{ℕ, ◌≡◌, refl, false, none, [], ◌∷◌, ◌++◌, arith, inl, inr, Bool-cases}
use ce_local_studio.Turn.Types.{Text}
use ce_local_studio.Idempotency.{HttpIdempotencyRecord, is_for, lookup, write_row, delete_row}
use ce_local_studio.Idempotency.Lookup.{Table, own_lookup, lookup-append_new, key_of}
use ce_local_studio.Api.Spec.{entry_of, view, set_key}

pub lookup-append_apart :
    (p r k : ℕ) (t : Table) (c : HttpIdempotencyRecord)
    → is_for p r k c ≡ false
    → lookup p r k (t ++ c ∷ []) ≡ lookup p r k t
lookup-append_apart p r k [] c n = ground (arith, n)
lookup-append_apart p r k (x ∷ t) c n = ground (arith, lookup-append_apart p r k t c)

pub delete_row-append :
    (t : Table) (c : HttpIdempotencyRecord) → own_lookup c t ≡ none → delete_row c (t ++ c ∷ []) ≡ t
delete_row-append [] c n = ground arith
delete_row-append (x ∷ t) c n = ground (arith, delete_row-append t c)

pub write_row-append :
    (t : Table) (c w : HttpIdempotencyRecord)
    → w.principal_user_id ≡ c.principal_user_id
    → w.route_class ≡ c.route_class
    → w.key_hash ≡ c.key_hash
    → own_lookup c t ≡ none
    → write_row w (t ++ c ∷ []) ≡ t ++ w ∷ []
write_row-append [] c w p r k n = ground (arith, p, r, k)
write_row-append (x ∷ t) c w p r k n = ground (arith, p, r, k, write_row-append t c w)

-- A new row is a new entry.
pub view-append :
    (no_refs : Text) (t : Table) (c : HttpIdempotencyRecord)
    → own_lookup c t ≡ none
    → (p r k : ℕ)
    → view no_refs (t ++ c ∷ []) p r k
      ≡ set_key c.principal_user_id c.route_class c.key_hash
          (entry_of no_refs c)
          (view no_refs t)
          p
          r
          k
view-append no_refs t c n p r k = elim (Bool-cases (is_for p r k c)) [
  | inr other ↦ rw (other, lookup-append_apart p r k t c other) refl
  | inl own ↦
      let (x, y, z) = key_of p r k c own in
      let absent : lookup p r k t ≡ none = rw (← x, ← y, ← z) n in
      rw (own, lookup-append_new p r k t c absent own) refl
]
