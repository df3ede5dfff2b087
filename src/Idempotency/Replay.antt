-- ===== src/Idempotency/Replay.antt =====
-- One request of a key runs, and the others get its answer.
use ce_local_studio.Base.{
  ℕ, ◌≡◌, ◌≢◌, refl, sym, ap, ◌∙◌, Bool, true, false, ◌||◌, Option, none, some, [], ◌∷◌, ◌++◌,
  Result, ok, length, ◌==◌, same_text, or_else, ◌⊎◌, inl, inr, Bool-cases, Option-cases,
}
use ce_local_studio.Turn.Types.{Text}
use ce_local_studio.Turn.Stream.{strip, is_empty}
use ce_local_studio.Idempotency.Lookup.{Table}
use ce_local_studio.Idempotency.{
  HttpIdempotencyRecord, IdempotencyError, is_pending, lookup, new_record, IdempotencyOutcome,
  claimed, hash_idempotency_key, resolve_existing, resolve, insert_record, begin_with,
  begin_idempotent,
}

ok_pair :
    {A B : Type 0} (x y : A) (u v : B)
    → ◌≡◌ {A = Result IdempotencyError (A × B)} (ok (x, u)) (ok (y, v))
    → (x ≡ y) × (u ≡ v)
ok_pair {A} {B} x y u v h =
    let e : ◌≡◌ {A = A × B} (x, u) (y, v) = cc h in (ap (λ p. p.0) e, ap (λ p. p.1) e)

-- The requests that `begin_idempotent` looks up.
abbrev pub Ready : (ℕ → Bool) → ℕ → Text → Text → Type 0
Ready known_class route_class raw_key fingerprint =
    (known_class route_class ≡ true)
    × ((length fingerprint == 64) ≡ true)
    × ((is_empty raw_key || is_empty (strip raw_key)) ≡ false)

module _ {Refs : Type 0} (loads : Text → Option Refs) (no_refs : Text) (hash : Text → ℕ)
    (known_class : ℕ → Bool) where
  pub begin-Ready :
      (refused : Bool) (meanwhile : Table → Table) (p r : ℕ) (raw f : Text) (t : Table)
      → Ready known_class r raw f
      → begin_idempotent loads no_refs hash known_class refused meanwhile p r raw f t
        ≡ begin_with loads no_refs
            (new_record p r (hash raw) f)
            refused
            meanwhile
            t
            (lookup p r (hash raw) t)
  unfolding begin_idempotent hash_idempotency_key
  begin-Ready refused meanwhile p r raw f t h = rw (h.0, h.1, h.2) refl

  pub begin-Ready_of :
      (refused : Bool) (meanwhile : Table → Table) (p r : ℕ) (raw f : Text) (t u : Table)
      (o : IdempotencyOutcome Refs)
      → begin_idempotent loads no_refs hash known_class refused meanwhile p r raw f t ≡ ok (o, u)
      → Ready known_class r raw f
  unfolding begin_idempotent hash_idempotency_key
  begin-Ready_of refused meanwhile p r raw f t u o h = elim (Bool-cases (known_class r)) [
    | inr n ↦ cc
    | inl k ↦ elim (Bool-cases (length f == 64)) [
      | inr n ↦ cc
      | inl l ↦ elim (Bool-cases (is_empty raw || is_empty (strip raw))) [
        | inl y ↦ cc
        | inr b ↦ (k, l, b)
      ]
    ]
  ]

  -- A row that is there answers: the stored response, or an error; the table stays.
  pub resolve-kept :
      (row : HttpIdempotencyRecord) (f : Text) (t u : Table) (o : IdempotencyOutcome Refs)
      → resolve loads no_refs row f t ≡ ok (o, u)
      → (u ≡ t) × ((c : HttpIdempotencyRecord) → o ≢ claimed c)
  unfolding resolve_existing
  resolve-kept row f t u o h = elim (Bool-cases (same_text row.fingerprint f)) [
    | inr n ↦ cc
    | inl s ↦ elim (Bool-cases (is_pending row.state)) [
      | inl y ↦ cc
      | inr n ↦ elim (Option-cases (loads (or_else row.response_refs_json no_refs))) [
        | inl e ↦ cc
        | inr (refs, e) ↦
            let q = ok_pair _ _ _ _ (rw (s, n, e) at h) in (sym q.1, λ c k. cc (q.0, k))
      ]
    ]
  ]

  pub begin_with-kept :
      (row : HttpIdempotencyRecord) (refused : Bool) (meanwhile : Table → Table) (t u : Table)
      (o : Option HttpIdempotencyRecord) (x : IdempotencyOutcome Refs)
      → begin_with loads no_refs row refused meanwhile t o ≡ ok (x, u)
      → ((u ≡ t) × ((c : HttpIdempotencyRecord) → x ≢ claimed c))
        ⊎ ((u ≡ meanwhile t) × ((c : HttpIdempotencyRecord) → x ≢ claimed c))
        ⊎ ((o ≡ none)
            × (x ≡ claimed row)
            × (u ≡ meanwhile t ++ row ∷ [])
            × (lookup row.principal_user_id row.route_class row.key_hash (meanwhile t) ≡ none))
  begin_with-kept row refused meanwhile t u (some existing) x h =
      inl (resolve-kept existing row.fingerprint t u x h)
  begin_with-kept row refused meanwhile t u none x h =
      go (lookup row.principal_user_id row.route_class row.key_hash (meanwhile t)) refl refused h
    where
      go :
          (o : Option HttpIdempotencyRecord)
          → lookup row.principal_user_id row.route_class row.key_hash (meanwhile t) ≡ o
          → (refused : Bool) → insert_record loads no_refs row refused (meanwhile t) o ≡ ok (x, u)
          → ((u ≡ t) × ((c : HttpIdempotencyRecord) → x ≢ claimed c))
            ⊎ ((u ≡ meanwhile t) × ((c : HttpIdempotencyRecord) → x ≢ claimed c))
            ⊎ ((◌≡◌ {A = Option HttpIdempotencyRecord} none none)
                × (x ≡ claimed row)
                × (u ≡ meanwhile t ++ row ∷ [])
                × (lookup row.principal_user_id row.route_class row.key_hash (meanwhile t) ≡ none))
      go (some raced) e refused h =
          inr (inl (resolve-kept raced row.fingerprint (meanwhile t) u x h))
      go none e true h = cc
      go none e false h = inr (inr (refl, sym (ok_pair _ _ _ _ h).0, sym (ok_pair _ _ _ _ h).1, e))

  module _ (refused : Bool) (meanwhile : Table → Table) (p r : ℕ) (raw f : Text) where
    -- What a claim of a key leaves.
    pub begin-claimed :
        (t u : Table) (c : HttpIdempotencyRecord)
        → begin_idempotent loads no_refs hash known_class refused meanwhile p r raw f t
          ≡ ok (claimed c, u)
        → Ready known_class r raw f
          × (c ≡ new_record p r (hash raw) f)
          × (u ≡ meanwhile t ++ c ∷ [])
          × (lookup p r (hash raw) (meanwhile t) ≡ none)
    begin-claimed t u c h =
        let ready = begin-Ready_of refused meanwhile p r raw f t u (claimed c) h in
        elim (begin_with-kept (new_record p r (hash raw) f) refused meanwhile t u _ (claimed c)
          (sym (begin-Ready refused meanwhile p r raw f t ready) ∙ h)) [
            | inl (_, n) ↦ absurd (n c refl)
            | inr (inl (_, n)) ↦ absurd (n c refl)
            | inr (inr (_, q, e, l)) ↦
                let same : c ≡ new_record p r (hash raw) f = cc q in (ready, same, rw same e, l)
          ]

    -- Where the key has a row, the call answers from it.
    pub begin-found :
        (t : Table) (row : HttpIdempotencyRecord)
        → Ready known_class r raw f
        → lookup p r (hash raw) t ≡ some row
        → begin_idempotent loads no_refs hash known_class refused meanwhile p r raw f t
          ≡ resolve loads no_refs row f t
    begin-found t row ready l =
        begin-Ready refused meanwhile p r raw f t ready
        ∙ ap (begin_with loads no_refs (new_record p r (hash raw) f) refused meanwhile t) l
