-- ===== src/Idempotency/Once.antt =====
-- The life of a key: any calls, in any order, and what they leave of its record.
use ce_local_studio.Base.{
  ℕ, ◌≡◌, refl, sym, ap, ◌∙◌, Bool, true, false, Option, some, Result, ok, err, length, ◌==◌,
  same_text, if◌then◌else◌, arith, inl, inr, Bool-cases,
}
use ce_local_studio.Turn.Types.{Text}
use ce_local_studio.Idempotency.{
  HttpIdempotencyRecord, IdempotencyError, idempotency_conflict, capacity_unavailable, is_pending,
  is_for, lookup, new_record, IdempotencyOutcome, claimed, replay, resolve_existing, resolve,
  begin_idempotent, completed_record, complete_idempotent, abandon_idempotent,
}
use ce_local_studio.Idempotency.Lookup.{
  Table, own_lookup, lookup-append_new, lookup-append_some, lookup-write_own, lookup-write_apart,
  lookup-delete_apart, key_of, complete-ok,
}
use ce_local_studio.Idempotency.Replay.{
  begin-Ready, begin-Ready_of, begin_with-kept, begin-claimed, begin-found,
}

module _ {Refs : Type 0} (loads : Text → Option Refs) (no_refs : Text) (hash : Text → ℕ)
    (known_class : ℕ → Bool) where
  -- What the requests do to the table. Others may act between the first look of a begin and its
  -- insert; who completes or abandons a record has the row that the table holds.
  mutual
    pub data Acts : Table → Table → Type 0 where
      done : {t : Table} → Acts t t
      more : {t u v : Table} → Acts t u → Act u v → Acts t v

    pub data Act : Table → Table → Type 0 where
      begins :
          (refused : Bool) (meanwhile : Table → Table) (p r : ℕ) (raw f : Text)
          (o : IdempotencyOutcome Refs) {t u : Table}
          → Acts t (meanwhile t)
          → begin_idempotent loads no_refs hash known_class refused meanwhile p r raw f t
            ≡ ok (o, u)
          → Act t u
      completes :
          (row : HttpIdempotencyRecord) (status : ℕ) (kind json : Text) (now : ℕ) {t u : Table}
          → own_lookup row t ≡ some row
          → complete_idempotent row status kind json now t ≡ ok u
          → Act t u
      abandons :
          (row : HttpIdempotencyRecord) {t u : Table}
          → own_lookup row t ≡ some row
          → u ≡ abandon_idempotent row t
          → Act t u

  module _ (p r k : ℕ) where
    -- What requests other than the one that claimed the key do to the table: they may begin any
    -- key, and complete or abandon the record of another one.
    mutual
      pub data OtherActs : Table → Table → Type 0 where
        quiet : {t : Table} → OtherActs t t
        followed : {t u v : Table} → OtherActs t u → OtherAct u v → OtherActs t v

      pub data OtherAct : Table → Table → Type 0 where
        other_begins :
            (refused : Bool) (meanwhile : Table → Table) (p' r' : ℕ) (raw f : Text)
            (o : IdempotencyOutcome Refs) {t u : Table}
            → OtherActs t (meanwhile t)
            → begin_idempotent loads no_refs hash known_class refused meanwhile p' r' raw f t
              ≡ ok (o, u)
            → OtherAct t u
        other_completes :
            (row : HttpIdempotencyRecord) (status : ℕ) (kind json : Text) (now : ℕ) {t u : Table}
            → is_for p r k row ≡ false
            → complete_idempotent row status kind json now t ≡ ok u
            → OtherAct t u
        other_abandons :
            (row : HttpIdempotencyRecord) {t u : Table}
            → is_for p r k row ≡ false
            → u ≡ abandon_idempotent row t
            → OtherAct t u

  module _ (p r k : ℕ) (kept : HttpIdempotencyRecord) where
    complete-keeps :
        (row : HttpIdempotencyRecord) (status : ℕ) (kind json : Text) (now : ℕ) (t u : Table)
        → lookup p r k t ≡ some kept
        → (is_pending row.state ≡ true → is_for p r k row ≡ false)
        → complete_idempotent row status kind json now t ≡ ok u
        → lookup p r k u ≡ some kept
    complete-keeps row status kind json now t u h away e =
        let (y, q) = complete-ok row status kind json now t u e in
        rw q (lookup-write_apart (completed_record status kind json now row) p r k t (away y) ∙ h)

    abandon-keeps :
        (row : HttpIdempotencyRecord) (t : Table)
        → lookup p r k t ≡ some kept
        → (is_pending row.state ≡ true → is_for p r k row ≡ false)
        → lookup p r k (abandon_idempotent row t) ≡ some kept
    unfolding abandon_idempotent
    abandon-keeps row t h away = elim (Bool-cases (is_pending row.state)) [
      | inr n ↦ rw n h
      | inl y ↦ rw y (lookup-delete_apart row p r k t (away y) ∙ h)
    ]

    begin-keeps :
        (refused : Bool) (meanwhile : Table → Table) (p' r' : ℕ) (raw f : Text) (t u : Table)
        (o : IdempotencyOutcome Refs)
        → lookup p r k t ≡ some kept
        → lookup p r k (meanwhile t) ≡ some kept
        → begin_idempotent loads no_refs hash known_class refused meanwhile p' r' raw f t
          ≡ ok (o, u)
        → lookup p r k u ≡ some kept
    begin-keeps refused meanwhile p' r' raw f t u o h m e =
        let ready =
          begin-Ready_of loads no_refs hash known_class refused meanwhile p' r' raw f t u o e in
        elim (begin_with-kept loads no_refs hash known_class (new_record p' r' (hash raw) f) refused
          meanwhile t u _ o
          (sym (begin-Ready loads no_refs hash known_class refused meanwhile p' r' raw f t ready)
            ∙ e)) [
              | inl (q, _) ↦ rw q h
              | inr (inl (q, _)) ↦ rw q m
              | inr (inr (_, _, q, _)) ↦
                  rw q (lookup-append_some p r k (meanwhile t) _ {row = kept} m)
            ]

    pub OtherActs-keeps :
        {t u : Table}
        → OtherActs p r k t u
        → lookup p r k t ≡ some kept
        → lookup p r k u ≡ some kept
    OtherActs-keeps quiet h = h
    OtherActs-keeps (followed {t} {u} {v} before (other_begins refused meanwhile p' r' raw f o m e))
          h =
        let h' = OtherActs-keeps before h in
        begin-keeps refused meanwhile p' r' raw f u v o h' (OtherActs-keeps m h') e
    OtherActs-keeps (followed {t} {u} {v} before (other_completes row status kind json now n e)) h =
        complete-keeps row status kind json now u v (OtherActs-keeps before h) (λ _. n) e
    OtherActs-keeps (followed {t} {u} {v} before (other_abandons row n e)) h =
        rw e (abandon-keeps row u (OtherActs-keeps before h) λ _. n)

    module _ (over : is_pending kept.state ≡ false) where
      -- A row that may still change is another one.
      apart :
          (t : Table) (row : HttpIdempotencyRecord)
          → lookup p r k t ≡ some kept
          → own_lookup row t ≡ some row
          → is_pending row.state ≡ true
          → is_for p r k row ≡ false
      apart t row h l y = elim (Bool-cases (is_for p r k row)) [
        | inr n ↦ n
        | inl own ↦
            let (x, x', x'') = key_of p r k row own in
            let same : some kept ≡ some row = sym h ∙ rw (← x, ← x', ← x'') l in
            ground (arith, same, over, y)
      ]

      pub Acts-keeps :
          {t u : Table} → Acts t u → lookup p r k t ≡ some kept → lookup p r k u ≡ some kept
      Acts-keeps done h = h
      Acts-keeps (more {t} {u} {v} before (begins refused meanwhile p' r' raw f o m e)) h =
          let h' = Acts-keeps before h in
          begin-keeps refused meanwhile p' r' raw f u v o h' (Acts-keeps m h') e
      Acts-keeps (more {t} {u} {v} before (completes row status kind json now l e)) h =
          let h' = Acts-keeps before h in
          complete-keeps row status kind json now u v h' (apart u row h' l) e
      Acts-keeps (more {t} {u} {v} before (abandons row l e)) h =
          let h' = Acts-keeps before h in rw e (abandon-keeps row u h' (apart u row h' l))

pub new_record-is_for : (p r k : ℕ) (f : Text) → is_for p r k (new_record p r k f) ≡ true
new_record-is_for p r k f = ground arith

claimed_key :
    (c : HttpIdempotencyRecord) (p r k : ℕ) (f : Text)
    → c ≡ new_record p r k f
    → (c.principal_user_id ≡ p) × (c.route_class ≡ r) × (c.key_hash ≡ k)
claimed_key c p r k f e = (
  ap (λ (x : HttpIdempotencyRecord). x.principal_user_id) e,
  ap (λ (x : HttpIdempotencyRecord). x.route_class) e,
  ap (λ (x : HttpIdempotencyRecord). x.key_hash) e,
)

-- The answer to a fingerprint `f'` where the first request had `f`.
abbrev pub answer :
    {Refs : Type 0}
    → Text
    → Text
    → IdempotencyOutcome Refs
    → Table
    → Result IdempotencyError (IdempotencyOutcome Refs × Table)
answer f f' o u = if same_text f f' then ok (o, u) else err idempotency_conflict

resolve-completed :
    {Refs : Type 0} (loads : Text → Option Refs) (no_refs : Text) (c : HttpIdempotencyRecord)
    (status : ℕ) (kind json : Text) (now : ℕ) (f' : Text) (refs : Refs) (u : Table)
    → loads json ≡ some refs
    → resolve loads no_refs (completed_record status kind json now c) f' u
      ≡ answer c.fingerprint f' (replay (some status) (some kind) refs) u
unfolding resolve_existing
resolve-completed loads no_refs c status kind json now f' refs u l =
    elim (Bool-cases (same_text c.fingerprint f')) [ inl y ↦ rw (y, l) refl | inr n ↦ rw n refl ]

-- The first request of a key claims it and completes it. From then on, whatever calls come between,
-- the same request of the key answers with the status, the kind and the references that the first
-- one stored, and a request with another fingerprint is refused as a conflict; neither writes.
pub completed_answers :
    {Refs : Type 0} (loads : Text → Option Refs) (no_refs : Text) (hash : Text → ℕ)
    (known_class : ℕ → Bool) (p r : ℕ) (raw f f' : Text) (refused refused' : Bool)
    (meanwhile meanwhile' : Table → Table) (t t1 t2 u : Table) (c : HttpIdempotencyRecord)
    (status : ℕ) (kind json : Text) (now : ℕ) (refs : Refs)
    → begin_idempotent loads no_refs hash known_class refused meanwhile p r raw f t
      ≡ ok (claimed c, t1)
    → complete_idempotent c status kind json now t1 ≡ ok t2
    → loads json ≡ some refs
    → Acts loads no_refs hash known_class t2 u
    → (length f' == 64) ≡ true
    → begin_idempotent loads no_refs hash known_class refused' meanwhile' p r raw f' u
      ≡ answer f f' (replay (some status) (some kind) refs) u
completed_answers loads no_refs hash known_class p r raw f f' refused refused' meanwhile meanwhile'
      t t1 t2 u c status kind json now refs b w l acts size =
    let (ready, same, q, absent) =
      begin-claimed loads no_refs hash known_class refused meanwhile p r raw f t t1 c b in
    let (_, q2) = complete-ok c status kind json now t1 t2 w in
    let there : lookup p r (hash raw) t1 ≡ some c = rw q (
      lookup-append_new p r (hash raw) (meanwhile t) c absent
        (rw same (new_record-is_for p r (hash raw) f))) in
    let row = completed_record status kind json now c in
    let there2 : lookup p r (hash raw) t2 ≡ some row =
      rw q2
        (lookup-write_own c row p r (hash raw) t1 there (claimed_key c p r (hash raw) f same)) in
    let kept = Acts-keeps loads no_refs hash known_class p r (hash raw) row refl acts there2 in
    begin-found loads no_refs hash known_class refused' meanwhile' p r raw f' u row
      (ready.0, size, ready.2) kept
    ∙ resolve-completed loads no_refs c status kind json now f' refs u l
    ∙ ap
        (λ (x : HttpIdempotencyRecord).
          answer x.fingerprint f' (replay (some status) (some kind) refs) u)
        same

-- After a request has claimed a key, other requests may begin any key and complete or abandon the
-- records of other keys, in any order. As long as the record of this key is neither completed nor
-- abandoned, no request of the key may run: the same request is told that it is in progress, one
-- with another fingerprint that there is a conflict.
pub claim_excludes :
    {Refs : Type 0} (loads : Text → Option Refs) (no_refs : Text) (hash : Text → ℕ)
    (known_class : ℕ → Bool) (p r : ℕ) (raw f f' : Text) (refused refused' : Bool)
    (meanwhile meanwhile' : Table → Table) (t t1 u : Table) (c : HttpIdempotencyRecord)
    → begin_idempotent loads no_refs hash known_class refused meanwhile p r raw f t
      ≡ ok (claimed c, t1)
    → OtherActs loads no_refs hash known_class p r (hash raw) t1 u
    → (length f' == 64) ≡ true
    → begin_idempotent loads no_refs hash known_class refused' meanwhile' p r raw f' u
      ≡ err (if same_text f f' then capacity_unavailable else idempotency_conflict)
unfolding resolve_existing
claim_excludes loads no_refs hash known_class p r raw f f' refused refused' meanwhile meanwhile' t
      t1 u c b acts size =
    let (ready, same, q, absent) =
      begin-claimed loads no_refs hash known_class refused meanwhile p r raw f t t1 c b in
    let there : lookup p r (hash raw) t1 ≡ some c = rw q (
      lookup-append_new p r (hash raw) (meanwhile t) c absent
        (rw same (new_record-is_for p r (hash raw) f))) in
    let kept = OtherActs-keeps loads no_refs hash known_class p r (hash raw) c acts there in
    begin-found loads no_refs hash known_class refused' meanwhile' p r raw f' u c
      (ready.0, size, ready.2) kept
    ∙ rw same (elim (Bool-cases (same_text f f')) [ inl y ↦ rw y refl | inr n ↦ rw n refl ])
