-- ===== src/Api/Settled.antt =====
-- A request with a key that succeeded is not performed again.
use ce_local_studio.Base.{
  ℕ, ◌≡◌, ◌≢◌, refl, ap, sym, ◌∙◌, Bool, false, ◌||◌, Option, none, some, ◌==◌, inl, inr,
  Bool-cases, Option-cases, Result, ok, err, length, same_text, or_else,
}
use ce_local_studio.Turn.Types.{Text}
use ce_local_studio.Turn.Stream.{strip, is_empty}
use ce_local_studio.Idempotency.{
  HttpIdempotencyRecord, IdempotencyOutcome, IdempotencyError, claimed, replay, is_pending, lookup,
  new_record, resolve, resolve_existing, begin_idempotent, begin_with, insert_record,
  hash_idempotency_key, completed_record, complete_idempotent,
}
use ce_local_studio.Idempotency.Lookup.{Table, lookup-append_new, lookup-write_own, complete-ok}
use ce_local_studio.Idempotency.Replay.{
  resolve-kept, begin-Ready, begin-found, begin-claimed, begin-Ready_of,
}
use ce_local_studio.Idempotency.Once.{Acts, Acts-keeps, new_record-is_for}
use ce_local_studio.Api.Request.{
  Handler, State, Reply, Keyed, completed_with, after_service, after_begin, keyed_request,
}

-- The key has an answer.
abbrev pub Settled : ℕ → ℕ → ℕ → Table → Type 0
Settled p r k t =
    (row : HttpIdempotencyRecord) × (lookup p r k t ≡ some row) × (is_pending row.state ≡ false)

module _ {World Error Row : Type 0} (handler : Handler World Error Row) (p k : ℕ) (f : Text)
    (now : ℕ) where
  completed-Settled :
      (t : Table) (row : Row) (world : World) (stored : Result IdempotencyError Table)
      {reply : ℕ × Row} {after : State World}
      → lookup p handler.route_class k t ≡ some (new_record p handler.route_class k f)
      → complete_idempotent
          (new_record p handler.route_class k f)
          handler.http_status
          handler.response_kind
          (handler.response_refs row)
          now
          t
        ≡ stored
      → completed_with handler row (record { table = t; world = world }) stored ≡ (ok reply, after)
      → Settled p handler.route_class k after.table
  completed-Settled t row world (err raised) l e h = cc
  completed-Settled t row world (ok u) {reply} {after} l e h =
      let claim = new_record p handler.route_class k f in
      let done =
        completed_record handler.http_status handler.response_kind (handler.response_refs row) now
          claim in
      let (_, w) =
        complete-ok claim handler.http_status handler.response_kind (handler.response_refs row) now
          t u e in
      let same : u ≡ after.table = ap (λ (x : Reply Error Row × State World). x.1.table) h in
      (
        done,
        rw (← same, w) (lookup-write_own claim done p handler.route_class k t l (refl, refl, refl)),
        refl,
      )

  -- A service that succeeds, whose claim nobody else ends meanwhile, settles the key.
  after_service-Settled :
      (t : Table) (outcome : Result Error Row × World) {reply : ℕ × Row} {after : State World}
      → lookup p handler.route_class k t ≡ some (new_record p handler.route_class k f)
      → after_service handler (new_record p handler.route_class k f) now t outcome
        ≡ (ok reply, after)
      → Settled p handler.route_class k after.table
  after_service-Settled t (err raised, world) l e = cc
  after_service-Settled t (ok row, world) {reply} {after} l e =
      completed-Settled t row world _ {reply = reply} {after = after} l refl e

module _ {Refs : Type 0} (loads : Text → Option Refs) (no_refs : Text) where
  resolved_not_pending :
      (row : HttpIdempotencyRecord) (f : Text) (t u : Table) (o : IdempotencyOutcome Refs)
      → resolve loads no_refs row f t ≡ ok (o, u)
      → is_pending row.state ≡ false
  unfolding resolve_existing
  resolved_not_pending row f t u o e = elim (Bool-cases (is_pending row.state)) [
    | inr n ↦ n
    | inl y ↦ elim (Bool-cases (same_text row.fingerprint f)) [
      | inl s ↦ absurd (cc (rw (s, y) at e))
      | inr s ↦ absurd (cc (rw s at e))
    ]
  ]

  -- A new key is claimed.
  new_key-claimed :
      (row : HttpIdempotencyRecord) (t u : Table) (status : Option ℕ) (kind : Option Text)
      (refs : Refs)
      → lookup row.principal_user_id row.route_class row.key_hash t ≡ none
      → begin_with loads no_refs row false
          (λ t. t)
          t
          (lookup row.principal_user_id row.route_class row.key_hash t)
        ≢ ok (replay status kind refs, u)
  new_key-claimed row t u status kind refs n b =
      let fresh : insert_record loads no_refs row false t none ≡ ok (replay status kind refs, u) =
        rw (n, n) at b in
      cc fresh

module _ {Refs : Type 0} (loads : Text → Option Refs) (no_refs : Text) (reference : Refs → Option ℕ)
    (hash : Text → ℕ) (known_class : ℕ → Bool) {World Error Row : Type 0} where
  -- Where the key has an answer, a request only reads.
  resolved-unchanged :
      (handler : Handler World Error Row) (row : HttpIdempotencyRecord) (f : Text) (now : ℕ)
      (others : Table → Table) (state : State World)
      → (after_begin loads no_refs reference hash known_class handler now others state
          (resolve loads no_refs row f state.table)).1
        ≡ state
  unfolding resolve_existing
  resolved-unchanged handler row f now others state =
      elim (Bool-cases (same_text row.fingerprint f)) [
        | inr n ↦ rw n refl
        | inl s ↦ elim (Bool-cases (is_pending row.state)) [
          | inl y ↦ rw (s, y) refl
          | inr y ↦ elim (Option-cases (loads (or_else row.response_refs_json no_refs))) [
            | inl e ↦ rw (s, y, e) refl
            | inr (refs, e) ↦ rw (s, y, e) refl
          ]
        ]
      ]

  module _ (handler : Handler World Error Row) (who : Keyed) (now : ℕ) (others : Table → Table)
      (state : State World) where
    keyed_request-unchanged :
        (row : HttpIdempotencyRecord)
        → lookup who.principal_user_id handler.route_class (hash who.raw_key) state.table ≡ some row
        → (keyed_request loads no_refs reference hash known_class handler who now others state).1
          ≡ state
    unfolding keyed_request begin_idempotent hash_idempotency_key
    keyed_request-unchanged row l = elim (Bool-cases (known_class handler.route_class)) [
      | inr n ↦ rw n refl
      | inl c ↦ elim (Bool-cases (length who.fingerprint == 64)) [
        | inr n ↦ rw (c, n) refl
        | inl f ↦ elim (Bool-cases (is_empty who.raw_key || is_empty (strip who.raw_key))) [
          | inl y ↦ rw (c, f, y) refl
          | inr b ↦
              rw
                (begin-found loads no_refs hash known_class false (λ t. t) who.principal_user_id
                  handler.route_class who.raw_key who.fingerprint state.table row (c, f, b) l)
                (resolved-unchanged handler row who.fingerprint now others state)
        ]
      ]
    ]

    -- What a request that begins comes to.
    begun-Settled :
        (begun : Result IdempotencyError (IdempotencyOutcome Refs × Table)) {reply : ℕ × Row}
        {after : State World}
        → ((t : Table)
            → lookup who.principal_user_id handler.route_class (hash who.raw_key) (others t)
              ≡ lookup who.principal_user_id handler.route_class (hash who.raw_key) t)
        → begin_idempotent loads no_refs hash known_class false
            (λ t. t)
            who.principal_user_id
            handler.route_class
            who.raw_key
            who.fingerprint
            state.table
          ≡ begun
        → after_begin loads no_refs reference hash known_class handler now others state begun
          ≡ (ok reply, after)
        → Settled who.principal_user_id handler.route_class (hash who.raw_key) after.table
    begun-Settled (err raised) keep b e = cc
    begun-Settled (ok (claimed c, t1)) {reply} {after} keep b e =
        let p = who.principal_user_id in
        let r = handler.route_class in
        let k = hash who.raw_key in
        let f = who.fingerprint in
        let (ready, same, q, absent) =
          begin-claimed loads no_refs hash known_class false (λ t. t) p r who.raw_key f state.table
            t1 c b in
        let there : lookup p r k (others t1) ≡ some (new_record p r k f) =
          keep t1
          ∙ rw (q, same)
              (lookup-append_new p r k state.table (new_record p r k f) absent
                (new_record-is_for p r k f)) in
        after_service-Settled handler p k f now (others t1) (handler.perform state.world)
          {reply = reply} {after = after} there (rw same at e)
    begun-Settled (ok (replay status kind refs, t1)) {reply} {after} keep b e =
        let p = who.principal_user_id in
        let r = handler.route_class in
        let k = hash who.raw_key in
        let ready =
          begin-Ready_of loads no_refs hash known_class false (λ t. t) p r who.raw_key
            who.fingerprint state.table t1 (replay status kind refs) b in
        let same : t1 ≡ after.table = ap (λ (x : Reply Error Row × State World). x.1.table) e in
        elim (Option-cases (lookup p r k state.table)) [
          | inl n ↦ absurd (
              new_key-claimed loads no_refs (new_record p r k who.fingerprint) state.table t1 status
                kind refs n
                (sym (
                    begin-Ready loads no_refs hash known_class false (λ t. t) p r who.raw_key
                      who.fingerprint state.table ready)
                  ∙ b))
          | inr (row, l) ↦
              let found =
                sym (
                  begin-found loads no_refs hash known_class false (λ t. t) p r who.raw_key
                    who.fingerprint state.table row ready l)
                ∙ b in
              let (kept, _) =
                resolve-kept loads no_refs hash known_class row who.fingerprint state.table t1
                  (replay status kind refs) found in
              (
                row,
                rw (← same, kept) l,
                resolved_not_pending loads no_refs row who.fingerprint state.table t1
                    (replay status kind refs) found,
              )
        ]

-- Exactly once. A request with a key got an answer that is a success, and nobody else ended its claim
-- while the service ran. From then on, whatever begins, completions and abandonments of keys come
-- between and whatever the world has become, no request of that user to a handler of that route class
-- with that key reaches the service, whatever its payload: it writes neither the world nor the keys.
pub performed_once :
    {Refs : Type 0} (loads : Text → Option Refs) (no_refs : Text) (reference : Refs → Option ℕ)
    (hash : Text → ℕ) (known_class : ℕ → Bool) {World Error Row : Type 0}
    (handler : Handler World Error Row) (who : Keyed) (now : ℕ) (others : Table → Table)
    (state : State World) (reply : ℕ × Row) (after : State World)
    → ((t : Table)
        → lookup who.principal_user_id handler.route_class (hash who.raw_key) (others t)
          ≡ lookup who.principal_user_id handler.route_class (hash who.raw_key) t)
    → keyed_request loads no_refs reference hash known_class handler who now others state
      ≡ (ok reply, after)
    → (u : Table) → Acts loads no_refs hash known_class after.table u
    → (handler' : Handler World Error Row) (who' : Keyed) (now' : ℕ) (others' : Table → Table)
      (world : World)
    → handler'.route_class ≡ handler.route_class
    → who'.principal_user_id ≡ who.principal_user_id
    → who'.raw_key ≡ who.raw_key
    → (keyed_request loads no_refs reference hash known_class handler' who' now' others'
        (record { table = u; world = world })).1
      ≡ record { table = u; world = world }
unfolding keyed_request
performed_once loads no_refs reference hash known_class handler who now others state reply after
      keep first u acts handler' who' now' others' world sr sp sk =
    let p = who.principal_user_id in
    let r = handler.route_class in
    let k = hash who.raw_key in
    let (row, there, over) =
      begun-Settled loads no_refs reference hash known_class handler who now others state _
        {reply = reply} {after = after} keep refl first in
    let kept : lookup p r k u ≡ some row =
      Acts-keeps loads no_refs hash known_class p r k row over acts there in
    let found : lookup who'.principal_user_id handler'.route_class (hash who'.raw_key) u
        ≡ some row =
      rw (sp, sr, sk) kept in
    keyed_request-unchanged loads no_refs reference hash known_class handler' who' now' others'
      (record { table = u; world = world }) row found
