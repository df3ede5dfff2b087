-- ===== src/Api/Refines.antt =====
-- The handlers keep the promises of Api/Spec.
use mathlib.Core.Path.{fun_ext}
use ce_local_studio.Base.{
  ℕ, ◌≡◌, refl, Bool, false, ◌||◌, Option, none, some, List, [], ◌∷◌, ◌++◌, ◌==◌, inl, inr,
  Bool-cases, Option-cases, Result, ok, err, length, same_text, or_else,
}
use ce_local_studio.Turn.Types.{Text}
use ce_local_studio.Turn.Stream.{strip, is_empty}
use ce_local_studio.Idempotency.{
  HttpIdempotencyRecord, is_pending, lookup, new_record, resolve, resolve_existing,
  begin_idempotent, hash_idempotency_key, completed_record, complete_idempotent, abandon_idempotent,
}
use ce_local_studio.Idempotency.Lookup.{Table, own_lookup}
use ce_local_studio.Idempotency.Replay.{Ready, begin-found, begin-Ready}
use ce_local_studio.Api.Request.{
  Handler, State, Reply, Keyed, after_service, after_begin, keyed_request, request, Arrival, serve,
}
use ce_local_studio.Api.Claims.{delete_row-append, write_row-append, view-append}
use ce_local_studio.Api.Spec.{
  Abstract, set_key, entry_of, view, abstraction, promised_service, promised, spec_keyed,
  spec_request, spec_serve,
}

-- A reply with the state as the promise sees it.
abbrev pub abstracted :
    {World Error Row : Type 0}
    → Text
    → Reply Error Row × State World
    → Reply Error Row × Abstract World
abstracted no_refs (reply, state) = (reply, abstraction no_refs state)

abbrev pub abstracted_all :
    {World Error Row : Type 0}
    → Text
    → List (Reply Error Row) × State World
    → List (Reply Error Row) × Abstract World
abstracted_all no_refs (replies, state) = (replies, abstraction no_refs state)

view-append_path :
    (no_refs : Text) (t : Table) (c : HttpIdempotencyRecord)
    → own_lookup c t ≡ none
    → view no_refs (t ++ c ∷ [])
      ≡ set_key c.principal_user_id c.route_class c.key_hash (entry_of no_refs c) (view no_refs t)
view-append_path no_refs t c n =
    fun_ext (λ p. fun_ext (λ r. fun_ext (λ k. view-append no_refs t c n p r k)))

module _ {World Error Row : Type 0} (no_refs : Text) (handler : Handler World Error Row) (p k : ℕ)
    (f : Text) (now : ℕ) (t : Table) (n : lookup p handler.route_class k t ≡ none) where
  -- The end of a request whose claim is the last row.
  after_service-promised :
      (outcome : Result Error Row × World)
      → abstracted no_refs (
          after_service handler
            (new_record p handler.route_class k f)
            now
            (t ++ new_record p handler.route_class k f ∷ [])
            outcome)
        ≡ promised_service handler p f k (view no_refs t) outcome
  unfolding complete_idempotent abandon_idempotent
  after_service-promised (err raised, world) = elim (Bool-cases (handler.caught raised)) [
    | inl y ↦ rw (y, delete_row-append t (new_record p handler.route_class k f) n) refl
    | inr y ↦ rw (y, view-append_path no_refs t (new_record p handler.route_class k f) n) refl
  ]
  after_service-promised (ok row, world) = elim (Bool-cases (is_empty handler.response_kind)) [
    | inl y ↦ rw (y, view-append_path no_refs t (new_record p handler.route_class k f) n) refl
    | inr y ↦
        let claim = new_record p handler.route_class k f in
        let done =
          completed_record handler.http_status handler.response_kind (handler.response_refs row) now
            claim in
        rw (y, write_row-append t claim done refl refl refl n, view-append_path no_refs t done n)
          refl
  ]

module _ {Refs : Type 0} (loads : Text → Option Refs) (no_refs : Text) (reference : Refs → Option ℕ)
    (hash : Text → ℕ) (known_class : ℕ → Bool) {World Error Row : Type 0} where
  -- A key that has a row.
  resolved-promised :
      (handler : Handler World Error Row) (row : HttpIdempotencyRecord) (p k : ℕ) (f : Text)
      (now : ℕ) (others : Table → Table) (state : State World)
      → abstracted no_refs (
          after_begin loads no_refs reference hash known_class handler now others state
            (resolve loads no_refs row f state.table))
        ≡ promised loads reference hash known_class handler p f k
            (abstraction no_refs state)
            (some (entry_of no_refs row))
  unfolding resolve_existing
  resolved-promised handler row p k f now others state =
      elim (Bool-cases (same_text row.fingerprint f)) [
        | inr n ↦ elim (Bool-cases (is_pending row.state)) [
          | inl y ↦ rw (n, y) (rw n refl)
          | inr y ↦ rw (n, y) (rw n refl)
        ]
        | inl s ↦ elim (Bool-cases (is_pending row.state)) [
          | inl y ↦ rw (s, y) (rw s refl)
          | inr y ↦ elim (Option-cases (loads (or_else row.response_refs_json no_refs))) [
            | inl e ↦ rw (s, y, e) (rw s refl)
            | inr (refs, e) ↦ rw (s, y, e) (rw s refl)
          ]
        ]
      ]

  module _ (handler : Handler World Error Row) (who : Keyed) (now : ℕ) (state : State World) where
    found-promised :
        (row : HttpIdempotencyRecord)
        → Ready known_class handler.route_class who.raw_key who.fingerprint
        → lookup who.principal_user_id handler.route_class (hash who.raw_key) state.table ≡ some row
        → abstracted no_refs
            (keyed_request loads no_refs reference hash known_class handler who now (λ t. t) state)
          ≡ spec_keyed loads reference hash known_class handler who (abstraction no_refs state)
    unfolding keyed_request spec_keyed
    found-promised row (c, l, b) e =
        rw
          (
            begin-found loads no_refs hash known_class false (λ t. t) who.principal_user_id
                handler.route_class who.raw_key who.fingerprint state.table row (c, l, b) e,
            c,
            l,
            b,
            e,
          )
          (resolved-promised handler row who.principal_user_id (hash who.raw_key) who.fingerprint
            now (λ t. t) state)

    absent-promised :
        Ready known_class handler.route_class who.raw_key who.fingerprint
        → lookup who.principal_user_id handler.route_class (hash who.raw_key) state.table ≡ none
        → abstracted no_refs
            (keyed_request loads no_refs reference hash known_class handler who now (λ t. t) state)
          ≡ spec_keyed loads reference hash known_class handler who (abstraction no_refs state)
    unfolding keyed_request spec_keyed
    absent-promised (c, l, b) e =
        rw
          (
            begin-Ready loads no_refs hash known_class false (λ t. t) who.principal_user_id
                handler.route_class who.raw_key who.fingerprint state.table (c, l, b),
            c,
            l,
            b,
            e,
          )
          (rw e (
            after_service-promised no_refs handler who.principal_user_id (hash who.raw_key)
              who.fingerprint now state.table e (handler.perform state.world)))

    pub keyed_request-promised :
        abstracted no_refs
          (keyed_request loads no_refs reference hash known_class handler who now (λ t. t) state)
        ≡ spec_keyed loads reference hash known_class handler who (abstraction no_refs state)
    unfolding keyed_request spec_keyed begin_idempotent hash_idempotency_key
    keyed_request-promised = elim (Bool-cases (known_class handler.route_class)) [
      | inr n ↦ rw n refl
      | inl c ↦ elim (Bool-cases (length who.fingerprint == 64)) [
        | inr n ↦ rw (c, n) refl
        | inl l ↦ elim (Bool-cases (is_empty who.raw_key || is_empty (strip who.raw_key))) [
          | inl y ↦ rw (c, l, y) refl
          | inr b ↦
              elim (Option-cases
                (lookup who.principal_user_id handler.route_class (hash who.raw_key) state.table)) [
                  | inl e ↦ absent-promised (c, l, b) e
                  | inr (row, e) ↦ found-promised row (c, l, b) e
                ]
        ]
      ]
    ]

  request-promised :
      (arrival : Arrival World Error Row) (state : State World)
      → abstracted no_refs (
          request loads no_refs reference hash known_class arrival.handler arrival.key arrival.now
            (λ t. t)
            state)
        ≡ spec_request loads reference hash known_class arrival.handler arrival.key
            (abstraction no_refs state)
  unfolding request spec_request
  request-promised arrival state = elim (Option-cases arrival.key) [
    | inl e ↦ rw e refl
    | inr (who, e) ↦ rw e (keyed_request-promised arrival.handler who arrival.now state)
  ]

  -- A sequence of requests, with keys or without, to handlers that share a world: every reply, the state
  -- of the world and what the table says of each key are those of the promise, in which a new key lets
  -- its request through to the service, a failure that the handler catches leaves the key new, and an
  -- answered key answers with what was stored or refuses another payload, whatever the rows' order.
  pub serve-promised :
      (arrivals : List (Arrival World Error Row)) (state : State World)
      → abstracted_all no_refs (serve loads no_refs reference hash known_class arrivals state)
        ≡ spec_serve loads reference hash known_class arrivals (abstraction no_refs state)
  unfolding serve spec_serve
  serve-promised [] state = refl
  serve-promised (arrival ∷ rest) state =
      rw
        (
          ← request-promised arrival state,
          ← serve-promised rest
              (request loads no_refs reference hash known_class arrival.handler arrival.key
                arrival.now (λ t. t) state).1,
        )
        refl
