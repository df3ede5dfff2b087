-- ===== src/Api/Spec.antt =====
-- What the handlers with an `Idempotency-Key` promise: a key is new, in use, or answered. A new key lets
-- its request through to the service once; a key in use refuses, and an answered one answers again.
use ce_local_studio.Base.{
  ℕ, Bool, not, ◌&&◌, ◌||◌, Option, none, some, List, [], ◌∷◌, Result, ok, err, length, same_text,
  or_else, ◌==◌, if◌then◌else◌,
}
use ce_local_studio.Turn.Types.{Text}
use ce_local_studio.Turn.Stream.{strip, is_empty}
use ce_local_studio.Idempotency.{
  HttpIdempotencyRecord, internal_error, validation_error, idempotency_conflict,
  capacity_unavailable, is_pending, lookup,
}
use ce_local_studio.Idempotency.Lookup.{Table}
use ce_local_studio.Api.Request.{
  Handler, State, Arrival, idempotency, service, Reply, Keyed, replay_stored, shown,
}

pub data Entry : Type 0 where
  in_use : (fingerprint : Text) → Entry
  answered : (fingerprint : Text) (http_status : Option ℕ) (references : Text) → Entry

-- By user, route class and hash of the key; a function, so the order of the rows is forgotten.
abbrev pub Keys : Type 0
Keys = ℕ → ℕ → ℕ → Option Entry

abbrev pub set_key : ℕ → ℕ → ℕ → Entry → Keys → Keys
set_key p r k entry keys p' r' k' =
    if (p == p') && (r == r') && (k == k') then some entry else keys p' r' k'

pub record Abstract (World : Type 0) : Type 0 where
  pub keys : Keys
  pub world : World

module _ (no_refs : Text) where
  abbrev pub entry_of : HttpIdempotencyRecord → Entry
  entry_of row =
      if is_pending row.state
      then in_use row.fingerprint
      else answered row.fingerprint row.http_status (or_else row.response_refs_json no_refs)

  abbrev pub entry_option : Option HttpIdempotencyRecord → Option Entry
  entry_option none = none
  entry_option (some row) = some (entry_of row)

  abbrev pub view : Table → Keys
  view table p r k = entry_option (lookup p r k table)

  abbrev pub abstraction : {World : Type 0} → State World → Abstract World
  abstraction state = record { keys = view state.table; world = state.world }

module _ {World Error Row : Type 0} where
  abbrev pub promised_failure : Handler World Error Row → Error → ℕ → Text → ℕ → Keys → Keys
  promised_failure handler raised p fingerprint k keys =
      if handler.caught raised
      then keys
      else set_key p handler.route_class k (in_use fingerprint) keys

  -- The service runs, and the key takes its answer.
  abbrev pub promised_service :
      Handler World Error Row
      → ℕ
      → Text
      → ℕ
      → Keys
      → Result Error Row × World
      → Reply Error Row × Abstract World
  promised_service handler p fingerprint k keys (err raised, world) = (
    err (service raised),
    record { keys = promised_failure handler raised p fingerprint k keys; world = world },
  )
  promised_service handler p fingerprint k keys (ok row, world) =
      if is_empty handler.response_kind
      then (
        err (idempotency internal_error),
        record { keys = set_key p handler.route_class k (in_use fingerprint) keys; world = world },
      )
      else (
        ok (handler.http_status, row),
        record {
          keys =
              set_key p handler.route_class k
                (answered fingerprint (some handler.http_status) (handler.response_refs row)) keys;
          world = world;
        },
      )

module _ {Refs : Type 0} (loads : Text → Option Refs) (reference : Refs → Option ℕ)
    (hash : Text → ℕ) (known_class : ℕ → Bool) {World Error Row : Type 0} where
  abbrev pub promised_replay :
      Handler World Error Row → Option ℕ → Option Refs → World → Reply Error Row
  promised_replay handler status none world = err (idempotency internal_error)
  promised_replay handler status (some refs) world =
      replay_stored handler status (reference refs) world

  abbrev pub promised :
      Handler World Error Row
      → ℕ
      → Text
      → ℕ
      → Abstract World
      → Option Entry
      → Reply Error Row × Abstract World
  promised handler p fingerprint k state none =
      promised_service handler p fingerprint k state.keys (handler.perform state.world)
  promised handler p fingerprint k state (some (in_use taken)) = (
    err (
        idempotency
          (if same_text taken fingerprint then capacity_unavailable else idempotency_conflict)),
    state,
  )
  promised handler p fingerprint k state (some (answered taken status references)) = (
    (if same_text taken fingerprint
        then promised_replay handler status (loads references) state.world
        else err (idempotency idempotency_conflict)),
    state,
  )

  unfoldable pub spec_keyed :
      Handler World Error Row → Keyed → Abstract World → Reply Error Row × Abstract World
  spec_keyed handler request state =
      if not (known_class handler.route_class) || not (length request.fingerprint == 64)
      then (err (idempotency internal_error), state)
      else if is_empty request.raw_key || is_empty (strip request.raw_key)
      then (err (idempotency validation_error), state)
      else promised handler request.principal_user_id request.fingerprint (hash request.raw_key)
          state (state.keys request.principal_user_id handler.route_class (hash request.raw_key))

  abbrev pub spec_plain :
      Handler World Error Row → Abstract World → Reply Error Row × Abstract World
  spec_plain handler state =
      let (result, world) = handler.perform state.world in
      (shown handler.http_status result, record state { world = world })

  unfoldable pub spec_request :
      Handler World Error Row → Option Keyed → Abstract World → Reply Error Row × Abstract World
  unfolding spec_keyed
  spec_request handler none state = spec_plain handler state
  spec_request handler (some request) state = spec_keyed handler request state

  unfoldable pub spec_serve :
      List (Arrival World Error Row) → Abstract World → List (Reply Error Row) × Abstract World
  unfolding spec_request
  spec_serve [] state = ([], state)
  spec_serve (arrival ∷ rest) state =
      let (reply, after) = spec_request arrival.handler arrival.key state in
      let (replies, end) = spec_serve rest after in (reply ∷ replies, end)
