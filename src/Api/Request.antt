-- ===== src/Api/Request.antt =====
-- The body that the handlers with an `Idempotency-Key` share. A handler is its service with what it
-- answers, stores and reads back; the claim that `begin_idempotent` inserts is committed at the first
-- commit of the service, or with the answer.
use ce_local_studio.Base.{
  ℕ, Bool, false, Option, none, some, List, [], ◌∷◌, Result, ok, err, ◌==◌, if◌then◌else◌,
}
use ce_local_studio.Turn.Types.{Text}
use ce_local_studio.Idempotency.{
  HttpIdempotencyRecord, IdempotencyError, IdempotencyOutcome, claimed, replay, begin_idempotent,
  complete_idempotent, abandon_idempotent,
}
use ce_local_studio.Idempotency.Lookup.{Table}

-- `caught` says which errors of the service the handler catches; the others are raised by the database
-- after the service's first commit.
pub record Handler (World Error Row : Type 0) : Type 0 where
  pub route_class : ℕ
  pub http_status : ℕ
  pub response_kind : Text
  pub perform : World → Result Error Row × World
  pub response_refs : Row → Text
  pub stored_row : ℕ → World → Result Error Row
  pub caught : Error → Bool

-- The state of the program: the keys and the rest.
pub record State (World : Type 0) : Type 0 where
  pub table : Table
  pub world : World

-- What a request is refused with; `missing_reference` is the `KeyError` of stored references.
pub data RouteError (Error : Type 0) : Type 0 where
  idempotency : IdempotencyError → RouteError Error
  service : Error → RouteError Error
  missing_reference : RouteError Error

-- The status and the row that the response shows.
abbrev pub Reply : Type 0 → Type 0 → Type 0
Reply Error Row = Result (RouteError Error) (ℕ × Row)

-- `outcome.http_status or status`
abbrev pub status_or : Option ℕ → ℕ → ℕ
status_or none status = status
status_or (some stored) status = if stored == 0 then status else stored

-- Who asks: the user, the key and the fingerprint of the payload.
pub record Keyed : Type 0 where
  pub principal_user_id : ℕ
  pub raw_key : Text
  pub fingerprint : Text

abbrev pub shown : {Error Row : Type 0} → ℕ → Result Error Row → Reply Error Row
shown status (err raised) = err (service raised)
shown status (ok row) = ok (status, row)

module _ {World Error Row : Type 0} where
  -- A replay: the row that the stored references name, as it is now.
  abbrev pub replay_stored : Handler World Error Row → Option ℕ → Option ℕ → World → Reply Error Row
  replay_stored handler status none world = err missing_reference
  replay_stored handler status (some id) world =
      shown (status_or status handler.http_status) (handler.stored_row id world)

  -- A request without a key.
  abbrev pub plain_request : Handler World Error Row → State World → Reply Error Row × State World
  plain_request handler state =
      let (result, world) = handler.perform state.world in
      (shown handler.http_status result, record state { world = world })

  abbrev pub completed_with :
      Handler World Error Row
      → Row
      → State World
      → Result IdempotencyError Table
      → Reply Error Row × State World
  completed_with handler row state (err raised) = (err (idempotency raised), state)
  completed_with handler row state (ok table) =
      (ok (handler.http_status, row), record state { table = table })

  -- What follows the service: the answer is stored under the claim, or the claim is abandoned.
  abbrev pub after_service :
      Handler World Error Row
      → HttpIdempotencyRecord
      → ℕ
      → Table
      → Result Error Row × World
      → Reply Error Row × State World
  after_service handler claim now table (err raised, world) = (
    err (service raised),
    record {
      table = if handler.caught raised then abandon_idempotent claim table else table;
      world = world;
    },
  )
  after_service handler claim now table (ok row, world) =
      completed_with handler row (record { table = table; world = world })
        (complete_idempotent claim handler.http_status handler.response_kind
          (handler.response_refs row) now table)

-- One request of a sequence, at its time.
pub record Arrival (World Error Row : Type 0) : Type 0 where
  pub handler : Handler World Error Row
  pub key : Option Keyed
  pub now : ℕ

-- `loads` is `json.loads` where it gives a mapping, `reference` what the handler reads of it.
module _ {Refs : Type 0} (loads : Text → Option Refs) (no_refs : Text) (reference : Refs → Option ℕ)
    (hash : Text → ℕ) (known_class : ℕ → Bool) {World Error Row : Type 0} where
  abbrev pub after_begin :
      Handler World Error Row
      → ℕ
      → (Table → Table)
      → State World
      → Result IdempotencyError (IdempotencyOutcome Refs × Table)
      → Reply Error Row × State World
  after_begin handler now others state (err raised) = (err (idempotency raised), state)
  after_begin handler now others state (ok (claimed claim, table)) =
      after_service handler claim now (others table) (handler.perform state.world)
  after_begin handler now others state (ok (replay status kind refs, table)) =
      (replay_stored handler status (reference refs) state.world, record state { table = table })

  -- A request with a key, and one without. `others` is what other requests make of the keys while the
  -- service runs; nobody acts between the two looks of `begin_idempotent` (for that see Idempotency).
  unfoldable pub keyed_request :
      Handler World Error Row
      → Keyed
      → ℕ
      → (Table → Table)
      → State World
      → Reply Error Row × State World
  unfolding begin_idempotent complete_idempotent abandon_idempotent
  keyed_request handler request now others state = after_begin handler now others state (
      begin_idempotent loads no_refs hash known_class false (λ table. table)
        request.principal_user_id handler.route_class request.raw_key request.fingerprint
        state.table)

  unfoldable pub request :
      Handler World Error Row
      → Option Keyed
      → ℕ
      → (Table → Table)
      → State World
      → Reply Error Row × State World
  unfolding keyed_request
  request handler none now others state = plain_request handler state
  request handler (some keyed) now others state = keyed_request handler keyed now others state

  -- Requests one after the other, and their replies.
  unfoldable pub serve :
      List (Arrival World Error Row) → State World → List (Reply Error Row) × State World
  unfolding request
  serve [] state = ([], state)
  serve (arrival ∷ rest) state =
      let (reply, after) = request arrival.handler arrival.key arrival.now (λ table. table) state in
      let (replies, end) = serve rest after in (reply ∷ replies, end)
