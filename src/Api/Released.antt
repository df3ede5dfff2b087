-- ===== src/Api/Released.antt =====
-- A request with a key whose service fails.
use ce_local_studio.Base.{ℕ, ◌≡◌, refl, Bool, true, false, none, err, Option}
use ce_local_studio.Turn.Types.{Text}
use ce_local_studio.Idempotency.{lookup, new_record, abandon_idempotent}
use ce_local_studio.Idempotency.Replay.{Ready, begin-Ready}
use ce_local_studio.Api.Request.{Handler, State, service, Keyed, keyed_request}
use ce_local_studio.Api.Claims.{delete_row-append}

-- A request whose key is new and well formed, whose service raises an error that the handler catches, and
-- during which nobody else writes keys: it fails with the service's error, the service's writes stay, and
-- the keys are row for row as before, so that the key is new to the same request when it comes again.
pub failed_request_releases :
    {Refs : Type 0} (loads : Text → Option Refs) (no_refs : Text) (reference : Refs → Option ℕ)
    (hash : Text → ℕ) (known_class : ℕ → Bool) {World Error Row : Type 0}
    (handler : Handler World Error Row) (who : Keyed) (now : ℕ) (state : State World)
    (raised : Error) (world : World)
    → Ready known_class handler.route_class who.raw_key who.fingerprint
    → lookup who.principal_user_id handler.route_class (hash who.raw_key) state.table ≡ none
    → handler.perform state.world ≡ (err raised, world)
    → handler.caught raised ≡ true
    → keyed_request loads no_refs reference hash known_class handler who now (λ t. t) state
      ≡ (err (service raised), record { table = state.table; world = world })
unfolding keyed_request abandon_idempotent
failed_request_releases loads no_refs reference hash known_class handler who now state raised world
      ready new fails caught =
    let claim =
      new_record who.principal_user_id handler.route_class (hash who.raw_key) who.fingerprint in
    rw
      (
        begin-Ready loads no_refs hash known_class false (λ t. t) who.principal_user_id
            handler.route_class who.raw_key who.fingerprint state.table ready,
        new,
      )
      (rw (new, fails, caught, delete_row-append state.table claim new) refl)
