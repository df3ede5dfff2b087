-- ===== src/Api/Domains.antt =====
-- `admin_create_domain`, `admin_start_domain`, `admin_stop_domain` and `admin_delete_domain`. The world is
-- the rows of the domain that the path or the payload names; `dumps` is `json.dumps` of the references,
-- which name one row. The projection of a row to the response is left out.
use ce_local_studio.Base.{ℕ, Bool, true, false, none, some, [], ◌∷◌, Result, ok, err, ltb}
use ce_local_studio.Turn.Types.{Text}
use ce_local_studio.Lifecycle.Types.{
  Operation, Domain, Rows, RuntimeControllerResult, LifecycleSettings, DomainError, not_found,
  stale_data,
}
use ce_local_studio.Lifecycle.Rows.{Outcome}
use ce_local_studio.Lifecycle.Requests.{Call, Preflight, domain_or_404, and_then}
use ce_local_studio.Lifecycle.Create.{create_domain}
use ce_local_studio.Lifecycle.Control.{start_domain, stop_domain}
use ce_local_studio.Lifecycle.Removal.{enqueue_delete_domain}
use ce_local_studio.Lifecycle.DeleteWorker.{find_row}
use ce_local_studio.Api.Request.{Handler}

-- The route classes, by their place in `HTTP_IDEMPOTENCY_ROUTE_CLASSES`.
abbrev pub domain_create : ℕ
domain_create = 2

abbrev pub domain_start : ℕ
domain_start = 3

abbrev pub domain_stop : ℕ
domain_stop = 4

abbrev pub domain_delete : ℕ
domain_delete = 5

abbrev pub is_route_class : ℕ → Bool
is_route_class route_class = ltb route_class 10

-- The texts `domain` and `domain_operation`.
abbrev domain_kind : Text
domain_kind = 100 ∷ 111 ∷ 109 ∷ 97 ∷ 105 ∷ 110 ∷ []

abbrev domain_operation_kind : Text
domain_operation_kind =
    100 ∷ 111 ∷ 109 ∷ 97 ∷ 105 ∷ 110 ∷ 95 ∷ 111 ∷ 112 ∷ 101 ∷ 114 ∷ 97 ∷ 116 ∷ 105 ∷ 111 ∷ 110 ∷ []

-- The handlers catch `DomainError`, not the error of the session for a row that is gone.
abbrev pub is_caught : DomainError → Bool
is_caught stale_data = false
is_caught _ = true

-- `db.get` of the operation, in a replay and after the service.
abbrev pub operation_or : DomainError → ℕ → Rows → Result DomainError Operation
operation_or missing id rows = elim (find_row id rows.operations) [
  | none ↦ err missing
  | some operation ↦ ok operation
]

-- `db.refresh` of the row that a service returns.
abbrev refreshed : (Rows → Result DomainError Operation) → Outcome (Unit {0}) → Outcome Operation
refreshed read done = and_then done (λ finished rows. (read rows, rows))

abbrev refreshed_domain : Outcome (Unit {0}) → Outcome Domain
refreshed_domain done =
    and_then done (λ finished rows.
      (elim rows.domain [ none ↦ err stale_data | some domain ↦ ok domain ], rows))

module _ (dumps : ℕ → Text) (settings : LifecycleSettings) (call : Call) where
  unfoldable pub admin_create_domain :
      (domain_number embedding extraction instance_id : ℕ)
      → Preflight
      → RuntimeControllerResult
      → (Rows → Rows)
      → Handler Rows DomainError Domain
  unfolding create_domain
  admin_create_domain domain_number embedding extraction instance_id preflight result others =
      record {
        route_class = domain_create;
        http_status = 201;
        response_kind = domain_kind;
        perform = λ rows.
            refreshed_domain
              (create_domain embedding extraction instance_id call preflight result others rows);
        response_refs = λ domain. dumps domain_number;
        stored_row = λ id rows. domain_or_404 call.domain_id rows;
        caught = is_caught;
      }

  -- The three requests that answer with their operation.
  abbrev pub answering_operation :
      ℕ → (Rows → Outcome Operation) → Handler Rows DomainError Operation
  answering_operation route_class service = record {
    route_class = route_class;
    http_status = 202;
    response_kind = domain_operation_kind;
    perform = service;
    response_refs = λ operation. dumps operation.id;
    stored_row = λ id rows. operation_or not_found id rows;
    caught = is_caught;
  }

  unfoldable pub admin_start_domain :
      Preflight → RuntimeControllerResult → (Rows → Rows) → Handler Rows DomainError Operation
  unfolding start_domain
  admin_start_domain preflight result others = answering_operation domain_start (λ rows.
      refreshed (operation_or stale_data call.operation_id)
        (start_domain settings call preflight result others rows))

  unfoldable pub admin_stop_domain :
      RuntimeControllerResult → (Rows → Rows) → Handler Rows DomainError Operation
  unfolding stop_domain
  admin_stop_domain result others = answering_operation domain_stop (λ rows.
      refreshed (operation_or stale_data call.operation_id)
        (stop_domain settings call result others rows))

  -- The version is that of `If-Match`, parsed.
  unfoldable pub admin_delete_domain : ℕ → Handler Rows DomainError Operation
  unfolding enqueue_delete_domain
  admin_delete_domain expected_version = answering_operation domain_delete (λ rows.
      and_then (enqueue_delete_domain call expected_version rows)
        (λ (domain, operation) after. (ok operation, after)))
