-- ===== src/Api/Problem.antt =====
-- `_STATUS_MAP`, `_problem` and `_handle_domain` of app/api/error_handlers.py.
use report_insight.Base.{ℕ, String, Option, none, some}
use report_insight.Domain.{
  Error, not_found, permission_denied, invalid_state, retryable, value_error, index_error,
  unauthenticated, external,
}

-- The response: its status, the slug of its type, and the header `Retry-After`.
pub record Problem : Type 0 where
  pub status : ℕ
  pub type_slug : String
  pub retry_after : Option String

-- The exceptions of other classes do not come to this handler, and `DomainError` itself, for which the
-- code has the status 500, is raised nowhere.
unfoldable pub handle_domain : Error → Option Problem
handle_domain not_found =
    some (record { status = 404; type_slug = "not-found"; retry_after = none })
handle_domain permission_denied =
    some (record { status = 403; type_slug = "forbidden"; retry_after = none })
handle_domain invalid_state =
    some (record { status = 422; type_slug = "invalid-state"; retry_after = none })
handle_domain retryable =
    some (record { status = 503; type_slug = "service-unavailable"; retry_after = some "30" })
handle_domain value_error = none
handle_domain index_error = none
handle_domain unauthenticated = none
handle_domain external = none
