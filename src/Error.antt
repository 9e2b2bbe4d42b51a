-- ===== src/Error.antt =====
-- src/error.rs: the errors of the application and the status that each is answered with.
pub mod Redaction
use silicon_briefcase.Prelude.{ℕ, Option, none, some}
use silicon_briefcase.Text.{Str, codes}
use silicon_briefcase.Quota.{UploadLimit, daily_upload, storage, limit_code}

-- An HTTP status is its number.
pub data AppError : Type 0 where
  bad_request : Str → AppError
  validation : Str → AppError
  unauthenticated : AppError
  explained : ℕ → Str → Str → AppError
  forbidden not_found retired_obo_upload : AppError
  conflict : Str → AppError
  payload_too_large : AppError
  range_not_satisfiable : ℕ → AppError
  upload_limit_exhausted : UploadLimit → Option ℕ → AppError
  rate_limited : ℕ → AppError
  timeout unsupported_api_version method_not_allowed : AppError
  dependency_unavailable database_commit_outcome_unknown : Str → AppError
  transport_rejected : ℕ → AppError
  internal : Str → AppError

abbrev unauthorized : Str → Str → AppError
unauthorized code message = explained 401 code message

abbrev refused : Str → Str → AppError
refused code message = explained 403 code message

abbrev unprocessable : Str → Str → AppError
unprocessable code message = explained 422 code message

-- A status, a code and a message.
pub record PublicParts : Type 0 where
  pub status : ℕ
  pub code : Str
  pub message : Str

abbrev parts : ℕ → Str → Str → PublicParts
parts status code message = record { status = status; code = code; message = message }

unfoldable upload_limit_public_parts : UploadLimit → PublicParts
unfolding limit_code
upload_limit_public_parts daily_upload =
    parts 429 (limit_code daily_upload)
      (codes "The organization's daily upload allowance is spent. It resets at 00:00 UTC.")
upload_limit_public_parts storage =
    parts 507 (limit_code storage) (codes "The organization has no storage capacity left.")

unfoldable public_parts : AppError → PublicParts
unfolding upload_limit_public_parts
public_parts (bad_request code) = parts 400 code (codes "The request could not be interpreted.")
public_parts (validation code) = parts 422 code (codes "The request contains invalid data.")
public_parts unauthenticated =
    parts 401 (codes "unauthenticated") (codes "Authentication is required.")
public_parts (explained status code message) = parts status code message
public_parts forbidden =
    parts 403 (codes "forbidden") (codes "The actor is not authorized for this action.")
public_parts not_found =
    parts 404 (codes "not_found") (codes "The requested resource was not found.")
public_parts retired_obo_upload =
    parts 410 (codes "obo_upload_retired")
      (codes "Raw OBO uploads are retired. Use delegated upload reserve, transfer, and commit.")
public_parts (conflict code) =
    parts 409 code (codes "The request conflicts with the current resource state.")
public_parts payload_too_large =
    parts 413 (codes "payload_too_large") (codes "The request body exceeds the allowed size.")
public_parts (range_not_satisfiable total_size) =
    parts 416 (codes "range_not_satisfiable")
      (codes "The requested byte range is outside the content.")
public_parts (upload_limit_exhausted limit retry_after_seconds) = upload_limit_public_parts limit
public_parts (rate_limited retry_after_seconds) =
    parts 429 (codes "rate_limited") (codes "Too many requests. Retry later.")
public_parts timeout =
    parts 504 (codes "request_timeout") (codes "The request exceeded its processing deadline.")
public_parts unsupported_api_version =
    parts 406 (codes "unsupported_api_version")
      (codes "This build serves no API version the caller supports.")
public_parts method_not_allowed =
    parts 405 (codes "method_not_allowed") (codes "The HTTP method is not allowed for this route.")
public_parts (dependency_unavailable dependency) =
    parts 503 (codes "dependency_unavailable")
      (codes "A required service is temporarily unavailable.")
public_parts (database_commit_outcome_unknown operation) =
    parts 503 (codes "commit_outcome_unknown")
      (codes "The operation outcome is temporarily unknown. Retry with the same idempotency key.")
public_parts (transport_rejected status) =
    parts status (codes "request_rejected") (codes "The HTTP request was rejected.")
public_parts (internal category) =
    parts 500 (codes "internal_error") (codes "An internal service error occurred.")

-- The header `Retry-After` of the answer, and the total that `Content-Range` names.
unfoldable retry_after : AppError → Option ℕ
retry_after (rate_limited seconds) = some seconds
retry_after (upload_limit_exhausted limit seconds) = seconds
retry_after _ = none

unfoldable unsatisfiable_total_size : AppError → Option ℕ
unsatisfiable_total_size (range_not_satisfiable total_size) = some total_size
unsatisfiable_total_size _ = none
