-- ===== src/Errors/Response.antt =====
-- src/platform/error.rs: the HTTP response of an error.
mod Tests
use Prim.Native.String.{String}
use stackhouse.Prelude.{ℕ, ◌≤◌, ◌<◌, ◌≡◌, refl, Bool, arith}
use stackhouse.Errors.{
  StackhouseError, database, json, invalid_identifier, schema, column_limit_exceeded,
  table_not_found, invalid_payload, migration_failed, internal, unauthorized, forbidden, conflict,
  not_found, storage, rate_limited, brain,
}

unfoldable pub status_code : StackhouseError → ℕ
status_code (database _) = 503
status_code (json _) = 400
status_code (invalid_identifier _) = 400
status_code (schema _) = 422
status_code (column_limit_exceeded _) = 400
status_code (table_not_found _) = 404
status_code (invalid_payload _) = 400
status_code (migration_failed _) = 500
status_code (internal _) = 500
status_code (unauthorized _) = 401
status_code (forbidden _) = 403
status_code (conflict _) = 409
status_code (not_found _) = 404
status_code (storage _) = 500
status_code (rate_limited _) = 429
status_code (brain _) = 500

unfoldable pub error_code : StackhouseError → String
error_code (database _) = "DATABASE_ERROR"
error_code (json _) = "JSON_ERROR"
error_code (invalid_identifier _) = "INVALID_IDENTIFIER"
error_code (schema _) = "SCHEMA_ERROR"
error_code (column_limit_exceeded _) = "COLUMN_LIMIT_EXCEEDED"
error_code (table_not_found _) = "TABLE_NOT_FOUND"
error_code (invalid_payload _) = "INVALID_PAYLOAD"
error_code (migration_failed _) = "MIGRATION_FAILED"
error_code (internal _) = "INTERNAL_ERROR"
error_code (unauthorized _) = "UNAUTHORIZED"
error_code (forbidden _) = "FORBIDDEN"
error_code (conflict _) = "CONFLICT"
error_code (not_found _) = "NOT_FOUND"
error_code (storage _) = "STORAGE_ERROR"
error_code (rate_limited _) = "RATE_LIMITED"
error_code (brain _) = "BRAIN_ERROR"

-- A fixed text, or `self.to_string()`.
pub data Message : Type 0 where
  generic : String → Message
  to_string : StackhouseError → Message

pub record Response : Type 0 where
  pub status : ℕ
  pub code : String
  pub message : Message

message_of : StackhouseError → Message
message_of (internal _) = generic "An internal error occurred. Please try again later."
message_of (brain _) = generic "An internal error occurred. Please try again later."
message_of (database _) = generic "Service temporarily unavailable. Please try again later."
message_of (migration_failed _) = generic "Service temporarily unavailable. Please try again later."
message_of (storage _) = generic "Storage service error. Please try again later."
message_of e = to_string e

unfoldable pub into_response : StackhouseError → Response
unfolding status_code error_code message_of
into_response e = record { status = status_code e; code = error_code e; message = message_of e }

-- The error with the text of another.
abbrev pub with_text : String → StackhouseError → StackhouseError
with_text s (database _) = database s
with_text s (json _) = json s
with_text s (invalid_identifier _) = invalid_identifier s
with_text s (schema _) = schema s
with_text s (column_limit_exceeded _) = column_limit_exceeded s
with_text s (table_not_found _) = table_not_found s
with_text s (invalid_payload _) = invalid_payload s
with_text s (migration_failed _) = migration_failed s
with_text s (internal _) = internal s
with_text s (unauthorized _) = unauthorized s
with_text s (forbidden _) = forbidden s
with_text s (conflict _) = conflict s
with_text s (not_found _) = not_found s
with_text s (storage _) = storage s
with_text s (rate_limited _) = rate_limited s
with_text s (brain _) = brain s

-- The response of a server error (status 500 or above) does not depend on the text that the
-- error carries; any other response tells the client the error itself.
pub into_response_hides :
    (e : StackhouseError) (s : String)
    → (500 ≤ (into_response e).status → into_response (with_text s e) ≡ into_response e)
      × ((into_response e).status < 500 → (into_response e).message ≡ to_string e)
unfolding into_response
into_response_hides (database _) s = (λ h. refl, λ h. absurd (omega arith))
into_response_hides (migration_failed _) s = (λ h. refl, λ h. absurd (omega arith))
into_response_hides (internal _) s = (λ h. refl, λ h. absurd (omega arith))
into_response_hides (storage _) s = (λ h. refl, λ h. absurd (omega arith))
into_response_hides (brain _) s = (λ h. refl, λ h. absurd (omega arith))
into_response_hides _ s = (λ h. absurd (omega arith), λ h. refl)
