-- ===== src/Apperror.antt =====
-- internal/apperror/errors.go, with Go's chains of wrapped errors.
use codeforge.Prelude.{◌<>◌, ◌=s◌, if◌then◌else◌, ℕ, String, List, []}

-- The sentinel errors.
pub data Sentinel : Type 0 where
  err_not_found err_validation err_unauthorized err_conflict err_invalid_transition : Sentinel

pub record AppError : Type 0 where
  pub err : Sentinel
  pub message : String
  pub status : ℕ
  pub fields : List (String × String)

-- A Go `error`: an AppError, a bare sentinel, an error of a library (`opaque`), or one that
-- `fmt.Errorf("…: %w", err)` wraps.
pub data Error : Type 0 where
  app : AppError → Error
  sentinel : Sentinel → Error
  opaque : String → Error
  wrapped : String → Error → Error

abbrev pub not_found : String → Error
not_found message =
    app (record { err = err_not_found; message = message; status = 404; fields = [] })

abbrev pub validation : String → Error
validation message =
    app (record { err = err_validation; message = message; status = 400; fields = [] })

abbrev pub conflict : String → Error
conflict message = app (record { err = err_conflict; message = message; status = 409; fields = [] })

-- The chain of `errors.Is` tests in HTTPStatus, on a sentinel.
abbrev pub sentinel_status : Sentinel → ℕ
sentinel_status err_not_found = 404
sentinel_status err_validation = 400
sentinel_status err_unauthorized = 401
sentinel_status err_conflict = 409
sentinel_status err_invalid_transition = 500

-- `errors.As` and `errors.Is` walk the chain.
unfoldable pub http_status : Error → ℕ
http_status (app e) = e.status
http_status (sentinel s) = sentinel_status s
http_status (opaque _) = 500
http_status (wrapped _ e) = http_status e

abbrev pub sentinel_text : Sentinel → String
sentinel_text err_not_found = "not found"
sentinel_text err_validation = "validation error"
sentinel_text err_unauthorized = "unauthorized"
sentinel_text err_conflict = "conflict"
sentinel_text err_invalid_transition = "invalid state transition"

-- The method `Error`; a wrapping error prefixes its text to that of the error it wraps.
unfoldable pub error_text : Error → String
error_text (app e) = if e.message =s "" then sentinel_text e.err else e.message
error_text (sentinel s) = sentinel_text s
error_text (opaque s) = s
error_text (wrapped context e) = context <> ": " <> error_text e
