-- ===== src/Server/Http.antt =====
-- What a handler answers, and handlers as programs: a handler reads and changes the World, and
-- may answer at any point, where Go writes the response and returns.
--
-- internal/server/handlers/sessions.go: writeJSON, writeError, writeAppError.
use codeforge.Prelude.{ℕ, String, Bool, true, false, Option, none, some, List}
use codeforge.Apperror.{Error, AppError, app, sentinel, opaque, wrapped, http_status}
use codeforge.Session.Model.{Session}
use codeforge.Session.World.{World, M, Result, ok, err}

-- The bodies of the handlers' answers: `of_session` is some of a session's fields, and `done` the
-- values of an object of texts.
pub data Body : Type 0 where
  message : String → Body
  app_error : AppError → Body
  validation_error : List (String × String) → Body
  of_session : Session → Body
  of_text : String → Body
  done : String → String → Body

pub record Response : Type 0 where
  pub status : ℕ
  pub body : Body

-- A program goes on with a value, or has answered.
pub data Step (A : Type 0) : Type 0 where
  go : A → Step A
  answered : Response → Step A

abbrev pub Handler : Type 0 → Type 0
Handler A = World → Step A × World

abbrev pub bind_step : {A B : Type 0} → (A → Handler B) → Step A × World → Step B × World
bind_step f (go a, w) = f a w
bind_step f (answered r, w) = (answered r, w)

infixl 5 ◌>>=◌ ◌>>◌
abbrev pub ◌>>=◌ : {A B : Type 0} → Handler A → (A → Handler B) → Handler B
◌>>=◌ m f w = bind_step f (m w)

abbrev pub ◌>>◌ : {B : Type 0} → Handler (Unit {0}) → Handler B → Handler B
m >> k = m >>= λ _. k

abbrev pub give : {A : Type 0} → A → Handler A
give a w = (go a, w)

abbrev pub respond : {A : Type 0} → ℕ → Body → Handler A
respond s b w = (answered (record { status = s; body = b }), w)

-- An `if` that answers and returns.
abbrev pub refuse_if : Bool → ℕ → Body → Handler (Unit {0})
refuse_if true s b = respond s b
refuse_if false s b = give tt

abbrev pub with_result : {A : Type 0} → Result A × World → Step (Result A) × World
with_result (r, w) = (go r, w)

-- A call of a service, whose error is a value.
abbrev pub call : {A : Type 0} → M A → Handler (Result A)
call m w = with_result (m w)

-- errors.As.
unfoldable pub as_app_error : Error → Option AppError
as_app_error (app e) = some e
as_app_error (sentinel s) = none
as_app_error (opaque s) = none
as_app_error (wrapped c e) = as_app_error e

abbrev pub app_body : Option AppError → Body
app_body none = message "internal server error"
app_body (some e) = app_error e

-- writeAppError.
abbrev pub respond_error : {A : Type 0} → Error → Handler A
respond_error e = respond (http_status e) (app_body (as_app_error e))

abbrev pub or_error : {A : Type 0} → Result A → Handler A
or_error (ok a) = give a
or_error (err e) = respond_error e

-- `if err != nil { writeError(w, s, b); return }`.
abbrev pub or_refuse : {A : Type 0} → ℕ → Body → Result A → Handler A
or_refuse s b (ok a) = give a
or_refuse s b (err e) = respond s b
