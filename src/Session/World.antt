-- ===== src/Session/World.antt =====
-- What the session service reads and writes: the keys of Redis that belong to sessions, and the
-- table `sessions` of SQLite; and the operations on them that the client libraries offer.
--
-- The fields of a session's hash keep the values that the service formats into them (JSON, RFC 3339
-- times and decimal numbers), and `none` is an absent field. `faults` says of each call of Redis
-- or SQLite to come whether it fails; where it ends, every call works. A call that fails changes
-- nothing.
pub mod Rules
pub mod Statuses
use codeforge.Prelude.{
  ℕ, String, Bool, true, false, Option, none, some, List, [], ◌∷◌, ◌++◌, if◌then◌else◌, ◌=s◌,
  update,
}
use codeforge.Apperror.{Error, opaque, wrapped}
use codeforge.Session.Status.{Status}
use codeforge.Session.Model.{Config, ChangesSummary, UsageInfo, ReviewResult, Iteration, Session}

-- The hash `session:{id}:state`.
pub record Hash : Type 0 where
  pub id : Option String
  pub status : Option Status
  pub repo_url : Option String
  pub prompt : Option String
  pub session_type : Option String
  pub iteration : Option ℕ
  pub created_at : Option ℕ
  pub updated_at : Option ℕ
  pub provider_key : Option String
  pub callback_url : Option String
  pub config : Option Config
  pub workflow_run_id : Option String
  pub tenant_id : Option String
  pub trace_id : Option String
  pub review_cli : Option String
  pub review_model : Option String
  pub metadata : Option (List (String × String))
  pub encrypted_access_token : Option String
  pub encrypted_ai_api_key : Option String
  pub started_at : Option ℕ
  pub finished_at : Option ℕ
  pub current_prompt : Option String
  pub error : Option String
  pub changes_summary : Option ChangesSummary
  pub usage : Option UsageInfo
  pub review_result : Option ReviewResult
  pub branch : Option String
  pub pr_url : Option String
  pub pr_number : Option ℕ

abbrev pub empty_hash : Hash
empty_hash = record {
  id = none;
  status = none;
  repo_url = none;
  prompt = none;
  session_type = none;
  iteration = none;
  created_at = none;
  updated_at = none;
  provider_key = none;
  callback_url = none;
  config = none;
  workflow_run_id = none;
  tenant_id = none;
  trace_id = none;
  review_cli = none;
  review_model = none;
  metadata = none;
  encrypted_access_token = none;
  encrypted_ai_api_key = none;
  started_at = none;
  finished_at = none;
  current_prompt = none;
  error = none;
  changes_summary = none;
  usage = none;
  review_result = none;
  branch = none;
  pr_url = none;
  pr_number = none;
}

-- A key with its time to live; `none` is a key that does not expire.
pub record Entry : Type 0 where
  pub hash : Hash
  pub ttl : Option ℕ

-- A row of the table `sessions`: the session without its secrets, and the time of the last write.
pub record Row : Type 0 where
  pub session : Session
  pub updated_at : ℕ

pub record World : Type 0 where
  pub state : String → Option Entry
  pub result : String → Option String
  pub iterations : String → List Iteration
  pub queue : List String
  pub processing : List String
  pub index : List String
  pub sqlite : Option (List Row)
  pub now : ℕ
  pub faults : List Bool

-- Go's `(value, error)`: the state changes that were made before an error stay.
pub data Result {ℓ} (A : Type ℓ) : Type ℓ where
  ok : A → Result A
  err : Error → Result A

abbrev pub M : Type 0 → Type 0
M A = World → Result A × World

abbrev pub bind_result : {A B : Type 0} → (A → M B) → Result A × World → Result B × World
bind_result f (ok a, w) = f a w
bind_result f (err e, w) = (err e, w)

infixl 5 ◌>>=◌ ◌>>◌
abbrev pub ◌>>=◌ : {A B : Type 0} → M A → (A → M B) → M B
◌>>=◌ m f w = bind_result f (m w)

abbrev pub ◌>>◌ : {B : Type 0} → M (Unit {0}) → M B → M B
m >> k = m >>= λ _. k

abbrev pub pure : {A : Type 0} → A → M A
pure a w = (ok a, w)

abbrev pub fail : {A : Type 0} → Error → M A
fail e w = (err e, w)

abbrev pub get : M World
get w = (ok w, w)

abbrev pub modify : (World → World) → M (Unit {0})
modify f w = (ok tt, f w)

-- `_ = m`, or an error that is only logged.
abbrev pub ignore_result : {A : Type 0} → Result A × World → Result (Unit {0}) × World
ignore_result (_, w) = (ok tt, w)

abbrev pub ignore : {A : Type 0} → M A → M (Unit {0})
ignore m w = ignore_result (m w)

-- `fmt.Errorf("context: %w", err)` around an operation's error.
abbrev pub context_result : {A : Type 0} → String → Result A × World → Result A × World
context_result c (ok a, w) = (ok a, w)
context_result c (err e, w) = (err (wrapped c e), w)

abbrev pub context : {A : Type 0} → String → M A → M A
context c m w = context_result c (m w)

-- The result of a call as a value, for the code that goes on after an error.
abbrev pub catch_result : {A : Type 0} → Result A × World → Result (Result A) × World
catch_result (r, w) = (ok r, w)

abbrev pub attempt : {A : Type 0} → M A → M (Result A)
attempt m w = catch_result (m w)

abbrev pub lift : {A : Type 0} → Result A → M A
lift r w = (r, w)

-- Go's `if err := check(); err != nil { return err }`.
abbrev pub require : Option Error → M (Unit {0})
require none w = (ok tt, w)
require (some e) w = (err e, w)

abbrev pub next_fault : List Bool → Bool
next_fault [] = false
next_fault (b ∷ _) = b

abbrev pub later_faults : List Bool → List Bool
later_faults [] = []
later_faults (_ ∷ bs) = bs

abbrev pub answer : Bool → Error → Result (Unit {0})
answer true e = err e
answer false e = ok tt

-- A round trip to Redis or SQLite, which may fail with `e`.
unfoldable pub reach : Error → M (Unit {0})
reach e w = (answer (next_fault w.faults) e, record w { faults = later_faults w.faults })

-- The same World where every call works.
abbrev pub up : World → World
up w = record w { faults = [] }

abbrev pub lost : Error
lost = opaque "connection"

abbrev pub entry_hash : Option Entry → Hash
entry_hash none = empty_hash
entry_hash (some e) = e.hash

abbrev pub entry_ttl : Option Entry → Option ℕ
entry_ttl none = none
entry_ttl (some e) = e.ttl

abbrev pub entry_status : Option Entry → Option Status
entry_status none = none
entry_status (some e) = e.hash.status

-- The field `status` of the session's hash, as HGET reads it.
abbrev pub status_at : World → String → Option Status
status_at w k = entry_status (w.state k)

-- HSET: it makes the hash where there is none, and keeps the time to live.
abbrev pub hset : String → (Hash → Hash) → World → World
hset k f w = record w {
  state =
      update w.state k
        (some (record { hash = f (entry_hash (w.state k)); ttl = entry_ttl (w.state k) }));
}

-- EXPIRE and PERSIST: they do nothing where there is no key.
abbrev pub set_ttl : Option ℕ → Option Entry → Option Entry
set_ttl t none = none
set_ttl t (some e) = some (record e { ttl = t })

abbrev pub expire : String → ℕ → World → World
expire k t w = record w { state = update w.state k (set_ttl (some t) (w.state k)) }

abbrev pub persist : String → World → World
persist k w = record w { state = update w.state k (set_ttl none (w.state k)) }

-- RPUSH to the queue.
abbrev pub enqueue : String → World → World
enqueue k w = record w { queue = w.queue ++ k ∷ [] }

abbrev pub written : Bool → (List Row → List Row) → Option (List Row) → Option (List Row)
written fails f none = none
written true f (some rows) = some rows
written false f (some rows) = some (f rows)

abbrev pub faults_after : List Bool → Option (List Row) → List Bool
faults_after fs none = fs
faults_after fs (some _) = later_faults fs

-- persistToSQLite: a write that may fail, and whose error is only logged; nothing without SQLite.
unfoldable pub persist_to_sqlite : (List Row → List Row) → M (Unit {0})
persist_to_sqlite f w = (
  ok tt,
  record w {
    sqlite = written (next_fault w.faults) f w.sqlite;
    faults = faults_after w.faults w.sqlite;
  },
)
