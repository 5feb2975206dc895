-- ===== src/Session/Loading.antt =====
-- internal/session/service.go: Get, and the status that the other operations read first.
use codeforge.Prelude.{String, Option, none, some, List, if◌then◌else◌, ◌=s◌, ◌<>◌, option_or}
use codeforge.Apperror.{Error, wrapped, not_found}
use codeforge.Session.Status.{Status}
use codeforge.Session.Model.{Session, zero_config}
use codeforge.Session.World.{
  Hash, Entry, Row, M, Result, ok, err, ◌>>=◌, ◌>>◌, pure, fail, get, attempt, reach, lost,
  status_at,
}
use codeforge.Session.Sqlite
use codeforge.Session.Service.{Cipher, hash_to_session}

-- The decrypted form of a field; a failure is only logged.
unfoldable pub decrypted : Cipher → Option String → Option String
decrypted cipher none = none
decrypted cipher (some c) = if c =s "" then none else cipher.decrypt c

abbrev pub with_token : Option String → Session → Session
with_token none t = t
with_token (some token) t = record t { access_token = token }

abbrev pub with_key : Option String → Session → Session
with_key none t = t
with_key (some key) t = record t {
  config = some (record (option_or t.config zero_config) { ai_api_key = key });
}

-- A session from its hash, with its secrets.
unfoldable pub revealed : Cipher → Hash → Session
unfolding decrypted
revealed cipher h =
    with_key (decrypted cipher h.encrypted_ai_api_key)
      (with_token (decrypted cipher h.encrypted_access_token) (hash_to_session h))

abbrev pub missing : {A : Type 0} → String → M A
missing k = fail (not_found ("session " <> k <> " not found"))

abbrev pub row_or_missing : String → Option Session → M Session
row_or_missing k none = missing k
row_or_missing k (some t) = pure t

abbrev pub get_row : String → Option (List Row) → M Session
get_row k none = missing k
get_row k (some rows) = do
  reach (wrapped "getting session from sqlite" lost)
  row_or_missing k (Sqlite.find_row k rows)

abbrev pub with_result : Result (Unit {0}) → Option String → Session → Session
with_result (err _) r t = t
with_result (ok _) none t = t
with_result (ok _) (some r) t = record t { result = r }

-- The part of Get behind a hash that was found.
abbrev pub load : Cipher → String → Hash → M Session
load cipher k h = do
  answer ← attempt (reach lost)
  w ← get
  pure (with_result answer (w.result k) (revealed cipher h))

abbrev pub get_entry : Cipher → String → Option Entry → M Session
get_entry cipher k none = do w ← get; get_row k w.sqlite
get_entry cipher k (some e) = load cipher k e.hash

-- Get: Redis, and SQLite for a session whose hash has expired.
unfoldable pub get_session : Cipher → String → M Session
unfolding reach revealed
get_session cipher k = do
  reach (wrapped "getting session from redis" lost)
  w ← get
  get_entry cipher k (w.state k)

-- HGET of the field `status`.
abbrev pub status_or_missing : String → Option Status → M Status
status_or_missing k none = fail (not_found ("session " <> k <> " not found"))
status_or_missing k (some s) = pure s

unfoldable pub read_status : Error → String → M Status
unfolding reach
read_status e k = do reach e; w ← get; status_or_missing k (status_at w k)
