-- ===== src/Keys.antt =====
-- internal/keys/sqlite_registry.go: the registry of access tokens.
--
-- The table `keys` is a list of rows, and the verification of a token with its provider is left out. A
-- query is a call that may fail, as in Session.World.
pub mod Order
pub mod Environment
pub mod Resolver
pub mod Stored
mod Tests
use codeforge.Prelude.{
  ℕ, String, Bool, true, false, ◌&&◌, ◌||◌, not, Option, none, some, List, [], ◌∷◌, ◌++◌,
  if◌then◌else◌, ◌=s◌, ◌<>◌, contains,
}
use codeforge.Prelude.Bytes.{Bytes}
use codeforge.Apperror.{Error, opaque, wrapped, validation, conflict, not_found}
use codeforge.Session.World.{
  World, M, Result, ok, err, ◌>>=◌, ◌>>◌, pure, fail, attempt, reach, lost,
}
use codeforge.Session.Service.{Cipher}
use codeforge.Git.Provider.{Provider, github, gitlab, unknown}

pub record Key : Type 0 where
  pub name : String
  pub provider : String
  pub token : String
  pub scope : String
  pub base_url : String
  pub source : String

-- A row of `keys`; its token is encrypted.
pub record KeyRow : Type 0 where
  pub name : String
  pub provider : String
  pub encrypted_token : String
  pub scope : String
  pub base_url : String

abbrev pub providers : List String
providers = "github" ∷ "gitlab" ∷ "sentry" ∷ "anthropic" ∷ "openai" ∷ []

abbrev pub find_key : String → String → List KeyRow → Option KeyRow
find_key provider name [] = none
find_key provider name (r ∷ rows) =
    let rest = find_key provider name rows in
    if r.provider =s provider && r.name =s name then some r else rest

-- The first row of a name, whatever its provider.
abbrev pub find_by_name : String → List KeyRow → Option KeyRow
find_by_name name [] = none
find_by_name name (r ∷ rows) =
    let rest = find_by_name name rows in if r.name =s name then some r else rest

abbrev pub rows_without : String → List KeyRow → List KeyRow
rows_without name [] = []
rows_without name (r ∷ rows) =
    let rest = rows_without name rows in if r.name =s name then rest else r ∷ rest

abbrev pub inserted : Key → String → List KeyRow → Option KeyRow → M (List KeyRow)
inserted key token rows (some r) =
    fail
      (conflict ("key '" <> key.name <> "' already exists for provider '" <> key.provider <> "'"))
inserted key token rows none = pure (
    rows
    ++ record {
      name = key.name;
      provider = key.provider;
      encrypted_token = token;
      scope = key.scope;
      base_url = key.base_url;
    }
      ∷ [])

abbrev pub insert_encrypted : Key → List KeyRow → Option String → M (List KeyRow)
insert_encrypted key rows none = fail (wrapped "encrypting token" (opaque "cipher"))
insert_encrypted key rows (some token) = do
  reach (wrapped "storing key" lost)
  inserted key token rows (find_key key.provider key.name rows)

-- Create of the registry in SQLite, with the nonce that the encryption draws: the new table.
unfoldable pub create_key : Cipher → String → Key → List KeyRow → M (List KeyRow)
unfolding reach
create_key cipher nonce key rows =
    if not (contains providers key.provider)
    then fail (validation "provider must be 'github', 'gitlab', 'sentry', 'anthropic', or 'openai'")
    else insert_encrypted key rows (cipher.encrypt nonce key.token)

abbrev pub remaining : String → List KeyRow → Option KeyRow → M (List KeyRow)
remaining name rows none = fail (not_found ("key '" <> name <> "' not found"))
remaining name rows (some r) = pure (rows_without name rows)

-- Delete of the registry in SQLite.
unfoldable pub delete_key : String → List KeyRow → M (List KeyRow)
unfolding reach
delete_key name rows = do
  reach (wrapped "deleting key" lost)
  remaining name rows (find_by_name name rows)

abbrev pub opened : Option String → M String
opened none = fail (opaque "cipher")
opened (some token) = pure token

abbrev pub open_row : Cipher → Error → Option KeyRow → M String
open_row cipher e none = fail e
open_row cipher e (some r) = opened (cipher.decrypt r.encrypted_token)

-- Resolve of the registry in SQLite.
unfoldable pub resolve_key : Cipher → List KeyRow → String → String → M String
unfolding reach
resolve_key cipher rows provider name = do
  reach (wrapped "reading key" lost)
  open_row cipher (not_found ("key '" <> name <> "' not found for provider '" <> provider <> "'"))
      (find_key provider name rows)

-- A token with its provider and its base URL.
abbrev pub Full : Type 0
Full = String × String × String

abbrev pub full_of : KeyRow → Option String → M Full
full_of r none = fail (wrapped "decrypting token" (opaque "cipher"))
full_of r (some token) = pure (token, r.provider, r.base_url)

abbrev pub open_full : Cipher → String → Option KeyRow → M Full
open_full cipher name none = fail (not_found ("key '" <> name <> "' not found"))
open_full cipher name (some r) = full_of r (cipher.decrypt r.encrypted_token)

-- ResolveFullByName of the registry in SQLite.
unfoldable pub resolve_full_by_name : Cipher → List KeyRow → String → M Full
unfolding reach
resolve_full_by_name cipher rows name = do
  reach (wrapped "reading key" lost)
  open_full cipher name (find_by_name name rows)
