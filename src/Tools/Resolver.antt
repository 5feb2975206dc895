-- ===== src/Tools/Resolver.antt =====
-- internal/tools/resolver.go, with Get of the registry in SQLite.
use codeforge.Prelude.{
  String, Bool, true, false, ◌||◌, not, Option, none, some, List, [], ◌∷◌, if◌then◌else◌, ◌=s◌,
  ◌<>◌, value_of, set_key,
}
use codeforge.Apperror.{Sentinel, err_not_found, Error, app, sentinel, opaque, wrapped}
use codeforge.Session.Model.{SessionTool}
use codeforge.Session.World.{M, Result, ok, err, ◌>>=◌, ◌>>◌, pure, fail, context, attempt, require}
use codeforge.Keys.{Key, Full}
use codeforge.Keys.Environment.{Registry, env_resolve_full_by_name, list_keys}
use codeforge.Tools.{ConfigField, ToolDefinition, ToolInstance, ParseUrl, validate_config}
use codeforge.Tools.Catalog.{builtin_by_name}
use codeforge.Tools.Registry.{ToolRow, get_tool}

-- errors.As an AppError that is ErrNotFound.
abbrev pub is_absent : Sentinel → Bool
is_absent err_not_found = true
is_absent _ = false

abbrev pub is_missing : Error → Bool
is_missing (app e) = is_absent e.err
is_missing (sentinel s) = false
is_missing (opaque s) = false
is_missing (wrapped _ e) = is_missing e

-- A definition that was got, or the next place to look if it is missing there.
abbrev pub or_elsewhere : M ToolDefinition → Result ToolDefinition → M ToolDefinition
or_elsewhere next (ok def) = pure def
or_elsewhere next (err e) = if is_missing e then next else fail e

abbrev pub known_builtin : String → Option ToolDefinition → M ToolDefinition
known_builtin name none = fail (opaque ("unknown tool \"" <> name <> "\""))
known_builtin name (some def) = pure def

abbrev pub in_global : List ToolRow → String → M ToolDefinition
in_global rows name =
    attempt (get_tool rows "global" name)
    >>= or_elsewhere (known_builtin name (builtin_by_name name))

unfoldable pub find_definition : List ToolRow → String → String → M ToolDefinition
unfolding get_tool
find_definition rows project name =
    if project =s ""
    then in_global rows name
    else attempt (get_tool rows project name) >>= or_elsewhere (in_global rows name)

-- The token of the first key of a provider that can be resolved.
abbrev pub or_key : M String → Result Full → M String
or_key rest (ok (token, _, _)) = pure token
or_key rest (err e) = rest

unfoldable pub first_token : Registry → String → List Key → M String
unfolding env_resolve_full_by_name
first_token reg provider [] = pure ""
first_token reg provider (k ∷ ks) =
    let rest = first_token reg provider ks in
    if k.provider =s provider
    then attempt (env_resolve_full_by_name reg k.name) >>= or_key rest
    else rest

abbrev pub token_of_keys : Registry → String → Result (List Key) → M String
token_of_keys reg provider (ok ks) = first_token reg provider ks
token_of_keys reg provider (err e) = pure ""

abbrev pub token_of : Registry → String → M String
token_of reg provider =
    attempt (env_resolve_full_by_name reg (provider <> "-env"))
    >>= or_key (attempt (list_keys reg) >>= token_of_keys reg provider)

abbrev pub with_filled : String → String → List (String × String) → List (String × String)
with_filled name token config = if token =s "" then config else set_key name token config

abbrev pub fill_field : Registry → ConfigField → List (String × String) → M (List (String × String))
fill_field reg f config =
    if f.provider_key =s "" || not (value_of f.name config =s "")
    then pure config
    else token_of reg f.provider_key >>= λ token. pure (with_filled f.name token config)

unfoldable pub fill_fields :
    Registry → List ConfigField → List (String × String) → M (List (String × String))
unfolding first_token
fill_fields reg [] config = pure config
fill_fields reg (f ∷ fs) config = fill_field reg f config >>= fill_fields reg fs

-- autoFillConfig; without a registry of keys it leaves the configuration as it is.
unfoldable pub auto_fill_config :
    Option Registry → ToolDefinition → List (String × String) → M (List (String × String))
unfolding fill_fields
auto_fill_config none def config = pure config
auto_fill_config (some reg) def config = fill_fields reg def.required_config config

abbrev pub checked_instance :
    ParseUrl → String → ToolDefinition → List (String × String) → M ToolInstance
checked_instance parse name def config = do
  context ("tool \"" <> name <> "\"") (require (validate_config parse def config))
  pure (record { definition = def; config = config })

abbrev pub resolve_one :
    ParseUrl → Option Registry → List ToolRow → String → SessionTool → M ToolInstance
resolve_one parse keys rows project t = do
  def ← context ("tool \"" <> t.name <> "\"") (find_definition rows project t.name)
  config ← auto_fill_config keys def t.config
  checked_instance parse t.name def config

-- Resolve.
unfoldable pub resolve :
    ParseUrl → Option Registry → List ToolRow → String → List SessionTool → M (List ToolInstance)
resolve parse keys rows project [] = pure []
resolve parse keys rows project (t ∷ ts) = do
  i ← resolve_one parse keys rows project t
  is ← resolve parse keys rows project ts
  pure (i ∷ is)
