-- ===== src/Tools.antt =====
-- internal/tools: the tools of a session, from the registry to the servers that are installed.
--
-- The table `tools` is a list of rows; a Go map is a list of its keys with their values. url.Parse is a
-- parameter, and errors quote a text without escapes.
pub mod Catalog
pub mod Registry
pub mod Resolver
pub mod Lasting
pub mod Seeded
pub mod Filled
pub mod Supplied
mod Tests
use codeforge.Prelude.{
  ℕ, ◌+◌, ◌*◌, ◌-◌, String, Bool, true, false, ◌&&◌, ◌||◌, not, Option, none, some, List, [], ◌∷◌,
  if◌then◌else◌, ◌=s◌, ◌==◌, ◌<>◌, leb, value_of, set_key,
}
use codeforge.Prelude.Bytes.{Bytes, codes, lower, same}
use codeforge.Apperror.{Error, opaque}

pub record ConfigField : Type 0 where
  pub name : String
  pub description : String
  pub field_type : String
  pub env_var : String
  pub sensitive : Bool
  pub provider_key : String

pub record ToolDefinition : Type 0 where
  pub name : String
  pub tool_type : String
  pub description : String
  pub version : String
  pub mcp_transport : String
  pub mcp_url : String
  pub mcp_package : String
  pub mcp_command : String
  pub mcp_args : List String
  pub required_config : List ConfigField
  pub optional_config : List ConfigField
  pub capabilities : List String
  pub builtin : Bool
  pub created_at : ℕ

pub record ToolInstance : Type 0 where
  pub definition : ToolDefinition
  pub config : List (String × String)

-- The scheme and the host of a URL, as url.Parse reads them.
abbrev pub ParseUrl : Type 0
ParseUrl = String → Option (String × String)

-- strconv.Atoi on 64 bits.
abbrev pub is_decimal : ℕ → Bool
is_decimal c = leb b'0' c && leb c b'9'

abbrev pub all_digits : Bytes → Bool
all_digits [] = true
all_digits (c ∷ cs) = is_decimal c && all_digits cs

abbrev pub number_from : ℕ → Bytes → ℕ
number_from n [] = n
number_from n (c ∷ cs) = number_from (n * 10 + (c - 48)) cs

abbrev pub is_number : ℕ → Bytes → Bool
is_number limit [] = false
is_number limit (c ∷ cs) = all_digits (c ∷ cs) && leb (number_from 0 (c ∷ cs)) limit

abbrev pub is_integer : Bytes → Bool
is_integer [] = false
is_integer (c ∷ cs) =
    if c == b'-'
    then is_number 9_223_372_036_854_775_808 cs
    else if c == b'+'
    then is_number 9_223_372_036_854_775_807 cs
    else is_number 9_223_372_036_854_775_807 (c ∷ cs)

-- strings.ToLower has no letter outside ASCII that comes to one of these texts.
abbrev pub is_boolean : Bytes → Bool
is_boolean s =
    same s (codes "true") || same s (codes "false") || same s (codes "1") || same s (codes "0")

abbrev pub is_url : Option (String × String) → Bool
is_url none = false
is_url (some (scheme, host)) = not (scheme =s "") && not (host =s "")

abbrev pub must_be : String → ConfigField → String → Error
must_be what f value =
    opaque ("config field \"" <> f.name <> "\" must be " <> what <> ", got \"" <> value <> "\"")

abbrev pub unless : Bool → Error → Option Error
unless true e = none
unless false e = some e

unfoldable pub validate_field_type : ParseUrl → ConfigField → String → Option Error
validate_field_type parse f value =
    if f.field_type =s "url"
    then unless (is_url (parse value)) (must_be "a valid URL" f value)
    else if f.field_type =s "int"
    then unless (is_integer (codes value)) (must_be "an integer" f value)
    else if f.field_type =s "bool"
    then unless (is_boolean (lower (codes value))) (must_be "a boolean" f value)
    else none

abbrev pub or_next : Option Error → Option Error → Option Error
or_next none next = next
or_next (some e) next = some e

abbrev pub missing_field : ConfigField → ToolDefinition → Error
missing_field f def =
    opaque ("required config field \"" <> f.name <> "\" is missing for tool \"" <> def.name <> "\"")

-- The two loops of ValidateConfig.
unfoldable pub validate_required :
    ParseUrl → ToolDefinition → List (String × String) → List ConfigField → Option Error
unfolding validate_field_type
validate_required parse def config [] = none
validate_required parse def config (f ∷ fs) =
    let rest = validate_required parse def config fs in
    if value_of f.name config =s ""
    then some (missing_field f def)
    else or_next (validate_field_type parse f (value_of f.name config)) rest

unfoldable pub validate_optional :
    ParseUrl → List (String × String) → List ConfigField → Option Error
unfolding validate_field_type
validate_optional parse config [] = none
validate_optional parse config (f ∷ fs) =
    let rest = validate_optional parse config fs in
    if value_of f.name config =s ""
    then rest
    else or_next (validate_field_type parse f (value_of f.name config)) rest

unfoldable pub validate_config : ParseUrl → ToolDefinition → List (String × String) → Option Error
unfolding validate_required validate_optional
validate_config parse def config =
    or_next (validate_required parse def config def.required_config)
      (validate_optional parse config def.optional_config)

-- bridge.go, and the servers of internal/tool/mcp.
pub record Server : Type 0 where
  pub name : String
  pub transport : String
  pub command : String
  pub server_package : String
  pub args : List String
  pub env : List (String × String)
  pub url : String
  pub headers : List (String × String)

abbrev pub with_field :
    List (String × String) → ConfigField → List (String × String) → List (String × String)
with_field config f env =
    if f.env_var =s "" || value_of f.name config =s ""
    then env
    else set_key f.env_var (value_of f.name config) env

unfoldable pub map_config_to_env :
    List ConfigField → List (String × String) → List (String × String) → List (String × String)
map_config_to_env [] config env = env
map_config_to_env (f ∷ fs) config env = map_config_to_env fs config (with_field config f env)

abbrev pub variables : ToolInstance → List (String × String)
variables i =
    map_config_to_env i.definition.optional_config i.config
      (map_config_to_env i.definition.required_config i.config [])

abbrev pub http_server : ToolInstance → Server
http_server i = record {
  name = i.definition.name;
  transport = "http";
  command = "";
  server_package = "";
  args = [];
  env = [];
  url = i.definition.mcp_url;
  headers = variables i;
}

abbrev pub stdio_server : ToolInstance → Server
stdio_server i = record {
  name = i.definition.name;
  transport = "";
  command = i.definition.mcp_command;
  server_package = i.definition.mcp_package;
  args = i.definition.mcp_args;
  env = variables i;
  url = "";
  headers = [];
}

abbrev pub some_if : Bool → Server → Option Server
some_if true s = some s
some_if false s = none

-- The server of an instance, unless it is skipped.
unfoldable pub to_server : ToolInstance → Option Server
to_server i =
    if i.definition.mcp_transport =s "http"
    then some_if (not (i.definition.mcp_url =s "")) (http_server i)
    else some_if (not (i.definition.mcp_package =s "")) (stdio_server i)

abbrev pub with_server : Option Server → List Server → List Server
with_server none rest = rest
with_server (some s) rest = s ∷ rest

unfoldable pub to_mcp_servers : List ToolInstance → List Server
unfolding to_server
to_mcp_servers [] = []
to_mcp_servers (i ∷ is) = with_server (to_server i) (to_mcp_servers is)
