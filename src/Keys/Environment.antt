-- ===== src/Keys/Environment.antt =====
-- internal/keys/env_registry.go: the keys of the environment over the registry in SQLite.
--
-- os.Getenv is a function.
use codeforge.Prelude.{
  String, Bool, false, ◌&&◌, ◌||◌, Option, none, some, List, [], ◌∷◌, ◌++◌, if◌then◌else◌, ◌=s◌,
  ◌<>◌,
}
use codeforge.Apperror.{wrapped, validation}
use codeforge.Session.World.{M, ◌>>◌, pure, fail, reach, lost}
use codeforge.Session.Service.{Cipher}
use codeforge.Keys.{Full, Key, KeyRow, delete_key, resolve_full_by_name, resolve_key}

-- The keys of the environment.
pub record EnvKey : Type 0 where
  pub env_var : String
  pub url_env_var : String
  pub provider : String
  pub name : String

abbrev pub env_key : String → String → String → EnvKey
env_key env_var url_env_var provider = record {
  env_var = env_var;
  url_env_var = url_env_var;
  provider = provider;
  name = provider <> "-env";
}

abbrev pub known_env_keys : List EnvKey
known_env_keys =
    env_key "GITHUB_TOKEN" "GITHUB_URL" "github"
    ∷ env_key "GITLAB_TOKEN" "GITLAB_URL" "gitlab"
    ∷ env_key "SENTRY_AUTH_TOKEN" "SENTRY_URL" "sentry"
    ∷ env_key "ANTHROPIC_API_KEY" "" "anthropic"
    ∷ env_key "OPENAI_API_KEY" "" "openai"
    ∷ []

abbrev pub is_named : String → List EnvKey → Bool
is_named name [] = false
is_named name (k ∷ ks) = k.name =s name || is_named name ks

-- isEnvKey.
abbrev pub is_env_key : String → Bool
is_env_key name = is_named name known_env_keys

abbrev pub variable : String → Option String
variable value = if value =s "" then none else some value

abbrev pub or_variable : Option String → Option String → Option String
or_variable (some t) rest = some t
or_variable none rest = rest

-- The token of the environment for a name and a provider.
abbrev pub env_token : (String → String) → String → String → List EnvKey → Option String
env_token getenv provider name [] = none
env_token getenv provider name (k ∷ ks) =
    let rest = env_token getenv provider name ks in
    if k.name =s name && k.provider =s provider
    then or_variable (variable (getenv k.env_var)) rest
    else rest

abbrev pub base_of : (String → String) → EnvKey → String
base_of getenv k = if k.url_env_var =s "" then "" else getenv k.url_env_var

abbrev pub full_or : (String → String) → EnvKey → Option String → Option Full → Option Full
full_or getenv k none rest = rest
full_or getenv k (some t) rest = some (t, k.provider, base_of getenv k)

abbrev pub env_full : (String → String) → String → List EnvKey → Option Full
env_full getenv name [] = none
env_full getenv name (k ∷ ks) =
    let rest = env_full getenv name ks in
    if k.name =s name then full_or getenv k (variable (getenv k.env_var)) rest else rest

abbrev pub or_else : {A : Type 0} → Option A → M A → M A
or_else none m = m
or_else (some a) m = pure a

pub record Registry : Type 0 where
  pub cipher : Cipher
  pub getenv : String → String
  pub rows : List KeyRow

-- Resolve, ResolveFullByName and Delete of EnvAwareRegistry.
unfoldable pub env_resolve : Registry → String → String → M String
env_resolve reg provider name =
    or_else (env_token reg.getenv provider name known_env_keys)
      (resolve_key reg.cipher reg.rows provider name)

unfoldable pub env_resolve_full_by_name : Registry → String → M Full
env_resolve_full_by_name reg name =
    or_else (env_full reg.getenv name known_env_keys)
      (resolve_full_by_name reg.cipher reg.rows name)

unfoldable pub env_delete : Registry → String → M (List KeyRow)
env_delete reg name =
    if is_env_key name
    then fail (validation ("cannot delete environment-sourced key '" <> name <> "'"))
    else delete_key name reg.rows

abbrev pub of_row : KeyRow → Key
of_row r = record {
  name = r.name;
  provider = r.provider;
  token = "";
  scope = r.scope;
  base_url = r.base_url;
  source = "db";
}

abbrev pub of_rows : List KeyRow → List Key
of_rows [] = []
of_rows (r ∷ rows) = of_row r ∷ of_rows rows

abbrev pub of_env : (String → String) → List EnvKey → List Key
of_env getenv [] = []
of_env getenv (k ∷ ks) =
    let rest = of_env getenv ks in
    if getenv k.env_var =s ""
    then rest
    else record {
      name = k.name;
      provider = k.provider;
      token = "";
      scope = k.env_var;
      base_url = base_of getenv k;
      source = "env";
    }
      ∷ rest

-- List: the rows, and then the variables that are set.
unfoldable pub list_keys : Registry → M (List Key)
unfolding reach
list_keys reg = do
  reach (wrapped "listing keys" lost)
  pure (of_rows reg.rows ++ of_env reg.getenv known_env_keys)
