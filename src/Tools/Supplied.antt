-- ===== src/Tools/Supplied.antt =====
-- What the servers of resolved tools are given.
use codeforge.Prelude.{
  ◌≡◌, refl, String, Bool, true, false, Option, none, some, List, [], ◌∷◌, if◌then◌else◌, ◌=s◌,
  ◌<>◌, value_of,
}
use codeforge.Apperror.{Error}
use codeforge.Session.Model.{SessionTool}
use codeforge.Session.World.{World, Result, ok, err, ◌>>=◌, ◌>>◌, pure, context, require}
use codeforge.Session.World.Rules.{Ensures, bind_rule}
use codeforge.Session.Listing.Pages.{All}
use codeforge.Keys.Environment.{Registry}
use codeforge.Tools.{
  ConfigField, ToolDefinition, ToolInstance, ParseUrl, Server, validate_required, validate_config,
  missing_field, or_next, map_config_to_env, variables, http_server, stdio_server, some_if,
  to_server,
}
use codeforge.Tools.Resolver.{
  find_definition, auto_fill_config, checked_instance, resolve_one, resolve,
}
use codeforge.Tools.Registry.{ToolRow}
use codeforge.Tools.Filled.{IsFilled, IsSupplied, mapped-IsSupplied, All-kept}

validate_required-none :
    (parse : ParseUrl) (def : ToolDefinition) (config : List (String × String))
    (fs : List ConfigField)
    → validate_required parse def config fs ≡ none
    → All (λ f. IsFilled f.name config) fs
unfolding validate_required
validate_required-none parse def config [] h = tt
validate_required-none parse def config (f ∷ fs) h =
    let (filled, rest) = passed (value_of f.name config =s "") _ _ h in
    (filled, validate_required-none parse def config fs rest)
  where
    passed :
        (b : Bool) (t rest : Option Error)
        → (if b then some (missing_field f def) else or_next t rest) ≡ none
        → (b ≡ false) × (rest ≡ none)
    passed true t rest e = absurd (cc)
    passed false none rest e = (refl, e)
    passed false (some t) rest e = absurd (cc)

-- A server that is not skipped has all the required variables of its tool.
abbrev pub IsSuppliedBy : Bool → List ConfigField → Option Server → Type 0
IsSuppliedBy over_http fs none = Unit
IsSuppliedBy over_http fs (some s) = All (IsSupplied (if over_http then s.headers else s.env)) fs

abbrev pub HasServer : ToolInstance → Type 0
HasServer i =
    IsSuppliedBy (i.definition.mcp_transport =s "http") i.definition.required_config (to_server i)

chosen :
    (over_http a b : Bool) (x y : Server) (fs : List ConfigField)
    → All (IsSupplied x.headers) fs
    → All (IsSupplied y.env) fs
    → IsSuppliedBy over_http fs (if over_http then some_if a x else some_if b y)
chosen true true b x y fs hx hy = hx
chosen true false b x y fs hx hy = tt
chosen false a true x y fs hx hy = hy
chosen false a false x y fs hx hy = tt

valid-HasServer :
    (parse : ParseUrl) (def : ToolDefinition) (config : List (String × String))
    → validate_config parse def config ≡ none
    → HasServer (record { definition = def; config = config })
unfolding validate_config to_server
valid-HasServer parse def config h =
    chosen (def.mcp_transport =s "http") _ _ (http_server i) (stdio_server i) def.required_config
      all all
  where
    i : ToolInstance
    i = record { definition = def; config = config }

    first_part : (a b : Option Error) → or_next a b ≡ none → a ≡ none
    first_part none b e = refl
    first_part (some x) b e = e

    all : All (IsSupplied (variables i)) def.required_config
    all =
        All-kept def.optional_config def.required_config config
          (map_config_to_env def.required_config config [])
          (mapped-IsSupplied def.required_config config []
            (validate_required-none parse def config def.required_config (first_part _ _ h)))

abbrev OneHas : Result ToolInstance → World → Type 0
OneHas (ok i) w = HasServer i
OneHas (err e) w = Unit

abbrev pub AllHave : Result (List ToolInstance) → World → Type 0
AllHave (ok is) w = All HasServer is
AllHave (err e) w = Unit

checked_instance-OneHas :
    (parse : ParseUrl) (name : String) (def : ToolDefinition) (config : List (String × String))
    (w : World)
    → Ensures (checked_instance parse name def config) w OneHas
unfolding validate_config
checked_instance-OneHas parse name def config w = go (validate_config parse def config) refl
  where
    done : ToolInstance
    done = record { definition = def; config = config }

    go :
        (o : Option Error)
        → validate_config parse def config ≡ o
        → Ensures (context ("tool \"" <> name <> "\"") (require o) >> pure done) w OneHas
    go none h = valid-HasServer parse def config h
    go (some e) h = tt

resolve_one-OneHas :
    (parse : ParseUrl) (keys : Option Registry) (rows : List ToolRow) (project : String)
    (t : SessionTool) (w : World)
    → Ensures (resolve_one parse keys rows project t) w OneHas
resolve_one-OneHas parse keys rows project t w =
    bind_rule (context ("tool \"" <> t.name <> "\"") (find_definition rows project t.name))
      (λ def. auto_fill_config keys def t.config >>= checked_instance parse t.name def) w
      (λ r v. Unit {0}) OneHas tt (λ e v h. tt)
      λ def v h.
        bind_rule (auto_fill_config keys def t.config) (checked_instance parse t.name def) v
          (λ r u. Unit {0}) OneHas tt (λ e u k. tt)
          λ config u k. checked_instance-OneHas parse t.name def config u

-- Whatever fails of the registry and of the keys: where Resolve returns tools, ToMCPServers gives each
-- server that it makes of them a value, not the empty one, for every required field of the tool that
-- has a variable.
pub resolve_lem :
    (parse : ParseUrl) (keys : Option Registry) (rows : List ToolRow) (project : String)
    (ts : List SessionTool) (w : World)
    → Ensures (resolve parse keys rows project ts) w AllHave
unfolding resolve
resolve_lem parse keys rows project [] w = tt
resolve_lem parse keys rows project (t ∷ ts) w =
    bind_rule (resolve_one parse keys rows project t)
      (λ i. resolve parse keys rows project ts >>= λ is. pure (i ∷ is)) w OneHas AllHave
      (resolve_one-OneHas parse keys rows project t w) (λ e v h. tt)
      λ i v h.
        bind_rule (resolve parse keys rows project ts) (λ is. pure (i ∷ is)) v AllHave AllHave
          (resolve_lem parse keys rows project ts v) (λ e u k. tt) λ is u k. (h, k)
