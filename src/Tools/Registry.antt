-- ===== src/Tools/Registry.antt =====
-- internal/tools/sqlite_registry.go: the table `tools`; and SeedBuiltins of catalog.go.
--
-- A definition is stored in a row as it is: its lists, which the code keeps as JSON, come back as they
-- were. The rows stand in the order in which they were created.
use codeforge.Prelude.{
  ℕ, zero, suc, ◌+◌, String, Bool, true, false, ◌&&◌, not, Option, none, some, List, [], ◌∷◌, ◌++◌,
  if◌then◌else◌, ◌=s◌, ◌<>◌, leb, contains,
}
use codeforge.Apperror.{
  Sentinel, err_conflict, Error, app, sentinel, opaque, wrapped, validation, conflict, not_found,
}
use codeforge.Session.World.{M, Result, ok, err, ◌>>=◌, ◌>>◌, pure, fail, get, attempt, reach, lost}
use codeforge.Session.Listing.{sort_by}
use codeforge.Tools.{ToolDefinition}
use codeforge.Tools.Catalog.{builtin_tools}

pub record ToolRow : Type 0 where
  pub scope : String
  pub definition : ToolDefinition

abbrev pub find_tool : String → String → List ToolRow → Option ToolDefinition
find_tool scope name [] = none
find_tool scope name (r ∷ rows) =
    let rest = find_tool scope name rows in
    if r.scope =s scope && r.definition.name =s name then some r.definition else rest

abbrev pub no_tool : String → Error
no_tool name = not_found ("tool '" <> name <> "' not found")

abbrev pub found_tool : String → Option ToolDefinition → M ToolDefinition
found_tool name none = fail (no_tool name)
found_tool name (some def) = pure def

-- Get of the registry.
unfoldable pub get_tool : List ToolRow → String → String → M ToolDefinition
unfolding reach
get_tool rows scope name = do
  reach (wrapped "getting tool" lost)
  found_tool name (find_tool scope name rows)

-- The types that the table admits.
abbrev pub tool_types : List String
tool_types = "mcp" ∷ "builtin" ∷ "custom" ∷ []

-- A definition as its row keeps it.
abbrev pub stored : ℕ → ToolDefinition → ToolDefinition
stored now def = record def {
  mcp_transport = if def.mcp_transport =s "" then "stdio" else def.mcp_transport;
  created_at = now;
}

abbrev pub with_tool : ℕ → String → ToolDefinition → List ToolRow → List ToolRow
with_tool now scope def rows = rows ++ record { scope = scope; definition = stored now def } ∷ []

-- The insertion, which fails where there is a row with the scope and the name.
abbrev pub insert_tool :
    String → ToolDefinition → List ToolRow → Option ToolDefinition → M (List ToolRow)
insert_tool scope def rows (some d) =
    fail (conflict ("tool '" <> def.name <> "' already exists in scope '" <> scope <> "'"))
insert_tool scope def rows none = get >>= λ w. pure (with_tool w.now scope def rows)

-- The constraint on the type, which comes before that on the name.
abbrev pub admitted : Bool → M (List ToolRow) → M (List ToolRow)
admitted true next = next
admitted false next = fail (wrapped "storing tool" (opaque "CHECK constraint failed"))

-- Create: the new table.
unfoldable pub create_tool : String → ToolDefinition → List ToolRow → M (List ToolRow)
unfolding reach
create_tool scope def rows = do
  reach (wrapped "storing tool" lost)
  admitted (contains tool_types def.tool_type)
      (insert_tool scope def rows (find_tool scope def.name rows))

abbrev pub tools_of : String → List ToolRow → List ToolDefinition
tools_of scope [] = []
tools_of scope (r ∷ rows) =
    let rest = tools_of scope rows in if r.scope =s scope then r.definition ∷ rest else rest

abbrev pub is_earlier : ToolDefinition → ToolDefinition → Bool
is_earlier a b = not (leb b.created_at a.created_at)

-- List.
unfoldable pub list_tools : List ToolRow → String → M (List ToolDefinition)
unfolding reach sort_by
list_tools rows scope = do
  reach (wrapped "listing tools" lost)
  pure (sort_by is_earlier (tools_of scope rows))

-- What the DELETE finds, the rows that it leaves, and RowsAffected.
abbrev pub is_deletable : String → String → ToolRow → Bool
is_deletable scope name r =
    r.scope =s scope && r.definition.name =s name && not r.definition.builtin

abbrev pub tools_without : String → String → List ToolRow → List ToolRow
tools_without scope name [] = []
tools_without scope name (r ∷ rows) =
    let rest = tools_without scope name rows in if is_deletable scope name r then rest else r ∷ rest

abbrev pub rows_affected : String → String → List ToolRow → ℕ
rows_affected scope name [] = 0
rows_affected scope name (r ∷ rows) =
    let rest = rows_affected scope name rows in if is_deletable scope name r then 1 + rest else rest

abbrev pub unless_builtin : String → Option ToolDefinition → M (List ToolRow) → M (List ToolRow)
unless_builtin name none next = fail (no_tool name)
unless_builtin name (some def) next =
    if def.builtin
    then fail (validation ("built-in tool '" <> name <> "' cannot be deleted"))
    else next

abbrev pub unless_untouched : String → ℕ → List ToolRow → M (List ToolRow)
unless_untouched name zero rows = fail (no_tool name)
unless_untouched name (suc n) rows = pure rows

abbrev pub remove_tool : String → String → List ToolRow → M (List ToolRow)
remove_tool scope name rows = do
  reach (wrapped "deleting tool" lost)
  unless_untouched name (rows_affected scope name rows) (tools_without scope name rows)

-- Delete: a lookup, which takes a failed call for a missing row, then the DELETE.
unfoldable pub delete_tool : String → String → List ToolRow → M (List ToolRow)
unfolding reach
delete_tool scope name rows = do
  reach (no_tool name)
  unless_builtin name (find_tool scope name rows) (remove_tool scope name rows)

-- errors.As an AppError that is ErrConflict.
abbrev pub is_conflict_kind : Sentinel → Bool
is_conflict_kind err_conflict = true
is_conflict_kind _ = false

abbrev pub is_conflict : Error → Bool
is_conflict (app e) = is_conflict_kind e.err
is_conflict (sentinel s) = false
is_conflict (opaque s) = false
is_conflict (wrapped _ e) = is_conflict e

-- What SeedBuiltins returns, and the table then.
abbrev pub Seed : Type 0
Seed = Option Error × List ToolRow

abbrev pub seed_answer : (List ToolRow → M Seed) → List ToolRow → Result (List ToolRow) → M Seed
seed_answer next rows (ok rows') = next rows'
seed_answer next rows (err e) = if is_conflict e then next rows else pure (some e, rows)

unfoldable pub seed_all : List ToolDefinition → List ToolRow → M Seed
unfolding create_tool
seed_all [] rows = pure (none, rows)
seed_all (d ∷ ds) rows = attempt (create_tool "global" d rows) >>= seed_answer (seed_all ds) rows

-- SeedBuiltins.
unfoldable pub seed_builtins : List ToolRow → M Seed
unfolding seed_all
seed_builtins rows = seed_all builtin_tools rows
