-- ===== src/Tools/Seeded.antt =====
-- SeedBuiltins where SQLite answers, and what a session finds then.
use codeforge.Prelude.{
  ◌≡◌, refl, sym, ap, subst, ◌∙◌, eq_iff, eq_refl, ℕ, String, Bool, true, false, Option, none, some,
  List, [], ◌∷◌, Bool-cases, inl, inr, ◌=s◌, contains,
}
use codeforge.Session.World.{World, ok, ◌>>=◌, up, attempt, reach}
use codeforge.Session.Listing.Pages.{All}
use codeforge.Tools.{ToolDefinition}
use codeforge.Tools.Catalog.{builtin_tools, tool_named, builtin_by_name}
use codeforge.Tools.Registry.{
  ToolRow, find_tool, get_tool, tool_types, stored, with_tool, insert_tool, create_tool,
  seed_answer, seed_all, seed_builtins,
}
use codeforge.Tools.Resolver.{find_definition}
use codeforge.Tools.Lasting.{found_longer, found_last, Call, run_calls, run_calls-Finds}

-- The table with a definition that it has not.
abbrev added : ℕ → ToolDefinition → List ToolRow → Option ToolDefinition → List ToolRow
added now d rows none = with_tool now "global" d rows
added now d rows (some x) = rows

abbrev with_missing : ℕ → List ToolDefinition → List ToolRow → List ToolRow
with_missing now [] rows = rows
with_missing now (d ∷ ds) rows =
    with_missing now ds (added now d rows (find_tool "global" d.name rows))

abbrev AreAdmitted : List ToolDefinition → Type 0
AreAdmitted = All λ d. contains tool_types d.tool_type ≡ true

seed_all-up :
    (ds : List ToolDefinition) (rows : List ToolRow) (w : World)
    → AreAdmitted ds
    → seed_all ds rows (up w) ≡ (ok (none, with_missing w.now ds rows), up w)
unfolding seed_all create_tool reach
seed_all-up [] rows w h = refl
seed_all-up (d ∷ ds) rows w (a, h) =
    rw a (answered (find_tool "global" d.name rows) (λ rows'. seed_all-up ds rows' w h))
  where
    answered :
        (o : Option ToolDefinition)
        → ((rows' : List ToolRow)
            → seed_all ds rows' (up w) ≡ (ok (none, with_missing w.now ds rows'), up w))
        → (attempt (insert_tool "global" d rows o) >>= seed_answer (seed_all ds) rows) (up w)
          ≡ (ok (none, with_missing w.now ds (added w.now d rows o)), up w)
    answered none later = later _
    answered (some x) later = later rows

added_keeps :
    (now : ℕ) (d : ToolDefinition) (rows : List ToolRow) (o : Option ToolDefinition) (name : String)
    (x : ToolDefinition)
    → find_tool "global" name rows ≡ some x
    → find_tool "global" name (added now d rows o) ≡ some x
added_keeps now d rows none name x h = found_longer "global" name rows _ x h
added_keeps now d rows (some y) name x h = h

with_missing_keeps :
    (now : ℕ) (ds : List ToolDefinition) (rows : List ToolRow) (name : String) (x : ToolDefinition)
    → find_tool "global" name rows ≡ some x
    → find_tool "global" name (with_missing now ds rows) ≡ some x
with_missing_keeps now [] rows name x h = h
with_missing_keeps now (d ∷ ds) rows name x h =
    with_missing_keeps now ds _ name x
      (added_keeps now d rows (find_tool "global" d.name rows) name x h)

added_other :
    (now : ℕ) (d : ToolDefinition) (rows : List ToolRow) (o : Option ToolDefinition) (name : String)
    → (d.name =s name) ≡ false
    → find_tool "global" name rows ≡ none
    → find_tool "global" name (added now d rows o) ≡ none
added_other now d rows none name e h = found_last "global" name rows _ h ∙ (rw e refl)
added_other now d rows (some y) name e h = h

added_itself :
    (now : ℕ) (d : ToolDefinition) (rows : List ToolRow)
    → find_tool "global" d.name rows ≡ none
    → find_tool "global" d.name (added now d rows (find_tool "global" d.name rows))
      ≡ some (stored now d)
added_itself now d rows h = rw h (found_last "global" d.name rows _ h ∙ (rw (eq_refl d.name) refl))

-- What is missing is found as it is stored.
with_missing-tool_named :
    (now : ℕ) (ds : List ToolDefinition) (rows : List ToolRow) (name : String) (x : ToolDefinition)
    → tool_named name ds ≡ some x
    → find_tool "global" name rows ≡ none
    → find_tool "global" name (with_missing now ds rows) ≡ some (stored now x)
with_missing-tool_named now [] rows name x e h = absurd (cc)
with_missing-tool_named now (d ∷ ds) rows name x e h = elim (Bool-cases (d.name =s name)) [
  | inl q ↦ first ((eq_iff d.name name).0 q) (rw q at e)
  | inr q ↦
      with_missing-tool_named now ds _ name x (rw q at e)
        (added_other now d rows (find_tool "global" d.name rows) name q h)
]
  where
    after : List ToolRow
    after = with_missing now (d ∷ ds) rows

    all_stored : Option ToolDefinition → Option ToolDefinition
    all_stored none = none
    all_stored (some y) = some (stored now y)

    first : d.name ≡ name → some d ≡ some x → find_tool "global" name after ≡ some (stored now x)
    first p s =
        subst (λ n. find_tool "global" n after ≡ some (stored now d)) p
          (with_missing_keeps now ds _ d.name (stored now d)
            (added_itself now d rows (subst (λ n. find_tool "global" n rows ≡ none) (sym p) h)))
        ∙ ap all_stored s

abbrev IsFound : List ToolRow → ToolDefinition → Type 0
IsFound rows d = (x : ToolDefinition) × (find_tool "global" d.name rows ≡ some x)

added-IsFound :
    (now : ℕ) (d : ToolDefinition) (rows : List ToolRow) (o : Option ToolDefinition)
    → find_tool "global" d.name rows ≡ o
    → IsFound (added now d rows o) d
added-IsFound now d rows none h =
    (stored now d, found_last "global" d.name rows _ h ∙ (rw (eq_refl d.name) refl))
added-IsFound now d rows (some x) h = (x, h)

with_missing-AllFound :
    (now : ℕ) (ds : List ToolDefinition) (rows : List ToolRow)
    → All (IsFound (with_missing now ds rows)) ds
with_missing-AllFound now [] rows = tt
with_missing-AllFound now (d ∷ ds) rows =
    let (x, e) = added-IsFound now d rows (find_tool "global" d.name rows) refl in
    ((x, with_missing_keeps now ds _ d.name x e), with_missing-AllFound now ds _)

-- Where nothing is missing, nothing is added.
with_missing_none :
    (now : ℕ) (ds : List ToolDefinition) (rows : List ToolRow)
    → All (IsFound rows) ds
    → with_missing now ds rows ≡ rows
with_missing_none now [] rows h = refl
with_missing_none now (d ∷ ds) rows ((x, e), h) = rw e (with_missing_none now ds rows h)

tool_named-builtin :
    (ds : List ToolDefinition) (name : String) (x : ToolDefinition)
    → All (λ d. d.builtin ≡ true) ds
    → tool_named name ds ≡ some x
    → x.builtin ≡ true
tool_named-builtin [] name x h e = absurd (cc)
tool_named-builtin (d ∷ ds) name x (b, h) e = elim (Bool-cases (d.name =s name)) [
  | inl q ↦ sym (ap is_builtin (rw q at e)) ∙ b
  | inr q ↦ tool_named-builtin ds name x h (rw q at e)
]
  where
    is_builtin : Option ToolDefinition → Bool
    is_builtin none = true
    is_builtin (some y) = y.builtin

found_definition :
    (rows : List ToolRow) (name : String) (x : ToolDefinition) (w : World)
    → find_tool "global" name rows ≡ some x
    → (find_definition rows "" name (up w)).0 ≡ ok x
unfolding find_definition get_tool reach
found_definition rows name x w h = rw h refl

seed_builtins_up :
    (rows : List ToolRow) (w : World)
    → seed_builtins rows (up w) ≡ (ok (none, with_missing w.now builtin_tools rows), up w)
unfolding seed_builtins
seed_builtins_up rows w =
    seed_all-up builtin_tools rows w (refl, (refl, (refl, (refl, (refl, tt)))))

-- For a built-in tool whose name no row of "global" has: where SQLite answers, SeedBuiltins returns
-- nil, and again, with the same table, when it is called once more. After any later calls of Create,
-- Delete and SeedBuiltins, whichever of them fail, a lookup that works finds the tool outside every
-- project, as it was stored.
pub seed_builtins_lem :
    (rows : List ToolRow) (w u v : World) (calls : List (World × Call)) (name : String)
    (def : ToolDefinition)
    → builtin_by_name name ≡ some def
    → find_tool "global" name rows ≡ none
    → (rows' : List ToolRow) × ((seed_builtins rows (up w)).0 ≡ ok (none, rows'))
      × ((seed_builtins rows' (up u)).0 ≡ ok (none, rows'))
      × ((find_definition (run_calls calls rows') "" name (up v)).0 ≡ ok (stored w.now def))
seed_builtins_lem rows w u v calls name def e h = (
  rows',
  ap (λ r. r.0) (seed_builtins_up rows w),
  ap (λ r. r.0) (seed_builtins_up rows' u)
      ∙ ap (λ t. ok (none, t))
          (with_missing_none u.now builtin_tools rows'
            (with_missing-AllFound w.now builtin_tools rows)),
  found_definition (run_calls calls rows') name (stored w.now def) v (
      run_calls-Finds "global" name (stored w.now def) calls rows'
        (tool_named-builtin builtin_tools name def (refl, (refl, (refl, (refl, (refl, tt))))) e)
        (with_missing-tool_named w.now builtin_tools rows name def e h)),
)
  where
    rows' : List ToolRow
    rows' = with_missing w.now builtin_tools rows
