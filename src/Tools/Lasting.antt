-- ===== src/Tools/Lasting.antt =====
-- Built-in tools in the table, behind any calls of the registry.
use codeforge.Prelude.{
  ◌≡◌, refl, ap, ◌∙◌, zero, suc, ℕ, String, Bool, true, false, ◌&&◌, not, Option, none, some, List,
  [], ◌∷◌, ◌++◌, Bool-cases, inl, inr, if◌then◌else◌, ◌=s◌, contains, arith,
}
use codeforge.Apperror.{Error}
use codeforge.Session.World.{World, Result, ok, err, pure, fail}
use codeforge.Session.World.Rules.{Ensures, reach_rule}
use codeforge.Tools.{ToolDefinition}
use codeforge.Tools.Catalog.{builtin_tools}
use codeforge.Tools.Registry.{
  ToolRow, find_tool, tool_types, insert_tool, admitted, create_tool, tools_without, unless_builtin,
  unless_untouched, rows_affected, remove_tool, delete_tool, is_conflict, Seed, seed_answer,
  seed_all, seed_builtins,
}

-- What a table finds, a longer one finds too.
pub found_longer :
    (scope name : String) (rows more : List ToolRow) (d : ToolDefinition)
    → find_tool scope name rows ≡ some d
    → find_tool scope name (rows ++ more) ≡ some d
found_longer scope name [] more d h = absurd (cc)
found_longer scope name (r ∷ rows) more d h =
    elim (Bool-cases (r.scope =s scope && r.definition.name =s name)) [
      | inl e ↦ rw e (rw e at h)
      | inr e ↦ rw e (found_longer scope name rows more d (rw e at h))
    ]

pub found_last :
    (scope name : String) (rows : List ToolRow) (r : ToolRow)
    → find_tool scope name rows ≡ none
    → find_tool scope name (rows ++ r ∷ []) ≡ find_tool scope name (r ∷ [])
found_last scope name [] r h = refl
found_last scope name (q ∷ rows) r h =
    elim (Bool-cases (q.scope =s scope && q.definition.name =s name)) [
      | inl e ↦ absurd (there (rw e at h))
      | inr e ↦ rw e (found_last scope name rows r (rw e at h))
    ]
  where
    there : {d : ToolDefinition} → some d ≡ none → ⊥
    there p = cc

-- A built-in row stays when others are deleted.
found_without :
    (scope name s n : String) (rows : List ToolRow) (d : ToolDefinition)
    → d.builtin ≡ true
    → find_tool s n rows ≡ some d
    → find_tool s n (tools_without scope name rows) ≡ some d
found_without scope name s n [] d b h = absurd (cc)
found_without scope name s n (r ∷ rows) d b h =
    elim (Bool-cases (r.scope =s s && r.definition.name =s n)) [
      | inl e ↦
          rw
            (spared (r.scope =s scope) (r.definition.name =s name) r.definition.builtin
              (ap (λ o. is_builtin o) (rw e at h) ∙ b))
            (rw e (rw e at h))
      | inr e ↦
          passed (r.scope =s scope && r.definition.name =s name && not r.definition.builtin) e
            (found_without scope name s n rows d b (rw e at h))
    ]
  where
    is_builtin : Option ToolDefinition → Bool
    is_builtin none = true
    is_builtin (some x) = x.builtin

    spared : (x y z : Bool) → z ≡ true → (x && y && not z) ≡ false
    spared x y z e = ground arith

    passed :
        (gone : Bool)
        → (r.scope =s s && r.definition.name =s n) ≡ false
        → find_tool s n (tools_without scope name rows) ≡ some d
        → find_tool s n
            (if gone then tools_without scope name rows else r ∷ tools_without scope name rows)
          ≡ some d
    passed true e k = k
    passed false e k = rw e k

-- The table behind a call that returns the new one.
abbrev pub table_after : List ToolRow → Result (List ToolRow) → List ToolRow
table_after rows (ok rows') = rows'
table_after rows (err e) = rows

abbrev table_seeded : List ToolRow → Result Seed → List ToolRow
table_seeded rows (ok (_, rows')) = rows'
table_seeded rows (err e) = rows

pub data Call : Type 0 where
  creates : String → ToolDefinition → Call
  deletes : String → String → Call
  seeds : Call

-- The table behind a call, and behind calls one after the other, each in a World of its own.
abbrev pub step : World → Call → List ToolRow → List ToolRow
step w (creates scope def) rows = table_after rows (create_tool scope def rows w).0
step w (deletes scope name) rows = table_after rows (delete_tool scope name rows w).0
step w seeds rows = table_seeded rows (seed_builtins rows w).0

unfoldable pub run_calls : List (World × Call) → List ToolRow → List ToolRow
unfolding create_tool delete_tool seed_builtins
run_calls [] rows = rows
run_calls ((w, c) ∷ cs) rows = run_calls cs (step w c rows)

module _ (s n : String) (d : ToolDefinition) where
  abbrev Finds : List ToolRow → Type 0
  Finds rows = find_tool s n rows ≡ some d

  create_tool-Finds :
      (scope : String) (def : ToolDefinition) (rows : List ToolRow) (w : World)
      → Finds rows
      → Ensures (create_tool scope def rows) w (λ r v. Finds (table_after rows r))
  unfolding create_tool
  create_tool-Finds scope def rows w h =
      reach_rule _
        (admitted (contains tool_types def.tool_type)
          (insert_tool scope def rows (find_tool scope def.name rows)))
        w (λ r v. Finds (table_after rows r)) (λ fs. h)
        λ fs. go (contains tool_types def.tool_type) (find_tool scope def.name rows) _
    where
      go :
          (b : Bool) (o : Option ToolDefinition) (v : World)
          → Ensures
              (admitted b (insert_tool scope def rows o))
              v
              (λ r v. Finds (table_after rows r))
      go false o v = h
      go true (some x) v = h
      go true none v = found_longer s n rows _ d h

  delete_tool-Finds :
      (scope name : String) (rows : List ToolRow) (w : World)
      → d.builtin ≡ true
      → Finds rows
      → Ensures (delete_tool scope name rows) w (λ r v. Finds (table_after rows r))
  unfolding delete_tool
  delete_tool-Finds scope name rows w b h =
      reach_rule _ (unless_builtin name (find_tool scope name rows) (remove_tool scope name rows)) w
        (λ r v. Finds (table_after rows r)) (λ fs. h) λ fs. go (find_tool scope name rows) _
    where
      touched :
          (k : ℕ) (v : World)
          → Ensures
              (unless_untouched name k (tools_without scope name rows))
              v
              (λ r u. Finds (table_after rows r))
      touched zero v = h
      touched (suc k) v = found_without scope name s n rows d b h

      removed :
          (v : World) → Ensures (remove_tool scope name rows) v (λ r u. Finds (table_after rows r))
      removed v =
          reach_rule _
            (unless_untouched name (rows_affected scope name rows) (tools_without scope name rows))
            v (λ r u. Finds (table_after rows r)) (λ fs. h)
            λ fs. touched (rows_affected scope name rows) _

      or_refused :
          (builtin : Bool) (e : Error) (v : World)
          → Ensures
              (if builtin then fail e else remove_tool scope name rows)
              v
              (λ r u. Finds (table_after rows r))
      or_refused true e v = h
      or_refused false e v = removed v

      go :
          (o : Option ToolDefinition) (v : World)
          → Ensures
              (unless_builtin name o (remove_tool scope name rows))
              v
              (λ r u. Finds (table_after rows r))
      go none v = h
      go (some x) v = or_refused x.builtin _ v

  abbrev FindsStill : Result Seed → World → Type 0
  FindsStill (ok (_, rows)) w = Finds rows
  FindsStill (err e) w = ⊥

  seed_all-Finds :
      (ds : List ToolDefinition) (rows : List ToolRow) (w : World)
      → Finds rows
      → Ensures (seed_all ds rows) w FindsStill
  unfolding seed_all
  seed_all-Finds [] rows w h = h
  seed_all-Finds (x ∷ ds) rows w h =
      answered (seed_all-Finds ds) (create_tool "global" x rows w).0 _
        (create_tool-Finds "global" x rows w h)
    where
      skipped :
          (b : Bool) (e : Error) (v : World)
          → Ensures (seed_all ds rows) v FindsStill
          → Ensures (if b then seed_all ds rows else pure (some e, rows)) v FindsStill
      skipped true e v k = k
      skipped false e v k = h

      answered :
          ((rows' : List ToolRow) (v : World)
            → Finds rows'
            → Ensures (seed_all ds rows') v FindsStill)
          → (r : Result (List ToolRow)) (v : World) → Finds (table_after rows r)
          → Ensures (seed_answer (seed_all ds) rows r) v FindsStill
      answered later (ok rows') v k = later rows' v k
      answered later (err e) v k = skipped (is_conflict e) e v (later rows v h)

  -- A built-in definition is found through any calls, whichever of them fail.
  pub run_calls-Finds :
      (calls : List (World × Call)) (rows : List ToolRow)
      → d.builtin ≡ true
      → Finds rows
      → Finds (run_calls calls rows)
  unfolding run_calls seed_builtins
  run_calls-Finds [] rows b h = h
  run_calls-Finds ((w, creates scope def) ∷ cs) rows b h =
      run_calls-Finds cs _ b (create_tool-Finds scope def rows w h)
  run_calls-Finds ((w, deletes scope name) ∷ cs) rows b h =
      run_calls-Finds cs _ b (delete_tool-Finds scope name rows w b h)
  run_calls-Finds ((w, seeds) ∷ cs) rows b h =
      run_calls-Finds cs _ b
        (after (seed_builtins rows w).0 _ (seed_all-Finds builtin_tools rows w h))
    where
      after : (r : Result Seed) (v : World) → FindsStill r v → Finds (table_seeded rows r)
      after (ok (e, rows')) v k = k
      after (err e) v k = absurd k
