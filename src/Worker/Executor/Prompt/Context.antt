-- ===== src/Worker/Executor/Prompt/Context.antt =====
-- Which iterations a prompt tells of.
use Prim.Native.String.{len}
use text.Mathlib.TextLemmas.{append_assoc}
use codeforge.Prelude.{
  ℕ, ◌+◌, ◌≤◌, ◌<◌, ◌≡◌, ◌⊎◌, refl, sym, ap, ◌∙◌, String, List, [], ◌∷◌, ◌++◌, arith, Bool-cases,
  inl, inr, ◌<>◌, ltb,
}
use codeforge.Session.Model.{Iteration}
use codeforge.Worker.Executor.Prompt.{entry_text, max_context_chars, truncated, entries_from}

abbrev pub texts : List Iteration → String
texts [] = ""
texts (it ∷ its) = entry_text it <> texts its

abbrev pub bytes_of : List Iteration → ℕ
bytes_of [] = 0
bytes_of (it ∷ its) = len (entry_text it) + bytes_of its

-- What is said of the iterations that are left out.
abbrev pub remark : List Iteration → String
remark [] = ""
remark (it ∷ its) = truncated

abbrev pub first_bytes : List Iteration → ℕ
first_bytes [] = 0
first_bytes (it ∷ its) = len (entry_text it)

-- The iterations fall into older ones that are shown, and newer ones that are not.
abbrev pub Shown : ℕ → List Iteration → String → Type 0
Shown total its s =
    (older : List Iteration) × (newer : List Iteration) × (its ≡ older ++ newer)
    × (s ≡ texts older <> remark newer)
    × ((older ≡ []) ⊎ (total + bytes_of older ≤ max_context_chars))
    × ((newer ≡ []) ⊎ (max_context_chars < total + bytes_of older + first_bytes newer))

behind :
    (total : ℕ) (it : Iteration) (its : List Iteration) (s : String)
    → total + len (entry_text it) ≤ max_context_chars
    → Shown (total + len (entry_text it)) its s
    → Shown total (it ∷ its) (entry_text it <> s)
behind total it its s fits (older, newer, split, same, within, over) = (
  it ∷ older,
  newer,
  ap (λ x. it ∷ x) split,
  ap (λ x. entry_text it <> x) same
      ∙ sym (append_assoc (entry_text it) (texts older) (remark newer)),
  inr (bound within),
  later over,
)
  where
    bound :
        (older ≡ []) ⊎ (total + len (entry_text it) + bytes_of older ≤ max_context_chars)
        → total + bytes_of (it ∷ older) ≤ max_context_chars
    bound (inl none_older) =
        let nothing : bytes_of older ≡ 0 = ap bytes_of none_older in omega (arith, nothing, fits)
    bound (inr h) = omega (arith, h)

    later :
        (newer ≡ [])
          ⊎ (max_context_chars < total + len (entry_text it) + bytes_of older + first_bytes newer)
        → (newer ≡ []) ⊎ (max_context_chars < total + bytes_of (it ∷ older) + first_bytes newer)
    later (inl e) = inl e
    later (inr h) = inr (omega (arith, h))

entries_from-Shown : (total : ℕ) (its : List Iteration) → Shown total its (entries_from total its)
unfolding entries_from
entries_from-Shown total [] = ([], [], refl, refl, inl refl, inl refl)
entries_from-Shown total (it ∷ its) =
    elim (Bool-cases (ltb max_context_chars (total + len (entry_text it)))) [
      | inl e ↦ rw e ([], it ∷ its, refl, refl, inl refl, inr (ground arith))
      | inr e ↦ rw e (
          behind total it its (entries_from (total + len (entry_text it)) its) (ground arith)
            (entries_from-Shown (total + len (entry_text it)) its))
    ]

-- The history in a prompt tells of the oldest iterations, as many as have 50000 bytes together, and
-- of none behind them: what does not fit are the newest ones.
pub entries_from_lem : (its : List Iteration) → Shown 0 its (entries_from 0 its)
entries_from_lem its = entries_from-Shown 0 its
