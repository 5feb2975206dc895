-- ===== src/Git/Diff/Hunks.antt =====
-- The lines of a patch against the hunks they stand in.
use codeforge.Prelude.{
  In, ℕ, suc, ◌+◌, ◌≡◌, ◌⊎◌, ◌↔◌, refl, sym, ap, subst, true, false, Option, none, some, List, [],
  ◌∷◌, ◌++◌, arith, Bool-cases, Option-cases, inl, inr, if◌then◌else◌,
}
use codeforge.Prelude.Bytes.{Bytes, split_lines}
use codeforge.Git.Diff.{hunk_start, is_new, lines_of, parse_patch}

-- Lines without a header.
abbrev pub ArePlain : List Bytes → Type 0
ArePlain [] = Unit
ArePlain (l ∷ ls) = (hunk_start l ≡ none) × ArePlain ls

abbrev pub count_new : List Bytes → ℕ
count_new [] = 0
count_new (l ∷ ls) = if is_new l then suc (count_new ls) else count_new ls

-- In a hunk whose next new line has the number `s`, a new line with the number `n`.
abbrev pub InBody : ℕ → ℕ → List Bytes → Type 0
InBody n s ls =
    (body : List Bytes) × (l : Bytes) × (after : List Bytes) × (ls ≡ body ++ (l ∷ after))
    × ArePlain body
    × (hunk_start l ≡ none)
    × (is_new l ≡ true)
    × (n ≡ s + count_new body)

-- Somewhere a header, and such a line behind it.
abbrev pub InHunk : ℕ → List Bytes → Type 0
InHunk n ls =
    (before : List Bytes) × (header : Bytes) × (rest : List Bytes) × (start : ℕ) × (ls
      ≡ before ++ (header ∷ rest))
    × (hunk_start header ≡ some start)
    × InBody n start rest

later : (n : ℕ) (l : Bytes) (ls : List Bytes) → InHunk n ls → InHunk n (l ∷ ls)
later n l ls (before, header, rest, start, split, at, body) =
    (l ∷ before, header, rest, start, ap (λ x. l ∷ x) split, at, body)

here :
    (n start : ℕ) (l : Bytes) (ls : List Bytes)
    → hunk_start l ≡ some start
    → InBody n start ls
    → InHunk n (l ∷ ls)
here n start l ls at body = ([], l, ls, start, refl, at, body)

deeper_new :
    (n s : ℕ) (l : Bytes) (ls : List Bytes)
    → hunk_start l ≡ none
    → is_new l ≡ true
    → InBody n (suc s) ls
    → InBody n s (l ∷ ls)
deeper_new n s l ls e f (body, x, after, split, plain, at, new, same) =
    (l ∷ body, x, after, ap (λ y. l ∷ y) split, (e, plain), at, new, rw f (omega arith))

deeper_old :
    (n s : ℕ) (l : Bytes) (ls : List Bytes)
    → hunk_start l ≡ none
    → is_new l ≡ false
    → InBody n s ls
    → InBody n s (l ∷ ls)
deeper_old n s l ls e f (body, x, after, split, plain, at, new, same) =
    (l ∷ body, x, after, ap (λ y. l ∷ y) split, (e, plain), at, new, rw f same)

at_header :
    (at : Option ℕ) (l : Bytes) (ls : List Bytes) (start : ℕ)
    → hunk_start l ≡ some start
    → lines_of at (l ∷ ls) ≡ lines_of (some start) ls
at_header at l ls start e = rw e refl

before_header :
    (l : Bytes) (ls : List Bytes) → hunk_start l ≡ none → lines_of none (l ∷ ls) ≡ lines_of none ls
before_header l ls e = rw e refl

at_new :
    (s : ℕ) (l : Bytes) (ls : List Bytes)
    → hunk_start l ≡ none
    → is_new l ≡ true
    → lines_of (some s) (l ∷ ls) ≡ s ∷ lines_of (some (suc s)) ls
at_new s l ls e f = rw (e, f) refl

at_old :
    (s : ℕ) (l : Bytes) (ls : List Bytes)
    → hunk_start l ≡ none
    → is_new l ≡ false
    → lines_of (some s) (l ∷ ls) ≡ lines_of (some s) ls
at_old s l ls e f = rw (e, f) refl

-- What the loop collects stands in the hunk that is under way, or in a later one.

collected : (n s : ℕ) (ls : List Bytes) → In n (lines_of (some s) ls) → InBody n s ls ⊎ InHunk n ls
collected n s [] h = absurd h
collected n s (l ∷ ls) h = elim (Option-cases (hunk_start l)) [
  | inr (start, e) ↦
      elim (collected n start ls (subst (In n) (at_header (some s) l ls start e) h)) [
        | inl body ↦ inr (here n start l ls e body)
        | inr hunk ↦ inr (later n l ls hunk)
      ]
  | inl e ↦ elim (Bool-cases (is_new l)) [
    | inr f ↦ elim (collected n s ls (subst (In n) (at_old s l ls e f) h)) [
      | inl body ↦ inl (deeper_old n s l ls e f body)
      | inr hunk ↦ inr (later n l ls hunk)
    ]
    | inl f ↦ elim (subst (In n) (at_new s l ls e f) h) [
      | inl same ↦ inl ([], l, ls, refl, tt, e, f, omega (arith, same))
      | inr k ↦ elim (collected n (suc s) ls k) [
        | inl body ↦ inl (deeper_new n s l ls e f body)
        | inr hunk ↦ inr (later n l ls hunk)
      ]
    ]
  ]
]

found : (n : ℕ) (ls : List Bytes) → In n (lines_of none ls) → InHunk n ls
found n [] h = absurd h
found n (l ∷ ls) h = elim (Option-cases (hunk_start l)) [
  | inl e ↦ later n l ls (found n ls (subst (In n) (before_header l ls e) h))
  | inr (start, e) ↦ elim (collected n start ls (subst (In n) (at_header none l ls start e) h)) [
    | inl body ↦ here n start l ls e body
    | inr hunk ↦ later n l ls hunk
  ]
]

body_found :
    (n s : ℕ) (body : List Bytes) (l : Bytes) (after : List Bytes)
    → ArePlain body
    → hunk_start l ≡ none
    → is_new l ≡ true
    → n ≡ s + count_new body
    → In n (lines_of (some s) (body ++ (l ∷ after)))
body_found n s [] l after plain e f same =
    subst (In n) (sym (at_new s l after e f)) (inl (omega (arith, same)))
body_found n s (x ∷ body) l after (p, plain) e f same = elim (Bool-cases (is_new x)) [
  | inl g ↦
      let next : n ≡ suc s + count_new body = omega (arith, rw g at same) in
      subst (In n) (sym (at_new s x (body ++ (l ∷ after)) p g))
        (inr (body_found n (suc s) body l after plain e f next))
  | inr g ↦
      subst (In n) (sym (at_old s x (body ++ (l ∷ after)) p g))
        (body_found n s body l after plain e f (rw g at same))
]

hunk_found :
    (n : ℕ) (at : Option ℕ) (before : List Bytes) (header : Bytes) (start : ℕ) (rest : List Bytes)
    → hunk_start header ≡ some start
    → In n (lines_of (some start) rest)
    → In n (lines_of at (before ++ (header ∷ rest)))
hunk_found n at [] header start rest e h = subst (In n) (sym (at_header at header rest start e)) h
hunk_found n at (l ∷ before) header start rest e h = elim (Option-cases (hunk_start l)) [
  | inr (s, f) ↦
      subst (In n) (sym (at_header at l (before ++ (header ∷ rest)) s f))
        (hunk_found n (some s) before header start rest e h)
  | inl f ↦ behind at f λ at'. hunk_found n at' before header start rest e h
]
  where
    behind :
        (at : Option ℕ)
        → hunk_start l ≡ none
        → ((at' : Option ℕ) → In n (lines_of at' (before ++ (header ∷ rest))))
        → In n (lines_of at (l ∷ (before ++ (header ∷ rest))))
    behind none f next =
        subst (In n) (sym (before_header l (before ++ (header ∷ rest)) f)) (next none)
    behind (some s) f next = elim (Bool-cases (is_new l)) [
      | inl k ↦
          subst (In n) (sym (at_new s l (before ++ (header ∷ rest)) f k))
            (inr (next (some (suc s))))
      | inr k ↦ subst (In n) (sym (at_old s l (before ++ (header ∷ rest)) f k)) (next (some s))
    ]

-- ParsePatch finds exactly the numbers of the lines that stand in the new file: those that are
-- not taken out and no remark, behind a hunk's header with no other header between, each
-- numbered by the header's number and the count of such lines between.
pub parse_patch_iff :
    (patch : Bytes) (n : ℕ) → In n (parse_patch patch) ↔ InHunk n (split_lines patch)
unfolding parse_patch
parse_patch_iff patch n = (
  found n (split_lines patch),
  λ (before, header, rest, start, split, at, (body, l, after, split', plain, e, f, same)).
      subst (λ ls. In n (lines_of none ls)) (sym split)
        (hunk_found n none before header start rest at (
          subst (λ ls. In n (lines_of (some start) ls)) (sym split')
            (body_found n start body l after plain e f same))),
)
