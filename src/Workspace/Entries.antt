-- ===== src/Workspace/Entries.antt =====
-- The entries of workspaces as a map.
use mathlib.Core.Bool.{false≢true}
use codeforge.Prelude.{
  ℕ, ◌≡◌, refl, sym, ap, ◌∙◌, subst, String, false, Option, none, some, List, [], ◌∷◌, Bool-cases,
  inl, inr, if◌then◌else◌, ◌=s◌, eq_iff, option_or,
}
use codeforge.Session.Listing.Pages.{All}
use codeforge.Workspace.{Workspace, find, put, without, resized, size_only, path_or}

abbrev Entries : Type 0
Entries = List (String × Workspace)

apart : (h i j : String) → h ≡ j → (h =s i) ≡ false → (i =s j) ≡ false
apart h i j same e = elim (Bool-cases (i =s j)) [
  | inr f ↦ f
  | inl f ↦ absurd (false≢true (sym e ∙ (eq_iff h i).1 (same ∙ sym ((eq_iff i j).0 f))))
]

find-put :
    (i j : String) (s : Workspace) (es : Entries)
    → find j (put i s es) ≡ (if i =s j then some s else find j es)
find-put i j s [] = refl
find-put i j s ((h, t) ∷ es) = elim (Bool-cases (h =s i)) [
  | inl e ↦
      let same : h ≡ i = (eq_iff h i).0 e in
      rw e (
        subst
          (λ x.
            (if i =s j then some s else find j es)
            ≡ (if i =s j then some s else (if x =s j then some t else find j es)))
          (sym same) here)
  | inr e ↦ elim (Bool-cases (h =s j)) [
    | inl f ↦
        let same : h ≡ j = (eq_iff h j).0 f in
        let other : (i =s j) ≡ false = apart h i j same e in rw (e, f, other) refl
    | inr f ↦ rw (e, f) (find-put i j s es)
  ]
]
  where
    here :
        (if i =s j then some s else find j es)
        ≡ (if i =s j then some s else (if i =s j then some t else find j es))
    here = elim (Bool-cases (i =s j)) [ inl f ↦ rw f refl | inr f ↦ rw f refl ]

-- A size changes no path.
pub place-resized :
    (fallback i j : String) (n : ℕ) (es : Entries)
    → path_or fallback (find j (resized i n es)) ≡ path_or fallback (find j es)
place-resized fallback i j n es =
    ap (path_or fallback)
      (find-put i j (record (option_or (find i es) size_only) { size_bytes = n }) es)
    ∙ elim (Bool-cases (i =s j)) [
      | inr e ↦ rw e refl
      | inl e ↦ rw e (
          subst
            (λ x.
              path_or fallback (some (record (option_or (find x es) size_only) { size_bytes = n }))
              ≡ path_or fallback (find j es))
            (sym ((eq_iff i j).0 e)) (same (find j es)))
    ]
  where
    same :
        (o : Option Workspace)
        → path_or fallback (some (record (option_or o size_only) { size_bytes = n }))
          ≡ path_or fallback o
    same none = refl
    same (some s) = refl

pub find-without :
    (i j : String) (es : Entries) → find j (without i es) ≡ (if i =s j then none else find j es)
find-without i j [] = elim (Bool-cases (i =s j)) [ inl e ↦ rw e refl | inr e ↦ rw e refl ]
find-without i j ((h, t) ∷ es) = elim (Bool-cases (h =s i)) [
  | inl e ↦ elim (Bool-cases (i =s j)) [
    | inl f ↦ rw (e, f) (find-without i j es ∙ rw f refl)
    | inr f ↦
        let other : (h =s j) ≡ false = subst (λ x. (x =s j) ≡ false) (sym ((eq_iff h i).0 e)) f in
        rw (e, f, other) (find-without i j es ∙ rw f refl)
  ]
  | inr e ↦ elim (Bool-cases (h =s j)) [
    | inr f ↦ rw (e, f) (find-without i j es)
    | inl f ↦
        let other : (i =s j) ≡ false = apart h i j ((eq_iff h j).0 f) e in rw (e, f, other) refl
  ]
]

-- What holds of all entries, holds of them with a new one, and without one.
pub All-put :
    (P : String × Workspace → Type 0) (i : String) (s : Workspace) (es : Entries)
    → P (i, s)
    → All P es
    → All P (put i s es)
All-put P i s [] p h = (p, tt)
All-put P i s ((j, t) ∷ es) p (q, h) = elim (Bool-cases (j =s i)) [
  | inl e ↦ rw e (p, h)
  | inr e ↦ rw e (q, All-put P i s es p h)
]

pub All-without :
    (P : String × Workspace → Type 0) (i : String) (es : Entries) → All P es → All P (without i es)
All-without P i [] h = tt
All-without P i ((j, t) ∷ es) (q, h) = elim (Bool-cases (j =s i)) [
  | inl e ↦ rw e (All-without P i es h)
  | inr e ↦ rw e (q, All-without P i es h)
]
