-- ===== src/Session/Listing/Pages.antt =====
-- What a page of sessions shows.
use codeforge.Prelude.{
  In, ℕ, zero, suc, ◌-◌, ◌≤◌, ◌≡◌, refl, ap, ◌∙◌, String, Bool, true, false, ◌||◌, List, [], ◌∷◌,
  map, arith, Bool-cases, inl, inr, if◌then◌else◌, ◌=s◌, leb, length, take, drop, eq_iff,
}
use codeforge.Prelude.Int.{ℤ, pos_part}
use codeforge.Session.Status.{text}
use codeforge.Session.World.{Row}
use codeforge.Session.Listing.{
  Summary, ListOptions, fits, fitting, insert_by, sort_by, newer_row, row_summary, page, page_limit,
  list_rows,
}

abbrev pub All {ℓ} : {A : Type 0} → (A → Type ℓ) → List A → Type ℓ
All P [] = Unit
All P (x ∷ xs) = P x × All P xs

All-take {ℓ} : {A : Type 0} (P : A → Type ℓ) (n : ℕ) (xs : List A) → All P xs → All P (take n xs)
All-take P zero xs h = tt
All-take P (suc n) [] h = tt
All-take P (suc n) (x ∷ xs) (p, h) = (p, All-take P n xs h)

All-drop {ℓ} : {A : Type 0} (P : A → Type ℓ) (n : ℕ) (xs : List A) → All P xs → All P (drop n xs)
All-drop P zero xs h = h
All-drop P (suc n) [] h = tt
All-drop P (suc n) (x ∷ xs) (p, h) = All-drop P n xs h

All-insert_by {ℓ} :
    {A : Type 0} (P : A → Type ℓ) (newer : A → A → Bool) (a : A) (xs : List A)
    → P a
    → All P xs
    → All P (insert_by newer a xs)
All-insert_by P newer a [] p h = (p, tt)
All-insert_by P newer a (x ∷ xs) p (q, h) = elim (Bool-cases (newer x a)) [
  | inl e ↦ rw e (q, All-insert_by P newer a xs p h)
  | inr e ↦ rw e (p, (q, h))
]

pub All-sort_by {ℓ} :
    {A : Type 0} (P : A → Type ℓ) (newer : A → A → Bool) (xs : List A)
    → All P xs
    → All P (sort_by newer xs)
unfolding sort_by
All-sort_by P newer [] h = tt
All-sort_by P newer (x ∷ xs) (p, h) =
    All-insert_by P newer x (sort_by newer xs) p (All-sort_by P newer xs h)

length-insert_by :
    {A : Type 0} (newer : A → A → Bool) (a : A) (xs : List A)
    → length (insert_by newer a xs) ≡ suc (length xs)
length-insert_by newer a [] = refl
length-insert_by newer a (x ∷ xs) = elim (Bool-cases (newer x a)) [
  | inl e ↦ rw e (ap suc (length-insert_by newer a xs))
  | inr e ↦ rw e refl
]

length-sort_by :
    {A : Type 0} (newer : A → A → Bool) (xs : List A) → length (sort_by newer xs) ≡ length xs
unfolding sort_by
length-sort_by newer [] = refl
length-sort_by newer (x ∷ xs) =
    length-insert_by newer x (sort_by newer xs) ∙ ap suc (length-sort_by newer xs)

length-map : {A B : Type 0} (f : A → B) (xs : List A) → length (map f xs) ≡ length xs
length-map f [] = refl
length-map f (x ∷ xs) = ap suc (length-map f xs)

abbrev pub min : ℕ → ℕ → ℕ
min a b = if leb a b then a else b

length-take : {A : Type 0} (n : ℕ) (xs : List A) → length (take n xs) ≡ min n (length xs)
length-take zero xs = ground arith
length-take (suc n) [] = ground arith
length-take (suc n) (x ∷ xs) = ground (arith, length-take n xs)

length-drop : {A : Type 0} (n : ℕ) (xs : List A) → length (drop n xs) ≡ length xs - n
length-drop zero xs = omega arith
length-drop (suc n) [] = omega arith
length-drop (suc n) (x ∷ xs) = omega (arith, length-drop n xs)

-- A row that a list may show: one of the rows, with the status and of the tenant that are asked for.
abbrev pub IsShown : ListOptions → List Row → Row → Type 0
IsShown opts rows r =
    In r rows
    × ((opts.status =s "") ≡ false → text r.session.status ≡ opts.status)
    × ((opts.tenant_id =s "") ≡ false → r.session.tenant_id ≡ opts.tenant_id)

All-weaken :
    {A : Type 0} (P Q : A → Type 0) (xs : List A) → ((x : A) → P x → Q x) → All P xs → All Q xs
All-weaken P Q [] f h = tt
All-weaken P Q (x ∷ xs) f (p, h) = (f x p, All-weaken P Q xs f h)

All-map :
    {A B : Type 0} (P : B → Type 0) (f : A → B) (xs : List A)
    → All (λ x. P (f x)) xs
    → All P (map f xs)
All-map P f [] h = tt
All-map P f (x ∷ xs) (p, h) = (p, All-map P f xs h)

filtered : (a b : String) → (a =s "" || b =s a) ≡ true → (a =s "") ≡ false → b ≡ a
filtered a b h e = (eq_iff b a).0 (ground arith)

fitting-IsShown :
    (opts : ListOptions) (rows : List Row) → All (IsShown opts rows) (fitting opts rows)
fitting-IsShown opts [] = tt
fitting-IsShown opts (r ∷ rows) = elim (Bool-cases (fits opts r)) [
  | inl e ↦ rw e (
    (
      inl refl,
      filtered opts.status (text r.session.status) (ground arith),
      filtered opts.tenant_id r.session.tenant_id (ground arith),
    ),
    deeper (fitting-IsShown opts rows),
  )
  | inr e ↦ rw e (deeper (fitting-IsShown opts rows))
]
  where
    deeper :
        All (IsShown opts rows) (fitting opts rows)
        → All (IsShown opts (r ∷ rows)) (fitting opts rows)
    deeper =
        All-weaken (IsShown opts rows) (IsShown opts (r ∷ rows)) (fitting opts rows)
          λ x (here, status, tenant). (inr here, status, tenant)

-- What a summary in a list stands for.
abbrev pub IsListed : ListOptions → List Row → Summary → Type 0
IsListed opts rows s = (r : Row) × IsShown opts rows r × (s ≡ row_summary r)

page_limit_bounds : (limit : ℤ) → (1 ≤ page_limit limit) × (page_limit limit ≤ 200)
unfolding page_limit
page_limit_bounds limit = ground arith

-- With SQLite a list that is asked for a tenant shows sessions of this tenant alone, and one that
-- is asked for a status those in this status; it has 200 entries at most, and as many of the total
-- behind the offset as the limit allows.
pub list_rows_lem :
    (opts : ListOptions) (rows : List Row)
    → let (shown, total) = list_rows opts rows in
      All (IsListed opts rows) shown
      × (length shown ≡ min (page_limit opts.limit) (total - pos_part opts.offset))
      × (1 ≤ page_limit opts.limit)
      × (page_limit opts.limit ≤ 200)
unfolding list_rows page
list_rows_lem opts rows = (
  All-map (IsListed opts rows) row_summary cut (
      All-weaken (IsShown opts rows) (λ r. IsListed opts rows (row_summary r)) cut
        (λ r h. (r, h, refl))
        (All-take (IsShown opts rows) (page_limit opts.limit) (drop (pos_part opts.offset) sorted) (
          All-drop (IsShown opts rows) (pos_part opts.offset) sorted (
            All-sort_by (IsShown opts rows) newer_row (fitting opts rows)
              (fitting-IsShown opts rows))))),
  length-map row_summary cut
      ∙ length-take (page_limit opts.limit) (drop (pos_part opts.offset) sorted)
      ∙ ap (min (page_limit opts.limit)) (
          length-drop (pos_part opts.offset) sorted
          ∙ ap (λ n. n - pos_part opts.offset) (length-sort_by newer_row (fitting opts rows))),
  (page_limit_bounds opts.limit).0,
  (page_limit_bounds opts.limit).1,
)
  where
    sorted : List Row
    sorted = sort_by newer_row (fitting opts rows)

    cut : List Row
    cut = take (page_limit opts.limit) (drop (pos_part opts.offset) sorted)
