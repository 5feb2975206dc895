-- ===== src/Session/Sqlite/Rows.antt =====
-- The rows that a Save leaves, and the rows that ListStuckSessions finds.
use mathlib.Core.Bool.{false≢true}
use codeforge.Prelude.{
  In, ℕ, ◌/◌, ◌%◌, ◌≡◌, refl, sym, ap, ◌∙◌, subst, ◌<◌, ◌≤◌, inl, inr, String, Bool, true, false,
  ◌||◌, ◌&&◌, Option, none, some, List, [], ◌∷◌, arith, eq_refl, eq_iff, Bool-cases, ◌=s◌, ◌==◌,
  ltb, contains, if◌then◌else◌,
}
use codeforge.Session.Status.{Status, running, cloning, is_status}
use codeforge.Session.Model.{Session}
use codeforge.Session.World.{Row}
use codeforge.Session.Rfc3339.{rfc_lt, second, lex_lt, fraction_text}
use codeforge.Session.Sqlite.{saved, merged, save, find_row, list_stuck, update_row}

-- What Save makes of the row that was there.
abbrev pub resaved : Session → Option Session → Session
resaved t none = saved t
resaved t (some old) = merged old (saved t)

id-resaved : (t : Session) (o : Option Session) → (resaved t o).id ≡ t.id
unfolding saved
id-resaved t none = refl
id-resaved t (some old) = refl

swapped : (a b : String) → (a =s b) ≡ false → (b =s a) ≡ false
swapped a b h = elim (Bool-cases (b =s a)) [
  | inl e ↦ absurd (false≢true (sym h ∙ (eq_iff a b).1 (sym ((eq_iff b a).0 e))))
  | inr e ↦ e
]

-- After a Save, Get finds the session that was saved, with the tenant, the creation time and the
-- review result of its old row if there was one, and every other session as before.
pub find_row-save :
    (now : ℕ) (t : Session) (rows : List Row) (k : String)
    → find_row k (save now t rows)
      ≡ (if t.id =s k then some (resaved t (find_row t.id rows)) else find_row k rows)
unfolding find_row save saved
find_row-save now t [] k = elim (Bool-cases (t.id =s k)) [ inl e ↦ rw e refl | inr e ↦ rw e refl ]
find_row-save now t (r ∷ rows) k = elim (Bool-cases (r.session.id =s t.id)) [
  | inl same ↦ elim (Bool-cases (t.id =s k)) [
    | inl e ↦ rw (same, e) refl
    | inr e ↦ rw (same, e, ap (λ x. x =s k) ((eq_iff r.session.id t.id).0 same) ∙ e) refl
  ]
  | inr apart ↦ elim (Bool-cases (r.session.id =s k)) [
    | inl here ↦
        let other = sym (ap (λ x. x =s t.id) ((eq_iff r.session.id k).0 here)) ∙ apart in
        rw (apart, here, swapped k t.id other) refl
    | inr there ↦ rw (apart, there) (find_row-save now t rows k)
  ]
]

abbrev pub changed : (Session → Session) → Option Session → Option Session
changed f none = none
changed f (some t) = some (f t)

-- An UPDATE reaches the rows of its id alone.
pub find_row-update_row :
    (now : ℕ) (k : String) (f : Session → Session) (rows : List Row) (j : String)
    → ((t : Session) → (f t).id ≡ t.id)
    → find_row j (update_row now k f rows)
      ≡ (if k =s j then changed f (find_row j rows) else find_row j rows)
unfolding find_row update_row
find_row-update_row now k f [] j keeps = elim (Bool-cases (k =s j)) [
  | inl e ↦ rw e refl
  | inr e ↦ rw e refl
]
find_row-update_row now k f (r ∷ rows) j keeps = elim (Bool-cases (r.session.id =s k)) [
  | inl same ↦
      let key : (k =s j) ≡ (r.session.id =s j) =
        ap (λ x. x =s j) (sym ((eq_iff r.session.id k).0 same)) in
      elim (Bool-cases (r.session.id =s j)) [
        | inl here ↦ rw (same, ap (λ x. x =s j) (keeps r.session) ∙ here, key, here) refl
        | inr there ↦
            rw (same, ap (λ x. x =s j) (keeps r.session) ∙ there, there)
              (find_row-update_row now k f rows j keeps ∙ rw (key, there) refl)
      ]
  | inr apart ↦ elim (Bool-cases (r.session.id =s j)) [
    | inl here ↦
        let other : (k =s j) ≡ false =
          swapped j k (sym (ap (λ x. x =s k) ((eq_iff r.session.id j).0 here)) ∙ apart) in
        rw (apart, here, other) refl
    | inr there ↦ rw (apart, there) (find_row-update_row now k f rows j keeps)
  ]
]

precedes : (x y : ℕ) (l : Bool) → (ltb x y || (x == y && l)) ≡ true → x ≤ y
precedes x y l h = ground arith

earlier : (x y : ℕ) (l : Bool) → x < y → (ltb x y || (x == y && l)) ≡ true
earlier x y l h = ground arith

abbrev pub is_working : Status → Bool
is_working s = is_status s running || is_status s cloning

-- A row of `k` that works and is no younger than `before`, to the second.
abbrev pub Listed : ℕ → List Row → String → Type 0
Listed before rows k =
    (r : Row) × In r rows
    × (r.session.id ≡ k)
    × (is_working r.session.status ≡ true)
    × (r.updated_at / second ≤ before / second)

listed :
    (before : ℕ) (rows : List Row) (k : String)
    → contains (list_stuck before rows) k ≡ true
    → Listed before rows k
unfolding list_stuck rfc_lt
listed before [] k h = absurd (false≢true h)
listed before (r ∷ rows) k h = elim (Bool-cases (is_working r.session.status && old)) [
  | inl found ↦ elim (Bool-cases (r.session.id =s k)) [
    | inl here ↦
        (r, inl refl, (eq_iff r.session.id k).0 here, ground arith, precedes x y l (ground arith))
    | inr there ↦ later (listed before rows k (ground arith))
  ]
  | inr not_found ↦ later (listed before rows k (ground arith))
]
  where
    x : ℕ
    x = r.updated_at / second

    y : ℕ
    y = before / second

    l : Bool
    l = lex_lt (fraction_text (r.updated_at % second)) (fraction_text (before % second))

    old : Bool
    old = ltb x y || (x == y && l)

    later : Listed before rows k → Listed before (r ∷ rows) k
    later (q, member, same, works, old') = (q, inr member, same, works, old')

rfc_lt_earlier : (a b : ℕ) → a / second < b / second → rfc_lt a b ≡ true
unfolding rfc_lt
rfc_lt_earlier a b h =
    earlier (a / second) (b / second)
      (lex_lt (fraction_text (a % second)) (fraction_text (b % second))) h

found_first :
    (before : ℕ) (r : Row) (rows : List Row)
    → is_working r.session.status ≡ true
    → rfc_lt r.updated_at before ≡ true
    → contains (list_stuck before (r ∷ rows)) r.session.id ≡ true
unfolding list_stuck
found_first before r rows works old = rw (works, old, eq_refl r.session.id) refl

found_later :
    (before : ℕ) (q : Row) (rows : List Row) (k : String)
    → contains (list_stuck before rows) k ≡ true
    → contains (list_stuck before (q ∷ rows)) k ≡ true
unfolding list_stuck
found_later before q rows k h =
    elim (Bool-cases (is_working q.session.status && rfc_lt q.updated_at before)) [
      | inl e ↦ rw (e, h) (ground arith)
      | inr e ↦ rw e h
    ]

found :
    (before : ℕ) (rows : List Row) (r : Row)
    → In r rows
    → is_working r.session.status ≡ true
    → r.updated_at / second < before / second
    → contains (list_stuck before rows) r.session.id ≡ true
found before [] r none_in works old = absurd none_in
found before (q ∷ rows) r (inl same) works old =
    subst (λ x. contains (list_stuck before (x ∷ rows)) r.session.id ≡ true) (sym same)
      (found_first before r rows works (rfc_lt_earlier r.updated_at before old))
found before (q ∷ rows) r (inr member) works old =
    found_later before q rows r.session.id (found before rows r member works old)

-- ListStuckSessions lists sessions that run or are cloned alone, none of them touched in a later
-- second than the bound, and all of those touched in an earlier second: comparing the texts of
-- times is wrong within a second at most.
pub list_stuck_lem :
    (before : ℕ) (rows : List Row)
    → ((k : String) → contains (list_stuck before rows) k ≡ true → Listed before rows k)
      × ((r : Row)
          → In r rows
          → is_working r.session.status ≡ true
          → r.updated_at / second < before / second
          → contains (list_stuck before rows) r.session.id ≡ true)
list_stuck_lem before rows = (listed before rows, found before rows)
