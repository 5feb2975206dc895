-- ===== src/Session/Sqlite/PullRequests.antt =====
-- Which sessions FindByPR finds.
use codeforge.Prelude.{
  ℕ, ◌≡◌, refl, ap, String, false, Option, none, some, List, [], ◌∷◌, arith, Bool-cases, inl, inr,
  ◌=s◌, ◌==◌,
}
use codeforge.Session.Model.{Session}
use codeforge.Session.World.{Row}
use codeforge.Session.Sqlite.{
  saved, merged, save, fits_pr, later, find_latest, without_tenant, find_by_pr,
}

none_found : (o : Option Row) → without_tenant o ≡ none → o ≡ none
none_found none h = refl
none_found (some r) h = absurd (cc)

unfit :
    (url : String) (n : ℕ) (r : Row)
    → r.session.pr_number ≡ 0
    → (n == 0) ≡ false
    → fits_pr url n r ≡ false
unfit url n r zero' h = ground arith

later-some : (r : Row) (o : Option Row) → later r o ≡ none → ⊥
later-some r none h = cc
later-some r (some best) h = cc

-- A save of a session without a pull request of its own is not found.
find_latest-save :
    (now : ℕ) (t : Session) (url : String) (n : ℕ) (rows : List Row)
    → t.pr_number ≡ 0
    → (n == 0) ≡ false
    → find_latest url n rows ≡ none
    → find_latest url n (save now t rows) ≡ none
unfolding find_latest save saved
find_latest-save now t url n [] zero' h none' =
    rw (unfit url n (record { session = saved t; updated_at = now }) zero' h) refl
find_latest-save now t url n (r ∷ rows) zero' h none' = elim (Bool-cases (fits_pr url n r)) [
  | inl e ↦ absurd (later-some r (find_latest url n rows) (rw e at none'))
  | inr e ↦
      let rest : find_latest url n rows ≡ none = rw e at none' in
      elim (Bool-cases (r.session.id =s t.id)) [
        | inl same ↦
            rw
              (
                same,
                unfit url n (record { session = merged r.session (saved t); updated_at = now })
                    zero' h,
              )
              rest
        | inr other ↦ rw (other, e) (find_latest-save now t url n rows zero' h rest)
      ]
]

pub find_by_pr-save :
    (now : ℕ) (t : Session) (url : String) (n : ℕ) (rows : List Row)
    → t.pr_number ≡ 0
    → (n == 0) ≡ false
    → find_by_pr url n rows ≡ none
    → find_by_pr url n (save now t rows) ≡ none
unfolding find_by_pr
find_by_pr-save now t url n rows zero' h none' =
    ap without_tenant
      (find_latest-save now t url n rows zero' h (none_found (find_latest url n rows) none'))
