-- ===== src/Server/Webhooks/Reviews.antt =====
-- A review that a comment has started, and the fix that is asked for then.
use codeforge.Prelude.{
  ◌≡◌, refl, sym, ap, ◌∙◌, String, Bool, false, none, some, List, ◌=s◌, ◌<>◌, ◌==◌,
}
use codeforge.Prelude.Bytes.{Bytes}
use codeforge.Prelude.Int.{ℤ, pos_part}
use codeforge.Prelude.Decimal.{decimal}
use codeforge.Apperror.{Error, not_found}
use codeforge.Session.Model.{Session}
use codeforge.Session.World.{World, Row, up, ok, err, reach}
use codeforge.Session.Service.{Cipher, Draws}
use codeforge.Session.Creating.{create}
use codeforge.Session.Sqlite
use codeforge.Session.Sqlite.PullRequests.{find_by_pr-save}
use codeforge.Session.Operations.Stored.{sqlite-create}
use codeforge.Session.Operations.Effects.{up_lem}
use codeforge.Server.Http.{message, done}
use codeforge.Server.Webhooks.{CodeReviewConfig, Site}
use codeforge.Server.Webhooks.Dedup.{calm_site}
use codeforge.Server.Webhooks.Commands.{
  review, fix, Place, find_by_pr, find_in, review_command, fix_command, run_command,
  comment_request,
}

abbrev pub nobody : String → ℤ → Error
nobody url number = not_found ("no session found for repo " <> url <> " PR #" <> decimal number)

missing_in :
    (cipher : Cipher) (url : String) (number : ℤ) (rows : List Row) (w : World)
    → Sqlite.find_by_pr url (pos_part number) rows ≡ none
    → find_in cipher url number (some rows) (up w) ≡ (err (nobody url number), up w)
unfolding reach
missing_in cipher url number rows w h = rw h refl

find_by_pr-missing :
    (cipher : Cipher) (url : String) (number : ℤ) (rows : List Row) (w : World)
    → w.sqlite ≡ some rows
    → Sqlite.find_by_pr url (pos_part number) rows ≡ none
    → find_by_pr cipher url number (up w) ≡ (err (nobody url number), up w)
unfolding find_by_pr
find_by_pr-missing cipher url number rows w there h =
    ap (λ o. find_in cipher url number o (up w)) there ∙ missing_in cipher url number rows w h

module _ (cipher : Cipher) (cfg : CodeReviewConfig) (raced : Bool) (text : Bytes → String)
    (p : Place) where
  -- A fix of a pull request without a session.
  fix-missing :
      (draws : Draws) (argument : Bytes) (rows : List Row) (s : Site)
      → (cfg.default_key_name =s "") ≡ false
      → s.world.sqlite ≡ some rows
      → Sqlite.find_by_pr p.repo_url (pos_part p.number) rows ≡ none
      → (run_command cipher cfg draws raced text p (some (fix, argument)) (calm_site s)).0
        ≡ record {
          status = 404;
          body = message ("no session found for " <> p.shown <> " — run /review first");
        }
  unfolding run_command fix_command
  fix-missing draws argument rows s named there h =
      rw (named, find_by_pr-missing cipher p.repo_url p.number rows s.world there h) refl

  review-created :
      (draws : Draws) (argument : Bytes) (rows : List Row) (s : Site) (t : Session)
      → (cfg.default_key_name =s "") ≡ false
      → s.world.sqlite ≡ some rows
      → Sqlite.find_by_pr p.repo_url (pos_part p.number) rows ≡ none
      → (create cipher (comment_request cfg p) draws (up s.world)).0 ≡ ok t
      → run_command cipher cfg draws raced text p (some (review, argument)) (calm_site s) ≡ (
        record { status = 201; body = done "review_created" t.id },
        record s { world = (create cipher (comment_request cfg p) draws (up s.world)).1 },
      )
  unfolding run_command review_command
  review-created draws argument rows s t named there h made =
      rw (named, find_by_pr-missing cipher p.repo_url p.number rows s.world there h, made) refl

  -- Where every call works and SQLite is there: `/review` on a pull request that has no session
  -- creates one, and a `/fix` that follows is still answered with 404 and "run /review first",
  -- because FindByPR looks for the number in a column that only the creation of a pull request
  -- fills.
  pub fix_after_review :
      (draws draws' : Draws) (asked argument : Bytes) (rows : List Row) (s : Site) (t : Session)
      → (cfg.default_key_name =s "") ≡ false
      → s.world.sqlite ≡ some rows
      → (pos_part p.number == 0) ≡ false
      → Sqlite.find_by_pr p.repo_url (pos_part p.number) rows ≡ none
      → (create cipher (comment_request cfg p) draws (up s.world)).0 ≡ ok t
      → let first =
          run_command cipher cfg draws raced text p (some (review, asked)) (calm_site s) in
        (first.0 ≡ record { status = 201; body = done "review_created" t.id })
        × ((run_command cipher cfg draws' raced text p (some (fix, argument)) first.1).0 ≡ record {
          status = 404;
          body = message ("no session found for " <> p.shown <> " — run /review first");
        })
  fix_after_review draws draws' asked argument rows s t named there number h made =
      let first = review-created draws asked rows s t named there h made in
      let after = record s {
        world = (create cipher (comment_request cfg p) draws (up s.world)).1;
      } in
      let (kept, no_pr, calm) =
        sqlite-create cipher (comment_request cfg p) draws s.world rows t there made in
      (
        ap (λ x. x.0) first,
        ap (λ x. (run_command cipher cfg draws' raced text p (some (fix, argument)) x.1).0) first
            ∙ ap
                (λ w.
                  (run_command cipher cfg draws' raced text p (some (fix, argument))
                    (record s { world = w })).0)
                (sym (up_lem after.world calm))
            ∙ fix-missing draws' argument (Sqlite.save s.world.now t rows) after named kept
                (find_by_pr-save s.world.now t p.repo_url (pos_part p.number) rows no_pr number h),
      )
