-- ===== src/Server/Webhooks/Dedup.antt =====
-- Deliveries that come again, and deliveries that nobody signed.
use codeforge.Session.Model.{Session}
use codeforge.Session.Creating.{create}
use codeforge.Prelude.{
  ℕ, ◌+◌, ◌<◌, ◌≡◌, refl, ap, ◌∙◌, String, Bool, List, ◌∷◌, true, false, ◌&&◌, not, some, [], arith,
  ◌=s◌, update, update_self,
}
use codeforge.Session.World.{up, Result, ok, err}
use codeforge.Session.Service.{CreateSessionRequest, Cipher, Draws}
use codeforge.Server.Http.{Response, done}
use codeforge.Server.Webhooks.{
  change_request, created_reply, CodeReviewConfig, Site, Change, is_alive, dedup_key, dedup_ttl,
  review_change, create_review,
}

-- The site where Redis answers.
abbrev pub calm_site : Site → Site
calm_site s = record s { world = up s.world }

-- A delivery of a commit that is marked is answered and creates nothing.
review_change-duplicate :
    (cipher : Cipher) (cfg : CodeReviewConfig) (draws : Draws) (reason : String) (c : Change)
    (s : Site)
    → (c.draft && not cfg.review_drafts) ≡ false
    → (cfg.default_key_name =s "") ≡ false
    → (c.commit =s "") ≡ false
    → is_alive s.world.now (s.marks (dedup_key c.repo_url c.number c.commit)) ≡ true
    → review_change cipher cfg draws reason c (calm_site s)
      ≡ (record { status = 200; body = done "deduplicated" "" }, calm_site s)
unfolding review_change
review_change-duplicate cipher cfg draws reason c s ready named marked alive =
    rw (ready, named, marked, alive) refl

-- Later on, where Redis answers.
abbrev pub later_site : ℕ → Site → Site
later_site now s = record s { world = record (s.world) { now = now; faults = [] } }

marks-created_reply :
    (status : String) (r : Result Session) (s : Site) → (created_reply status r s).1 ≡ s
marks-created_reply status (ok t) s = refl
marks-created_reply status (err e) s = refl

marks-create_review :
    (cipher : Cipher) (draws : Draws) (req : CreateSessionRequest) (s : Site)
    → (create_review cipher draws req s).1.marks ≡ s.marks
marks-create_review cipher draws req s =
    ap (λ s'. s'.marks)
      (marks-created_reply "created" (create cipher req draws s.world).0
        (record s { world = (create cipher req draws s.world).1 }))

-- The site where Redis answers the call to come, and others may fail.
abbrev pub reached_site : List Bool → Site → Site
reached_site fs s = record s { world = record (s.world) { faults = false ∷ fs } }

-- The site of a delivery that is the first of its commit.
abbrev pub marked_site : CodeReviewConfig → Change → List Bool → Site → Site
marked_site cfg c fs s = record s {
  world = record (s.world) { faults = fs };
  marks =
      update s.marks (dedup_key c.repo_url c.number c.commit) (some (s.world.now + dedup_ttl cfg));
}

-- For a change that is no draft to be skipped, where a default key is named, and a commit that is not
-- empty and has no mark in force: where Redis answers the SETNX of its first delivery, this marks the
-- commit and goes on to create the review session, whichever calls of this fail. One that comes again within the time to
-- live of the mark, where Redis answers, creates nothing and changes nothing: whether the first has
-- created a session or has failed to.
pub review_change_twice :
    (cipher : Cipher) (cfg : CodeReviewConfig) (draws draws' : Draws) (reason : String) (c : Change)
    (s : Site) (now : ℕ) (fs : List Bool)
    → (c.draft && not cfg.review_drafts) ≡ false
    → (cfg.default_key_name =s "") ≡ false
    → (c.commit =s "") ≡ false
    → is_alive s.world.now (s.marks (dedup_key c.repo_url c.number c.commit)) ≡ false
    → now < s.world.now + dedup_ttl cfg
    → let first = review_change cipher cfg draws reason c (reached_site fs s) in
      (first ≡ create_review cipher draws (change_request cfg c) (marked_site cfg c fs s))
      × (review_change cipher cfg draws' reason c (later_site now first.1)
          ≡ (record { status = 200; body = done "deduplicated" "" }, later_site now first.1))
unfolding review_change
review_change_twice cipher cfg draws draws' reason c s now fs ready named marked dead soon =
    (once, again)
  where
    key : String
    key = dedup_key c.repo_url c.number c.commit

    first : Response × Site
    first = review_change cipher cfg draws reason c (reached_site fs s)

    once : first ≡ create_review cipher draws (change_request cfg c) (marked_site cfg c fs s)
    once = rw (ready, named, marked, dead) refl

    kept : first.1.marks key ≡ some (s.world.now + dedup_ttl cfg)
    kept =
        ap (λ p. p.1.marks key) once
        ∙ ap (λ m. m key)
            (marks-create_review cipher draws (change_request cfg c) (marked_site cfg c fs s))
        ∙ update_self s.marks key (some (s.world.now + dedup_ttl cfg))

    alive : is_alive now (first.1.marks key) ≡ true
    alive = rw kept (ground arith)

    again :
        review_change cipher cfg draws' reason c (later_site now first.1)
        ≡ (record { status = 200; body = done "deduplicated" "" }, later_site now first.1)
    again =
        review_change-duplicate cipher cfg draws' reason c (later_site now first.1) ready named
          marked alive
