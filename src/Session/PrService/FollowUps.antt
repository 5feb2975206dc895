-- ===== src/Session/PrService/FollowUps.antt =====
-- What PushToPR and GetPRStatus make of a session, where Redis and SQLite answer.
use codeforge.Prelude.{
  ◌≡◌, refl, String, false, Option, none, some, eq_refl, if◌then◌else◌, ◌==◌, Bool-cases, inl, inr,
}
use codeforge.Apperror.{Error}
use codeforge.Session.Status.{completed, pr_created, validate_transition}
use codeforge.Session.Model.{Session, ChangesSummary}
use codeforge.Session.World.{
  reach, World, M, Entry, Result, ok, err, up, status_at, hset, entry_hash, entry_status, require,
  ◌>>◌, ◌>>=◌, pure,
}
use codeforge.Session.World.Rules.{require_rule}
use codeforge.Session.Service.{Cipher, Settings}
use codeforge.Session.Operations.Effects.{loaded, loaded-status, get_session-up}
use codeforge.Session.Operations.Moves.{update_status_moves, update_status_refused}
use codeforge.Session.PrService.{
  push_to_pr, push_to_pr_loaded, get_pr_status, get_pr_status_loaded, no_pr, resolved, push_options,
  restore_changes, ensure_pr_created, is_over,
}
use codeforge.Session.PrPlan.{Outside, RepoInfo, PushToPrResponse, token_for, work_dir}

not_opened :
    (e : Option Error) → validate_transition completed pr_created ≡ e → (x : Error) × (e ≡ some x)
unfolding validate_transition
not_opened none h = absurd (cc)
not_opened (some x) h = (x, refl)

closes : validate_transition pr_created completed ≡ none
unfolding validate_transition
closes = refl

-- The end of PushToPR.
replied :
    (cfg : Settings) (k : String) (w : World) (reply : PushToPrResponse)
    → status_at w k ≡ some completed
    → status_at ((ensure_pr_created cfg k completed >> pure reply) (up w)).1 k ≡ some completed
replied cfg k w reply at =
    let (x, refused) = not_opened (validate_transition completed pr_created) refl in
    rw (update_status_refused cfg k pr_created completed w x at refused) at

stored :
    (cfg : Settings) (k : String) (w : World) (reply : PushToPrResponse) (c : Option ChangesSummary)
    → status_at w k ≡ some completed
    → status_at
        ((restore_changes k c >> (ensure_pr_created cfg k completed >> pure reply)) (up w)).1
        k
      ≡ some completed
unfolding reach
stored cfg k w reply none at = replied cfg k w reply at
stored cfg k w reply (some c) at =
    replied cfg k (hset k (λ h. record h { changes_summary = some c }) w) reply
      (rw (eq_refl k) (hash_status (w.state k) at))
  where
    hash_status :
        (o : Option Entry)
        → entry_status o ≡ some completed
        → (entry_hash o).status ≡ some completed
    hash_status none e = absurd (cc)
    hash_status (some x) e = e

pushed :
    (o : Outside) (cfg : Settings) (k : String) (t : Session) (w : World) (r : Result String)
    → status_at w k ≡ some completed
    → let reply : PushToPrResponse = record { pr_url = t.pr_url; branch = t.branch } in
      let f : String → M PushToPrResponse = λ token.
        require (o.commit_and_push (push_options o k t token))
        >> (restore_changes k (o.calculate_changes (work_dir o k))
            >> (ensure_pr_created cfg k completed >> pure reply)) in
      status_at ((resolved "resolving access token for push" r >>= f) (up w)).1 k ≡ some completed
pushed o cfg k t w (err e) at = at
pushed o cfg k t w (ok token) at =
    let reply : PushToPrResponse = record { pr_url = t.pr_url; branch = t.branch } in
    require_rule (o.commit_and_push (push_options o k t token)) _ (up w)
      (λ _ w'. status_at w' k ≡ some completed) (λ e h. at)
      λ h. stored cfg k w reply (o.calculate_changes (work_dir o k)) at

-- Where Redis and SQLite answer, PushToPR of a completed session leaves it completed, whatever git
-- and the token resolver answer: the transition to pr_created at its end is always refused.
pub push_to_pr_completed :
    (o : Outside) (cfg : Settings) (cipher : Cipher) (k : String) (w : World) (x : Entry)
    → w.state k ≡ some x
    → x.hash.status ≡ some completed
    → status_at (push_to_pr o cfg cipher k (up w)).1 k ≡ some completed
unfolding push_to_pr push_to_pr_loaded
push_to_pr_completed o cfg cipher k w x at s =
    let t = loaded cipher (w.result k) x.hash in
    let status : t.status ≡ completed = loaded-status cipher (w.result k) x.hash completed s in
    let stays : status_at w k ≡ some completed = rw at s in
    rw (get_session-up cipher k w x at, status)
      (require_rule (no_pr t.branch) _ (up w) (λ _ w'. status_at w' k ≡ some completed)
        (λ e h. stays) λ h. pushed o cfg k t w (token_for o t) stays)

-- Where Redis and SQLite answer, a GetPRStatus that gets an answer for a session in pr_created
-- returns it, and makes the session completed if the pull request is merged or closed.
get_pr_status_syncs :
    (o : Outside) (cfg : Settings) (cipher : Cipher) (k : String) (w : World) (x : Entry)
    (info : RepoInfo) (token state : String)
    → w.state k ≡ some x
    → x.hash.status ≡ some pr_created
    → let t = loaded cipher (w.result k) x.hash in
      (t.pr_number == 0) ≡ false
      → o.parse_repo_url t.repo_url ≡ ok info
      → token_for o t ≡ ok token
      → o.provider_state info token t.pr_number ≡ ok state
      → let (r, w') = get_pr_status o cfg cipher k (up w) in
        (r ≡ ok state) × (status_at w' k ≡ some (if is_over state then completed else pr_created))
unfolding get_pr_status get_pr_status_loaded
get_pr_status_syncs o cfg cipher k w x info token state at s number parsed asked answer =
    let t = loaded cipher (w.result k) x.hash in
    let status : t.status ≡ pr_created = loaded-status cipher (w.result k) x.hash pr_created s in
    let opened : status_at w k ≡ some pr_created = rw at s in
    let (w', moved, _, done, _, _, _) =
      update_status_moves cfg k completed pr_created w opened closes in
    elim (Bool-cases (is_over state)) [
      | inl over ↦
          rw (get_session-up cipher k w x at, number, parsed, asked, answer, status, over, moved)
            (refl, done)
      | inr open' ↦
          rw (get_session-up cipher k w x at, number, parsed, asked, answer, status, open')
            (refl, opened)
    ]
