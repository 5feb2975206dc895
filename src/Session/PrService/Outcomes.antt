-- ===== src/Session/PrService/Outcomes.antt =====
-- What CreatePR, PushToPR and GetPRStatus make of a session, where Redis and SQLite answer.
use codeforge.Session.Sqlite
use codeforge.Prelude.{
  ◌<>◌, if◌then◌else◌, ◌≡◌, refl, ap, ◌∙◌, sym, String, true, false, Option, none, some, arith, ◌⊎◌,
  inl, inr, eq_refl,
}
use codeforge.Apperror.{error_text, Error, wrapped}
use codeforge.Session.Status.{
  is_status, Status, completed, failed, creating_pr, pr_created, validate_transition,
}
use codeforge.Session.Model.{Session}
use codeforge.Session.World.{
  entry_status, Hash, hset, entry_hash, written, World, Entry, ok, err, up, status_at,
}
use codeforge.Session.Service.{Cipher, Settings}
use codeforge.Session.Operations.{set_error}
use codeforge.Session.Operations.Effects.{loaded, loaded-status, get_session-up}
use codeforge.Session.Operations.Moves.{
  persist_to_sqlite-up, update_status_moves, update_status_refused,
}
use codeforge.Session.PrService.{
  pr_options, record_pr, fail_pr, create_pr, create_pr_loaded, publish, after_push, branch_options,
}
use codeforge.Session.PrPlan.{
  PrResult, Outside, RepoInfo, BranchOptions, CreatePrRequest, pr_refusal, changes_refusal,
  work_dir, token_for,
}

-- Everything up to the push works.
abbrev pub ReachesPush : Outside → String → CreatePrRequest → Session → String → RepoInfo → Type 0
ReachesPush o k req t token info =
    (changes_refusal o (work_dir o k) t ≡ none)
    × (token_for o t ≡ ok token)
    × (o.parse_repo_url t.repo_url ≡ ok info)
    × (info.known ≡ true)

creating_valid :
    (c : Status) → (c ≡ completed) ⊎ (c ≡ pr_created) → validate_transition c creating_pr ≡ none
unfolding validate_transition
creating_valid c h = ground arith

create_pr_loaded_pushes :
    (o : Outside) (cfg : Settings) (k : String) (req : CreatePrRequest) (t : Session) (w : World)
    (token : String) (info : RepoInfo)
    → status_at w k ≡ some t.status
    → (t.status ≡ completed) ⊎ (t.status ≡ pr_created)
    → ReachesPush o k req t token info
    → (w' : World) × (status_at w' k ≡ some creating_pr)
      × (create_pr_loaded o cfg k req t (up w) ≡ (
          let b = branch_options o k req t token in
          after_push o cfg k req t info b (o.create_branch_and_push b) (up w')))
unfolding create_pr_loaded publish
create_pr_loaded_pushes o cfg k req t w token info e s (changes, asked, parsed, known) =
    let open' : pr_refusal t.status ≡ none = ground arith in
    let valid : validate_transition t.status creating_pr ≡ none = creating_valid t.status s in
    let (w', moved, _, status, _, _, _) =
      update_status_moves cfg k creating_pr t.status w e valid in
    (w', status, rw (open', changes, asked, moved, parsed, known) refl)

stays_creating :
    (e : Option Error) → validate_transition creating_pr completed ≡ e → (x : Error) × (e ≡ some x)
unfolding validate_transition
stays_creating none h = absurd (cc)
stays_creating (some x) h = (x, refl)

reopens : validate_transition creating_pr pr_created ≡ none
unfolding validate_transition
reopens = refl

after_failed_push :
    (o : Outside) (cfg : Settings) (k : String) (req : CreatePrRequest) (t : Session)
    (info : RepoInfo) (b : BranchOptions) (e : Error) (c : Status) (w : World)
    → status_at w k ≡ some creating_pr
    → t.status ≡ c
    → (c ≡ completed) ⊎ (c ≡ pr_created)
    → let (r, w') = after_push o cfg k req t info b (some e) (up w) in
      (r ≡ err (wrapped "creating branch and pushing" e))
      × (status_at w' k ≡ some (if is_status c pr_created then pr_created else creating_pr))
unfolding after_push
after_failed_push o cfg k req t info b e c w at same (inl done) =
    let (x, refused) = stays_creating (validate_transition creating_pr completed) refl in
    rw (same, done, update_status_refused cfg k completed creating_pr w x at refused) (refl, at)
after_failed_push o cfg k req t info b e c w at same (inr opened) =
    let (w', moved, _, status, _, _, _) =
      update_status_moves cfg k pr_created creating_pr w at reopens in
    rw (same, opened, moved) (refl, status)

-- Where Redis and SQLite answer, a failed push of CreatePR gives its error, and the session gets
-- its old status back if that was pr_created; a completed session is left in creating_pr, since
-- the table has no transition from there to completed.
pub create_pr_push_fails :
    (o : Outside) (cfg : Settings) (cipher : Cipher) (k : String) (req : CreatePrRequest)
    (w : World) (x : Entry) (c : Status) (token : String) (info : RepoInfo) (e : Error)
    → w.state k ≡ some x
    → x.hash.status ≡ some c
    → (c ≡ completed) ⊎ (c ≡ pr_created)
    → ReachesPush o k req (loaded cipher (w.result k) x.hash) token info
    → o.create_branch_and_push (branch_options o k req (loaded cipher (w.result k) x.hash) token)
      ≡ some e
    → let (r, w') = create_pr o cfg cipher k req (up w) in
      (r ≡ err (wrapped "creating branch and pushing" e))
      × (status_at w' k ≡ some (if is_status c pr_created then pr_created else creating_pr))
unfolding create_pr
create_pr_push_fails o cfg cipher k req w x c token info e at s waits reaches fails =
    let t = loaded cipher (w.result k) x.hash in
    let status = loaded-status cipher (w.result k) x.hash c s in
    let waits' : (t.status ≡ completed) ⊎ (t.status ≡ pr_created) = rw status waits in
    let (w', creating, pushes) =
      create_pr_loaded_pushes o cfg k req t w token info (rw at (s ∙ ap some (sym status))) waits'
        reaches in
    let after =
      after_failed_push o cfg k req t info (branch_options o k req t token) e c w' creating status
        waits in
    rw (get_session-up cipher k w x at, pushes, fails) after

fails' : validate_transition creating_pr failed ≡ none
unfolding validate_transition
fails' = refl

hash_status :
    (o : Option Entry) {s : Status} → entry_status o ≡ some s → (entry_hash o).status ≡ some s
hash_status none e = absurd (cc)
hash_status (some x) e = e

recorded :
    (cfg : Settings) (k branch : String) (r : PrResult) (w : World)
    → status_at w k ≡ some creating_pr
    → let (reply, w') = record_pr cfg k branch (ok r) (up w) in
      let h = entry_hash (w'.state k) in
      (reply ≡ ok (record { pr_url = r.url; pr_number = r.number; branch = branch }))
      × (h.status ≡ some pr_created)
      × (h.branch ≡ some branch)
      × (h.pr_url ≡ some r.url)
      × (h.pr_number ≡ some r.number)
unfolding record_pr
recorded cfg k branch r w at =
    let f : Hash → Hash =
      λ h. record h { branch = some branch; pr_url = some r.url; pr_number = some r.number } in
    let g = Sqlite.update_pr w.now k branch r.url r.number in
    let w₁ : World = record (hset k f (up w)) { sqlite = written false g w.sqlite } in
    let persisted = persist_to_sqlite-up g (hset k f (up w)) refl in
    let here : entry_hash (w₁.state k) ≡ f (entry_hash (w.state k)) = rw (eq_refl k) refl in
    let creating : status_at w₁ k ≡ some creating_pr =
      rw (eq_refl k) (hash_status (w.state k) at) in
    let (w', moved, hash, _, _, _, _) =
      update_status_moves cfg k pr_created creating_pr w₁ creating reopens in
    rw (persisted, moved)
      (refl, rw hash refl, rw (hash, here) refl, rw (hash, here) refl, rw (hash, here) refl)

failed_pr :
    (cfg : Settings) (k : String) (e : Error) (w : World)
    → status_at w k ≡ some creating_pr
    → (w' : World) × (fail_pr cfg k e (up w) ≡ (ok tt, up w'))
      × ((entry_hash (w'.state k)).status ≡ some failed)
      × ((entry_hash (w'.state k)).error ≡ some ("PR creation failed: " <> error_text e))
unfolding fail_pr set_error
failed_pr cfg k e w at =
    let message = "PR creation failed: " <> error_text e in
    let f : Hash → Hash = λ h. record h { error = some message } in
    let g = Sqlite.update_error w.now k message in
    let w₁ : World = record (hset k f (up w)) { sqlite = written false g w.sqlite } in
    let persisted = persist_to_sqlite-up g (hset k f (up w)) refl in
    let here : entry_hash (w₁.state k) ≡ f (entry_hash (w.state k)) = rw (eq_refl k) refl in
    let creating : status_at w₁ k ≡ some creating_pr =
      rw (eq_refl k) (hash_status (w.state k) at) in
    let (w', moved, hash, _, _, _, _) =
      update_status_moves cfg k failed creating_pr w₁ creating fails' in
    (w', rw (persisted, moved) refl, rw hash refl, rw (hash, here) refl)

refused :
    (cfg : Settings) (k : String) (b : BranchOptions) (e : Error) (w' w₂ : World)
    → fail_pr cfg k e (up w') ≡ (ok tt, up w₂)
    → (entry_hash (w₂.state k)).status ≡ some failed
    → (entry_hash (w₂.state k)).error ≡ some ("PR creation failed: " <> error_text e)
    → let (r, w₃) = record_pr cfg k b.branch_name (err e) (up w') in
      (r ≡ err (wrapped "creating PR" e))
      × ((entry_hash (w₃.state k)).status ≡ some failed)
      × ((entry_hash (w₃.state k)).error ≡ some ("PR creation failed: " <> error_text e))
unfolding record_pr
refused cfg k b e w' w₂ fails hash error = rw fails (refl, hash, error)

-- Where Redis and SQLite answer, a CreatePR whose push works ends as the provider answers: with a
-- pull request, the session is in pr_created and holds the branch, the address and the number that
-- the caller gets; with an error, it is failed and holds the error's text.
pub create_pr_provider :
    (o : Outside) (cfg : Settings) (cipher : Cipher) (k : String) (req : CreatePrRequest)
    (w : World) (x : Entry) (c : Status) (token : String) (info : RepoInfo)
    → w.state k ≡ some x
    → x.hash.status ≡ some c
    → (c ≡ completed) ⊎ (c ≡ pr_created)
    → ReachesPush o k req (loaded cipher (w.result k) x.hash) token info
    → o.create_branch_and_push (branch_options o k req (loaded cipher (w.result k) x.hash) token)
      ≡ none
    → let t = loaded cipher (w.result k) x.hash in
      let b = branch_options o k req t token in
      let (r, w') = create_pr o cfg cipher k req (up w) in
      let h = entry_hash (w'.state k) in
      ((p : PrResult)
        → o.create_provider_pr info token (pr_options o k req t b) ≡ ok p
        → (r ≡ ok (record { pr_url = p.url; pr_number = p.number; branch = b.branch_name }))
          × (h.status ≡ some pr_created)
          × (h.branch ≡ some b.branch_name)
          × (h.pr_url ≡ some p.url)
          × (h.pr_number ≡ some p.number))
      × ((e : Error)
          → o.create_provider_pr info token (pr_options o k req t b) ≡ err e
          → (r ≡ err (wrapped "creating PR" e))
            × (h.status ≡ some failed)
            × (h.error ≡ some ("PR creation failed: " <> error_text e)))
unfolding create_pr after_push
create_pr_provider o cfg cipher k req w x c token info at s waits reaches pushed =
    let t = loaded cipher (w.result k) x.hash in
    let b = branch_options o k req t token in
    let status = loaded-status cipher (w.result k) x.hash c s in
    let waits' : (t.status ≡ completed) ⊎ (t.status ≡ pr_created) = rw status waits in
    let (w', creating, pushes) =
      create_pr_loaded_pushes o cfg k req t w token info (rw at (s ∙ ap some (sym status))) waits'
        reaches in
    (
      λ p answer.
          rw (get_session-up cipher k w x at, pushes, pushed, answer)
            (recorded cfg k b.branch_name p w' creating),
      λ e answer.
          let (w₂, fails, hash, error) = failed_pr cfg k e w' creating in
          rw (get_session-up cipher k w x at, pushes, pushed, answer)
            (refused cfg k b e w' w₂ fails hash error),
    )
