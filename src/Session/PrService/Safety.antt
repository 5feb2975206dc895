-- ===== src/Session/PrService/Safety.antt =====
-- CreatePR, PushToPR and GetPRStatus move the stored statuses along the diagram.
use codeforge.Prelude.{
  ◌==◌, ◌&&◌, if◌then◌else◌, ◌<>◌, refl, String, true, false, Option, none, some,
}
use codeforge.Apperror.{wrapped, error_text, opaque, Error}
use codeforge.Session.Status.{is_status, Status, completed, failed, creating_pr, pr_created}
use codeforge.Session.Model.{ChangesSummary, Session}
use codeforge.Session.World.{
  pure, fail, context_result, Hash, World, Result, ok, err, M, hset, modify, reach, lost, ◌>>◌,
  ◌>>=◌, ignore, require, context, lift, persist_to_sqlite,
}
use codeforge.Session.World.Statuses.{
  IsSafe, Keeps, Keeps-refl, >>=-IsSafe, ignore-IsSafe, require-IsSafe, lift-IsSafe, reach-IsSafe,
  hset-IsSafe, persist_to_sqlite-IsSafe,
}
use codeforge.Session.Service.{Cipher, Settings}
use codeforge.Session.Operations.{update_status, set_error}
use codeforge.Session.Loading.{get_session}
use codeforge.Session.Operations.Safety.{get_session-IsSafe, set_error-IsSafe}
use codeforge.Session.Operations.Reads.{update_status-IsSafe}
use codeforge.Session.Sqlite
use codeforge.Session.PrService.{
  no_pr, restore_changes, ensure_pr_created, is_over, sync_status, push_options, fail_pr, record_pr,
  after_push, publish, create_pr_loaded, create_pr, push_to_pr_loaded, push_to_pr,
  get_pr_status_loaded, get_pr_status, resolved, branch_options, pr_options,
}
use codeforge.Session.PrPlan.{
  Outside, RepoInfo, BranchOptions, PrResult, CreatePrRequest, CreatePrResponse, PushToPrResponse,
  pr_refusal, changes_refusal, work_dir, token_for,
}

context-IsSafe : {A : Type 0} (c : String) (m : M A) → IsSafe m → IsSafe (context c m)
context-IsSafe {A} c m safe w = go (m w).0 (m w).1 (safe w)
  where
    go :
        (r : Result A) (w' : World)
        → Keeps w r w'
        → Keeps w (context_result c (r, w')).0 (context_result c (r, w')).1
    go (ok a) w' h = h
    go (err e) w' h = h

-- An operation before a refusal.
fails-IsSafe : (B : Type 0) (m : M (Unit {0})) (e : Error) → IsSafe m → IsSafe (m >> fail {A = B} e)
fails-IsSafe B m e safe = >>=-IsSafe m (λ _. fail {A = B} e) safe λ _. Keeps-refl

fail_pr-IsSafe : (cfg : Settings) (k : String) (e : Error) → IsSafe (fail_pr cfg k e)
unfolding fail_pr
fail_pr-IsSafe cfg k e =
    let message = "PR creation failed: " <> error_text e in
    >>=-IsSafe (ignore (set_error k message)) (λ _. ignore (update_status cfg k failed))
      (ignore-IsSafe (set_error k message) (set_error-IsSafe k message))
      λ _. ignore-IsSafe (update_status cfg k failed) (update_status-IsSafe cfg k failed)

record_pr-IsSafe :
    (cfg : Settings) (k branch : String) (r : Result PrResult) → IsSafe (record_pr cfg k branch r)
unfolding record_pr persist_to_sqlite
record_pr-IsSafe cfg k branch (err e) =
    fails-IsSafe CreatePrResponse (fail_pr cfg k e) (wrapped "creating PR" e)
      (fail_pr-IsSafe cfg k e)
record_pr-IsSafe cfg k branch (ok r) =
    let f : Hash → Hash =
      λ h. record h { branch = some branch; pr_url = some r.url; pr_number = some r.number } in
    let m : M (Unit {0}) = reach lost >> modify (hset k f) in
    let reply : M CreatePrResponse =
      pure (record { pr_url = r.url; pr_number = r.number; branch = branch }) in
    let move : M (Unit {0}) = ignore (update_status cfg k pr_created) in
    let copy : World → M (Unit {0}) =
      λ w. persist_to_sqlite (Sqlite.update_pr w.now k branch r.url r.number) in
    >>=-IsSafe (ignore m) (λ _ w. (copy w >> (move >> reply)) w)
      (ignore-IsSafe m (
        >>=-IsSafe (reach lost) (λ _. modify (hset k f)) (reach-IsSafe lost)
          λ _. hset-IsSafe k f λ h. refl))
      λ _ w.
        >>=-IsSafe (copy w) (λ _. move >> reply)
          (persist_to_sqlite-IsSafe (Sqlite.update_pr w.now k branch r.url r.number))
          (λ _.
            >>=-IsSafe move (λ _. reply)
              (ignore-IsSafe (update_status cfg k pr_created)
                (update_status-IsSafe cfg k pr_created))
              λ _. Keeps-refl)
          w

after_push-IsSafe :
    (o : Outside) (cfg : Settings) (k : String) (req : CreatePrRequest) (t : Session)
    (info : RepoInfo) (b : BranchOptions) (e : Option Error)
    → IsSafe (after_push o cfg k req t info b e)
unfolding after_push
after_push-IsSafe o cfg k req t info b (some e) =
    fails-IsSafe CreatePrResponse (ignore (update_status cfg k t.status))
      (wrapped "creating branch and pushing" e)
      (ignore-IsSafe (update_status cfg k t.status) (update_status-IsSafe cfg k t.status))
after_push-IsSafe o cfg k req t info b none =
    record_pr-IsSafe cfg k b.branch_name
      (o.create_provider_pr info b.token (pr_options o k req t b))

publish-IsSafe :
    (o : Outside) (cfg : Settings) (k : String) (req : CreatePrRequest) (t : Session)
    (token : String) (r : Result RepoInfo)
    → IsSafe (publish o cfg k req t token r)
unfolding publish
publish-IsSafe o cfg k req t token (err e) =
    fails-IsSafe CreatePrResponse (fail_pr cfg k e) (wrapped "parsing repo URL" e)
      (fail_pr-IsSafe cfg k e)
publish-IsSafe o cfg k req t token (ok info) =
    let e : Error = opaque ("PR creation not supported for host: " <> info.host) in
    let b = branch_options o k req t token in
    elim info.known
      as (λ known. IsSafe (
        if known
        then after_push o cfg k req t info b (o.create_branch_and_push b)
        else (fail_pr cfg k e >> fail e))) [
          | true ↦ after_push-IsSafe o cfg k req t info b (o.create_branch_and_push b)
          | false ↦ fails-IsSafe CreatePrResponse (fail_pr cfg k e) e (fail_pr-IsSafe cfg k e)
        ]

resolved-IsSafe : (c : String) (r : Result String) → IsSafe (resolved c r)
resolved-IsSafe c r = context-IsSafe c (lift r) (lift-IsSafe r)

create_pr_loaded-IsSafe :
    (o : Outside) (cfg : Settings) (k : String) (req : CreatePrRequest) (t : Session)
    → IsSafe (create_pr_loaded o cfg k req t)
unfolding create_pr_loaded
create_pr_loaded-IsSafe o cfg k req t =
    >>=-IsSafe (require (pr_refusal t.status)) _ (require-IsSafe (pr_refusal t.status)) λ _.
      >>=-IsSafe (require (changes_refusal o (work_dir o k) t)) _
        (require-IsSafe (changes_refusal o (work_dir o k) t))
        λ _.
          >>=-IsSafe (resolved "resolving access token for PR" (token_for o t)) _
            (resolved-IsSafe _ (token_for o t))
            λ token.
              >>=-IsSafe (context "transitioning to creating_pr" (update_status cfg k creating_pr))
                _
                (context-IsSafe _ (update_status cfg k creating_pr)
                  (update_status-IsSafe cfg k creating_pr))
                λ _. publish-IsSafe o cfg k req t token (o.parse_repo_url t.repo_url)

pub create_pr-IsSafe :
    (o : Outside) (cfg : Settings) (cipher : Cipher) (k : String) (req : CreatePrRequest)
    → IsSafe (create_pr o cfg cipher k req)
unfolding create_pr
create_pr-IsSafe o cfg cipher k req =
    >>=-IsSafe (get_session cipher k) _ (get_session-IsSafe cipher k)
      λ t. create_pr_loaded-IsSafe o cfg k req t

restore_changes-IsSafe : (k : String) (c : Option ChangesSummary) → IsSafe (restore_changes k c)
restore_changes-IsSafe k none = Keeps-refl
restore_changes-IsSafe k (some c) =
    let f : Hash → Hash = λ h. record h { changes_summary = some c } in
    let m : M (Unit {0}) = reach lost >> modify (hset k f) in
    ignore-IsSafe m (
      >>=-IsSafe (reach lost) (λ _. modify (hset k f)) (reach-IsSafe lost)
        λ _. hset-IsSafe k f λ h. refl)

ensure_pr_created-IsSafe :
    (cfg : Settings) (k : String) (s : Status) → IsSafe (ensure_pr_created cfg k s)
ensure_pr_created-IsSafe cfg k s =
    elim (is_status s pr_created)
      as (λ b. IsSafe (if b then pure tt else ignore (update_status cfg k pr_created))) [
        | true ↦ Keeps-refl
        | false ↦
            ignore-IsSafe (update_status cfg k pr_created) (update_status-IsSafe cfg k pr_created)
      ]

pub push_to_pr-IsSafe :
    (o : Outside) (cfg : Settings) (cipher : Cipher) (k : String)
    → IsSafe (push_to_pr o cfg cipher k)
unfolding push_to_pr push_to_pr_loaded
push_to_pr-IsSafe o cfg cipher k =
    >>=-IsSafe (get_session cipher k) (push_to_pr_loaded o cfg k) (get_session-IsSafe cipher k) λ t.
      let reply : M PushToPrResponse = pure (record { pr_url = t.pr_url; branch = t.branch }) in
      let ensured : M PushToPrResponse = ensure_pr_created cfg k t.status >> reply in
      let stored : M PushToPrResponse =
        restore_changes k (o.calculate_changes (work_dir o k)) >> ensured in
      let pushed : String → M PushToPrResponse =
        λ token. require (o.commit_and_push (push_options o k t token)) >> stored in
      let asked : M PushToPrResponse =
        resolved "resolving access token for push" (token_for o t) >>= pushed in
      >>=-IsSafe (require (pr_refusal t.status)) (λ _. require (no_pr t.branch) >> asked)
        (require-IsSafe (pr_refusal t.status))
        λ _.
          >>=-IsSafe (require (no_pr t.branch)) (λ _. asked) (require-IsSafe (no_pr t.branch))
            λ _.
              >>=-IsSafe (resolved "resolving access token for push" (token_for o t)) pushed
                (resolved-IsSafe _ (token_for o t))
                λ token.
                  >>=-IsSafe (require (o.commit_and_push (push_options o k t token))) (λ _. stored)
                    (require-IsSafe (o.commit_and_push (push_options o k t token)))
                    λ _.
                      >>=-IsSafe (restore_changes k (o.calculate_changes (work_dir o k)))
                        (λ _. ensured)
                        (restore_changes-IsSafe k (o.calculate_changes (work_dir o k)))
                        λ _.
                          >>=-IsSafe (ensure_pr_created cfg k t.status) (λ _. reply)
                            (ensure_pr_created-IsSafe cfg k t.status) λ _. Keeps-refl

sync_status-IsSafe :
    (cfg : Settings) (k : String) (t : Session) (state : String)
    → IsSafe (sync_status cfg k t state)
sync_status-IsSafe cfg k t state =
    elim (is_over state && is_status t.status pr_created)
      as (λ b. IsSafe (if b then ignore (update_status cfg k completed) else pure tt)) [
        | true ↦
            ignore-IsSafe (update_status cfg k completed) (update_status-IsSafe cfg k completed)
        | false ↦ Keeps-refl
      ]

pub get_pr_status-IsSafe :
    (o : Outside) (cfg : Settings) (cipher : Cipher) (k : String)
    → IsSafe (get_pr_status o cfg cipher k)
unfolding get_pr_status get_pr_status_loaded
get_pr_status-IsSafe o cfg cipher k =
    >>=-IsSafe (get_session cipher k) (get_pr_status_loaded o cfg k) (get_session-IsSafe cipher k)
      λ t.
        let synced : String → M String = λ state. sync_status cfg k t state >> pure state in
        let asked : RepoInfo → String → M String =
          λ info token. lift (o.provider_state info token t.pr_number) >>= synced in
        let located : RepoInfo → M String =
          λ info. resolved "resolving token" (token_for o t) >>= asked info in
        let parsed : M RepoInfo = context "parsing repo URL" (lift (o.parse_repo_url t.repo_url)) in
        let refusal : Option Error =
          if t.pr_number == 0 then some (opaque "session has no PR") else none in
        >>=-IsSafe (require refusal) (λ _. parsed >>= located) (require-IsSafe refusal)
          λ _.
            >>=-IsSafe parsed located
              (context-IsSafe _ (lift (o.parse_repo_url t.repo_url))
                (lift-IsSafe (o.parse_repo_url t.repo_url)))
              λ info.
                >>=-IsSafe (resolved "resolving token" (token_for o t)) (asked info)
                  (resolved-IsSafe _ (token_for o t))
                  λ token.
                    >>=-IsSafe (lift (o.provider_state info token t.pr_number)) synced
                      (lift-IsSafe (o.provider_state info token t.pr_number))
                      λ state.
                        >>=-IsSafe (sync_status cfg k t state) (λ _. pure state)
                          (sync_status-IsSafe cfg k t state) λ _. Keeps-refl
