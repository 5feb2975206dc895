-- ===== src/Session/Operations/Safety.antt =====
-- Every operation of the service moves the stored statuses along the diagram, and the status of
-- no other session.
use codeforge.Prelude.{
  subst, ◌≡◌, refl, sym, ◌∙◌, ◌+◌, String, Bool, true, false, Option, none, some, List, arith,
}
use codeforge.Session.Status.{Status, completed, awaiting_instruction, reviewing, pr_created}
use codeforge.Session.Status.Graph.{
  review_pr, review_instructed, review as review_edge, ◌⟶*◌, here, step,
}
use codeforge.Session.Model.{
  marshal_config, Session, Config, ChangesSummary, UsageInfo, ReviewResult, Iteration,
}
use codeforge.Session.World.{
  Hash, entry_hash, World, Result, ok, err, ◌>>◌, hset, status_at, persist, enqueue, modify,
  persist_to_sqlite,
}
use codeforge.Session.World.Rules.{Ensures, with_faults, reach_rule, require_rule, bind_rule}
use codeforge.Session.World.Statuses.{
  Moved, Moved-known, Keeps, IsSafe, Keeps-refl, >>=-IsSafe, status_at-set_ttl, Moved-hset,
  Moved-hset_same,
}
use codeforge.Session.Service.{Cipher, Settings}
use codeforge.Session.Operations.{
  instruct_loaded, enqueue_review, result_fields, review_refusal, review_fields, tx_conflict,
  start_review_async, set_result, set_review_result, complete_review, update_config, set_error,
  save_iteration, instruct, instruct_fields, instruct_refusal, transition_refusal,
}
use codeforge.Session.Loading.{read_status, get_session}
use codeforge.Session.Operations.Reads.{
  Loaded, Read, get_session-Loaded, instruct_path, read_status-Read, some-eq, update_status-IsSafe,
}

-- A write of the status, with the time to live removed, by a path that the old status allows.
Moved-persist :
    (k : String) (f : Hash → Hash) (t : Status) (w : World)
    → (f (entry_hash (w.state k))).status ≡ some t
    → ((c : Status) → status_at w k ≡ some c → c ⟶* t)
    → (j : String) → Moved (status_at w j) (status_at (persist k (hset k f w)) j)
Moved-persist k f t w e path j =
    rw (status_at-set_ttl k none (hset k f w) j)
      (Moved-hset k f w (rw e (Moved-known (status_at w k) t path)) j)

Loaded-Keeps :
    (k : String) (w : World) (r : Result Session) (w' : World) → Loaded k w r w' → Keeps w r w'
Loaded-Keeps k w (ok t) w' (fs, same, _) = rw same (Keeps-refl w)
Loaded-Keeps k w (err e) w' (fs, same) = rw same (Keeps-refl w)

pub get_session-IsSafe : (cipher : Cipher) (k : String) → IsSafe (get_session cipher k)
get_session-IsSafe cipher k w = Loaded-Keeps k w _ _ (get_session-Loaded cipher k w)

pub instruct-IsSafe : (cipher : Cipher) (k prompt : String) → IsSafe (instruct cipher k prompt)
unfolding instruct instruct_loaded
instruct-IsSafe cipher k prompt w =
    bind_rule (get_session cipher k) _ w (Loaded k w) (Keeps w) (get_session-Loaded cipher k w)
      (λ e w' (fs, same). rw same (Keeps-refl w))
      λ t w' (fs, same, known). rw same (
        require_rule (instruct_refusal t.status) _ (with_faults fs w) (Keeps w)
          (λ e h. Keeps-refl w)
          λ allowed.
            require_rule (transition_refusal t.status) _ (with_faults fs w) (Keeps w)
              (λ e h. Keeps-refl w)
              λ _.
                reach_rule _ _ (with_faults fs w) (Keeps w) (λ fs'. Keeps-refl w)
                  λ fs'.
                    Moved-persist k (instruct_fields prompt (t.iteration + 1) w.now)
                      awaiting_instruction (with_faults fs' w) refl
                      λ c h. instruct_path c (rw (known c h) at allowed))

review_path : (c : Status) → review_refusal c ≡ none → c ⟶* reviewing
review_path completed h = step review_edge here
review_path pr_created h = step review_pr here
review_path awaiting_instruction h = step review_instructed here
review_path _ h = absurd (cc)

enqueue_review-IsSafe :
    (raced : Bool) (k cli model : String) → IsSafe (enqueue_review raced k cli model)
unfolding enqueue_review
enqueue_review-IsSafe raced k cli model w =
    reach_rule _ _ w (Keeps w) (λ fs₀. Keeps-refl w)
      λ fs₀.
        bind_rule (read_status _ k) _ (with_faults fs₀ w) (Read k w) (Keeps w)
          (read_status-Read _ k (with_faults fs₀ w)) (λ e w' (fs, same). rw same (Keeps-refl w))
          λ c w' (fs, same, found). rw same (
            require_rule (review_refusal c) _ (with_faults fs w) (Keeps w) (λ e h. Keeps-refl w)
              λ allowed.
                reach_rule _ _ (with_faults fs w) (Keeps w) (λ fs'. Keeps-refl w)
                  λ fs'. unraced fs' c found allowed raced)
  where
    F : Hash → Hash
    F = review_fields cli model w.now

    unraced :
        (fs : List Bool) (c : Status)
        → status_at w k ≡ some c
        → review_refusal c ≡ none
        → (b : Bool)
        → Ensures
            (tx_conflict b
              >> modify λ w. enqueue k (persist k (hset k (review_fields cli model w.now) w)))
            (with_faults fs w)
            (Keeps w)
    unraced fs c found allowed true = Keeps-refl w
    unraced fs c found allowed false =
        Moved-persist k F reviewing (with_faults fs w) refl
          λ d h. subst (λ x. x ⟶* reviewing) (some-eq (sym found ∙ h)) (review_path c allowed)

pub start_review_async-IsSafe :
    (cipher : Cipher) (raced : Bool) (k cli model : String)
    → IsSafe (start_review_async cipher raced k cli model)
unfolding start_review_async persist_to_sqlite
start_review_async-IsSafe cipher raced k cli model =
    >>=-IsSafe (enqueue_review raced k cli model) _ (enqueue_review-IsSafe raced k cli model)
      λ _. >>=-IsSafe (get_session cipher k) _ (get_session-IsSafe cipher k) λ t. Keeps-refl

status-result_fields :
    (c : Option ChangesSummary) (u : Option UsageInfo) (h : Hash)
    → (result_fields c u h).status ≡ h.status
status-result_fields c u h = ground arith

-- The writes of other fields.
pub set_result-IsSafe :
    (k r : String) (c : Option ChangesSummary) (u : Option UsageInfo) → IsSafe (set_result k r c u)
unfolding set_result
set_result-IsSafe k r none none w =
    reach_rule _ _ w (Keeps w) (λ fs. Keeps-refl w) λ fs. Keeps-refl w
set_result-IsSafe k r none (some u) w =
    reach_rule _ _ w (Keeps w) (λ fs. Keeps-refl w)
      λ fs. Moved-hset_same k (result_fields none (some u)) w λ h. refl
set_result-IsSafe k r (some c) u w =
    reach_rule _ _ w (Keeps w) (λ fs. Keeps-refl w)
      λ fs. Moved-hset_same k (result_fields (some c) u) w (status-result_fields (some c) u)

pub set_review_result-IsSafe :
    (k : String) (r : Option ReviewResult) → IsSafe (set_review_result k r)
unfolding set_review_result
set_review_result-IsSafe k r w =
    reach_rule _ _ w (Keeps w) (λ fs. Keeps-refl w)
      λ fs. Moved-hset_same k (λ h. record h { review_result = r }) w λ h. refl

pub complete_review-IsSafe :
    (cfg : Settings) (k : String) (r : Option ReviewResult) → IsSafe (complete_review cfg k r)
unfolding complete_review
complete_review-IsSafe cfg k r =
    >>=-IsSafe (set_review_result k r) _ (set_review_result-IsSafe k r)
      λ _. update_status-IsSafe cfg k completed

pub update_config-IsSafe : (k : String) (c : Option Config) → IsSafe (update_config k c)
unfolding update_config
update_config-IsSafe k none w = Keeps-refl w
update_config-IsSafe k (some c) w =
    reach_rule _ _ w (Keeps w) (λ fs. Keeps-refl w)
      λ fs. Moved-hset_same k (λ h. record h { config = some (marshal_config c) }) w λ h. refl

pub set_error-IsSafe : (k message : String) → IsSafe (set_error k message)
unfolding set_error persist_to_sqlite
set_error-IsSafe k message w =
    reach_rule _ _ w (Keeps w) (λ fs. Keeps-refl w)
      λ fs. Moved-hset_same k (λ h. record h { error = some message }) w λ h. refl

pub save_iteration-IsSafe : (k : String) (it : Iteration) → IsSafe (save_iteration k it)
unfolding save_iteration
save_iteration-IsSafe k it w = reach_rule _ _ w (Keeps w) (λ fs. Keeps-refl w) λ fs. Keeps-refl w
