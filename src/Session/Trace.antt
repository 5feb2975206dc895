-- ===== src/Session/Trace.antt =====
-- The service's operations as requests and workers call them, and the events of the environment
-- between them: the clock, the outages to come, and the expiry of a key.
use codeforge.Session.PrService.Safety.{create_pr-IsSafe, push_to_pr-IsSafe, get_pr_status-IsSafe}
use codeforge.Session.PrService.{create_pr, push_to_pr, get_pr_status}
use codeforge.Session.PrPlan.{Outside, CreatePrRequest}
use codeforge.Prelude.{
  ℕ, ◌+◌, ◌≡◌, ◌≢◌, String, Bool, false, Option, none, List, ◌=s◌, eq_iff, Bool-cases, inl, inr,
  update,
}
use codeforge.Session.Status.{Status}
use codeforge.Session.Model.{Session, Config, ChangesSummary, UsageInfo, ReviewResult, Iteration}
use codeforge.Session.World.{lift, ◌>>=◌, Entry, entry_status, World, M, Result, ok, err, status_at}
use codeforge.Session.World.Rules.{reach_rule}
use codeforge.Session.World.Statuses.{Moved, Moved-refl}
use codeforge.Session.Service.{
  task_type, effective_prompt, new_session, Cipher, Settings, CreateSessionRequest, Draws,
}
use codeforge.Session.Operations.{
  update_status, set_result, instruct, start_review_async, set_review_result, complete_review,
  update_config, set_error, save_iteration,
}
use codeforge.Session.Loading.{get_session}
use codeforge.Session.Creating.{store_new, seal, encrypted, api_key, create}
use codeforge.Session.Operations.Safety.{
  get_session-IsSafe, instruct-IsSafe, start_review_async-IsSafe, set_result-IsSafe,
  set_review_result-IsSafe, complete_review-IsSafe, update_config-IsSafe, set_error-IsSafe,
  save_iteration-IsSafe,
}
use codeforge.Session.Operations.Reads.{update_status-IsSafe}

pub data Op : Type 0 where
  creates : CreateSessionRequest → Draws → Op
  reads : String → Op
  moves : String → Status → Op
  results : String → String → Option ChangesSummary → Option UsageInfo → Op
  instructs : String → String → Op
  reviews : Bool → String → String → String → Op
  reviewed : String → Option ReviewResult → Op
  completes_review : String → Option ReviewResult → Op
  configures : String → Option Config → Op
  reports : String → String → Op
  records : String → Iteration → Op
  publishes : Outside → String → CreatePrRequest → Op
  pushes : Outside → String → Op
  polls : Outside → String → Op
  ticks : ℕ → Op
  outages : List Bool → Op
  expires : String → Op

abbrev pub final : {A : Type 0} → Result A × World → World
final (_, w) = w

unfoldable pub perform : Settings → Cipher → Op → World → World
perform cfg cipher (creates req draws) w = final (create cipher req draws w)
perform cfg cipher (reads k) w = final (get_session cipher k w)
perform cfg cipher (moves k s) w = final (update_status cfg k s w)
perform cfg cipher (results k r c u) w = final (set_result k r c u w)
perform cfg cipher (instructs k p) w = final (instruct cipher k p w)
perform cfg cipher (reviews raced k cli model) w =
    final (start_review_async cipher raced k cli model w)
perform cfg cipher (reviewed k r) w = final (set_review_result k r w)
perform cfg cipher (completes_review k r) w = final (complete_review cfg k r w)
perform cfg cipher (configures k c) w = final (update_config k c w)
perform cfg cipher (reports k e) w = final (set_error k e w)
perform cfg cipher (records k it) w = final (save_iteration k it w)
perform cfg cipher (publishes o k req) w = final (create_pr o cfg cipher k req w)
perform cfg cipher (pushes o k) w = final (push_to_pr o cfg cipher k w)
perform cfg cipher (polls o k) w = final (get_pr_status o cfg cipher k w)
perform cfg cipher (ticks n) w = record w { now = w.now + n }
perform cfg cipher (outages fs) w = record w { faults = fs }
perform cfg cipher (expires k) w = record w { state = update w.state k none }

-- The operation neither draws the id `j` for a new session nor is the expiry of its hash.
abbrev pub Spares : String → Op → Type 0
Spares j (creates req draws) = draws.id ≢ j
Spares j (expires k) = k ≢ j
Spares j _ = Unit

apart : (k j : String) → k ≢ j → (k =s j) ≡ false
apart k j ne = elim (Bool-cases (k =s j)) [
  | inl same ↦ absurd (ne ((eq_iff k j).0 same))
  | inr other ↦ other
]

Moved-apart :
    (k j : String) (x : Option Entry) (w : World)
    → k ≢ j
    → Moved (status_at w j) (entry_status (update w.state k x j))
Moved-apart k j x w ne = rw (apart k j ne) (Moved-refl (status_at w j))

-- What `m` does to the status of `j`.
abbrev MovesAt : {A : Type 0} → String → M A → Type 0
MovesAt j m = (w : World) → Moved (status_at w j) (status_at (final (m w)) j)

lift-MovesAt :
    {A B : Type 0} (j : String) (r : Result A) (f : A → M B)
    → ((a : A) → MovesAt j (f a))
    → MovesAt j (lift r >>= f)
lift-MovesAt j (ok a) f h w = h a w
lift-MovesAt j (err e) f h w = Moved-refl (status_at w j)

store_new_spares :
    (t : Session) (token key : Option String) (j : String)
    → t.id ≢ j
    → MovesAt j (store_new t token key)
unfolding store_new
store_new_spares t token key j ne w =
    reach_rule _ _ w (λ _ w'. Moved (status_at w j) (status_at w' j))
      (λ fs. Moved-refl (status_at w j)) λ fs. Moved-apart t.id j _ w ne

seal_spares :
    (cipher : Cipher) (draws : Draws) (t : Session) (j : String)
    → t.id ≢ j
    → MovesAt j (seal cipher draws t)
unfolding seal
seal_spares cipher draws t j ne =
    lift-MovesAt j (encrypted cipher "encrypting access token" draws.token_nonce t.access_token)
      (λ token.
        lift (encrypted cipher "encrypting ai api key" draws.key_nonce (api_key t.config))
        >>= λ key. store_new t token key)
      λ token.
        lift-MovesAt j (encrypted cipher "encrypting ai api key" draws.key_nonce (api_key t.config))
          (λ key. store_new t token key) λ key. store_new_spares t token key j ne

create_spares :
    (cipher : Cipher) (req : CreateSessionRequest) (draws : Draws) (j : String)
    → draws.id ≢ j
    → MovesAt j (create cipher req draws)
unfolding create
create_spares cipher req draws j ne =
    lift-MovesAt j (effective_prompt (task_type req.session_type) req.prompt)
      (λ prompt w. seal cipher draws (new_session req prompt draws.id w.now) w)
      λ prompt w. seal_spares cipher draws (new_session req prompt draws.id w.now) j ne w

-- An operation, whichever calls fail, moves the stored status of a session along the diagram.
pub perform-Moved :
    (cfg : Settings) (cipher : Cipher) (op : Op) (j : String)
    → Spares j op
    → (w : World) → Moved (status_at w j) (status_at (perform cfg cipher op w) j)
unfolding perform
perform-Moved cfg cipher (creates req draws) j s w = create_spares cipher req draws j s w
perform-Moved cfg cipher (reads k) j s w = get_session-IsSafe cipher k w j
perform-Moved cfg cipher (moves k t) j s w = update_status-IsSafe cfg k t w j
perform-Moved cfg cipher (results k r c u) j s w = set_result-IsSafe k r c u w j
perform-Moved cfg cipher (instructs k p) j s w = instruct-IsSafe cipher k p w j
perform-Moved cfg cipher (reviews raced k cli model) j s w =
    start_review_async-IsSafe cipher raced k cli model w j
perform-Moved cfg cipher (reviewed k r) j s w = set_review_result-IsSafe k r w j
perform-Moved cfg cipher (completes_review k r) j s w = complete_review-IsSafe cfg k r w j
perform-Moved cfg cipher (configures k c) j s w = update_config-IsSafe k c w j
perform-Moved cfg cipher (reports k e) j s w = set_error-IsSafe k e w j
perform-Moved cfg cipher (records k it) j s w = save_iteration-IsSafe k it w j
perform-Moved cfg cipher (publishes o k req) j s w = create_pr-IsSafe o cfg cipher k req w j
perform-Moved cfg cipher (pushes o k) j s w = push_to_pr-IsSafe o cfg cipher k w j
perform-Moved cfg cipher (polls o k) j s w = get_pr_status-IsSafe o cfg cipher k w j
perform-Moved cfg cipher (ticks n) j s w = Moved-refl (status_at w j)
perform-Moved cfg cipher (outages fs) j s w = Moved-refl (status_at w j)
perform-Moved cfg cipher (expires k) j s w = rw (apart k j s) (Moved-refl (status_at w j))
