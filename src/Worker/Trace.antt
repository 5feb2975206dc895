-- ===== src/Worker/Trace.antt =====
-- The whole system as a sequence of events: requests to the service, rounds of the workers, restarts
-- of the server with their recovery, and sweeps of stuck sessions.
use codeforge.Session.Sqlite
use codeforge.Apperror.{wrapped}
use codeforge.Prelude.{
  ℕ, ◌-◌, ◌≡◌, sym, ap, ◌∙◌, subst, String, Bool, true, Option, none, some, List, [], ◌∷◌,
}
use codeforge.Session.Status.{Status, failed, is_finished}
use codeforge.Session.Status.Graph.{finished_absorbs}
use codeforge.Session.World.{
  World, Row, M, Result, ok, err, ◌>>=◌, pure, attempt, reach, lost, status_at,
}
use codeforge.Session.World.Statuses.{
  then-IsSafe, IsSafe, Moved, Moved-refl, Moved-trans, Keeps-refl, >>=-IsSafe, ignore-IsSafe,
  attempt-IsSafe, reach-IsSafe,
}
use codeforge.Session.Service.{Cipher, Settings}
use codeforge.Session.Operations.{update_status, set_error, list_stuck, stuck_rows}
use codeforge.Session.Operations.Safety.{set_error-IsSafe}
use codeforge.Session.Operations.Reads.{update_status-IsSafe}
use codeforge.Session.Trace.{Op, Spares, perform, perform-Moved, final}
use codeforge.Worker.Pool.{recover_processing, work}
use codeforge.Worker.Sweeper.{after_failing, sweep_one, sweep_all, sweep, stuck_message}
use codeforge.Worker.Executor.{Env}
use codeforge.Worker.Executor.Run.{execute}
use codeforge.Worker.Executor.Run.Safety.{execute-IsSafe}
use codeforge.Worker.Pool.Safety.{recover_processing-IsSafe, work-IsSafe}

sweep_one-IsSafe : (cfg : Settings) (k : String) → IsSafe (sweep_one cfg k)
unfolding sweep_one
sweep_one-IsSafe cfg k =
    >>=-IsSafe (attempt (update_status cfg k failed)) (after_failing k)
      (attempt-IsSafe (update_status cfg k failed) (update_status-IsSafe cfg k failed)) after
  where
    after : (r : Result (Unit {0})) → IsSafe (after_failing k r)
    after (err _) = Keeps-refl
    after (ok _) = ignore-IsSafe (set_error k stuck_message) (set_error-IsSafe k stuck_message)

sweep_all-IsSafe : (cfg : Settings) (ks : List String) → IsSafe (sweep_all cfg ks)
unfolding sweep_all
sweep_all-IsSafe cfg [] = Keeps-refl
sweep_all-IsSafe cfg (k ∷ ks) =
    then-IsSafe (sweep_one cfg k) (sweep_all cfg ks) (sweep_one-IsSafe cfg k)
      (sweep_all-IsSafe cfg ks)

list_stuck-IsSafe : (before : ℕ) → IsSafe (list_stuck before)
unfolding list_stuck
list_stuck-IsSafe before w = rows w.sqlite w
  where
    rows : (o : Option (List Row)) → IsSafe (stuck_rows before o)
    rows none = Keeps-refl
    rows (some rs) =
        >>=-IsSafe (reach (wrapped "listing stuck sessions" lost))
          (λ _. pure (Sqlite.list_stuck before rs))
          (reach-IsSafe (wrapped "listing stuck sessions" lost)) λ _. Keeps-refl

sweep-IsSafe : (cfg : Settings) (max_age : ℕ) → IsSafe (sweep cfg max_age)
unfolding sweep
sweep-IsSafe cfg max_age =
    let body : M (Unit {0}) = λ w. (list_stuck (w.now - max_age) >>= sweep_all cfg) w in
    ignore-IsSafe body λ w.
      >>=-IsSafe (list_stuck (w.now - max_age)) (sweep_all cfg)
        (list_stuck-IsSafe (w.now - max_age)) (sweep_all-IsSafe cfg) w

-- A round of a worker has its own environment, and may be cut short by a shutdown.
pub data Event : Type 0 where
  request : Op → Event
  round : Env → Bool → Event
  restart : Event
  sweeping : ℕ → Event

unfoldable pub happen : Settings → Cipher → Event → World → World
happen cfg cipher (request op) w = perform cfg cipher op w
happen cfg cipher (round env shutdown) w = final (work cipher (execute env cfg cipher) shutdown w)
happen cfg cipher restart w = final (recover_processing cfg cipher w)
happen cfg cipher (sweeping max_age) w = final (sweep cfg max_age w)

unfoldable pub history : Settings → Cipher → List Event → World → World
history cfg cipher [] w = w
history cfg cipher (e ∷ es) w = history cfg cipher es (happen cfg cipher e w)

-- No request draws the id `j` for a new session, and its hash does not expire.
abbrev pub Undisturbed : String → List Event → Type 0
Undisturbed j [] = Unit
Undisturbed j (request op ∷ es) = Spares j op × Undisturbed j es
Undisturbed j (_ ∷ es) = Undisturbed j es

-- Whatever requests, rounds of workers, restarts and sweeps follow each other, and whatever git, the
-- agents and the providers answer and whichever calls fail, the stored status of a session moves
-- along the edges of the diagram, as long as its hash does not expire and no new session draws its
-- id.
pub history-Moved :
    (cfg : Settings) (cipher : Cipher) (es : List Event) (j : String) (w : World)
    → Undisturbed j es
    → Moved (status_at w j) (status_at (history cfg cipher es w) j)
unfolding history happen
history-Moved cfg cipher [] j w _ = Moved-refl (status_at w j)
history-Moved cfg cipher (request op ∷ es) j w (s, u) =
    Moved-trans (status_at w j) (status_at (perform cfg cipher op w) j) _
      (perform-Moved cfg cipher op j s w)
      (history-Moved cfg cipher es j (perform cfg cipher op w) u)
history-Moved cfg cipher (round env shutdown ∷ es) j w u =
    let w' = final (work cipher (execute env cfg cipher) shutdown w) in
    Moved-trans (status_at w j) (status_at w' j) _
      (work-IsSafe cipher (execute env cfg cipher) shutdown (execute-IsSafe env cfg cipher) w j)
      (history-Moved cfg cipher es j w' u)
history-Moved cfg cipher (restart ∷ es) j w u =
    let w' = final (recover_processing cfg cipher w) in
    Moved-trans (status_at w j) (status_at w' j) _ (recover_processing-IsSafe cfg cipher w j)
      (history-Moved cfg cipher es j w' u)
history-Moved cfg cipher (sweeping max_age ∷ es) j w u =
    let w' = final (sweep cfg max_age w) in
    Moved-trans (status_at w j) (status_at w' j) _ (sweep-IsSafe cfg max_age w j)
      (history-Moved cfg cipher es j w' u)

-- So a failed or canceled session keeps its status through the whole history: no worker, restart or
-- sweep revives it.
pub finished_forever :
    (cfg : Settings) (cipher : Cipher) (es : List Event) (j : String) (w : World) (s : Status)
    → status_at w j ≡ some s
    → is_finished s ≡ true
    → Undisturbed j es
    → status_at (history cfg cipher es w) j ≡ some s
finished_forever cfg cipher es j w s e f u =
    let (t, e', path) =
      subst (λ o. Moved o (status_at (history cfg cipher es w) j)) e
        (history-Moved cfg cipher es j w u) in
    e' ∙ ap some (sym (finished_absorbs f path))
