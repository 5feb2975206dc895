-- ===== src/Worker/Executor/Endings.antt =====
-- The ends of a session whose step failed, where Redis and SQLite answer.
use codeforge.Prelude.{
  leb, ◌<>◌, ℕ, ◌≡◌, refl, ◌⊎◌, inl, String, true, false, Option, none, some, [], ◌∷◌, ◌++◌, arith,
  eq_refl, update,
}
use codeforge.Session.Sqlite
use codeforge.Apperror.{Error, error_text}
use codeforge.Session.Status.{
  Status, pending, cloning, running, failed, canceled, awaiting_instruction, validate_transition,
}
use codeforge.Session.Model.{Session}
use codeforge.Session.World.{
  World, Entry, Hash, Result, ok, up, hset, status_at, entry_hash, entry_status, written,
}
use codeforge.Session.Service.{Settings}
use codeforge.Session.Operations.{set_error, save_iteration}
use codeforge.Session.Operations.Moves.{
  update_status_moves, update_status_refused, persist_to_sqlite-up,
}
use codeforge.Worker.Executor.{
  referenced, Env, Ended, going, canceled_by_user, shut_down, fail_session, cancel_session,
  requeue_for_restart, terminate_on_error, iteration_of, clone_step, setup_workspace,
}

-- The status that a failed step leads to.
abbrev pub ending : Ended → Status
ending going = failed
ending canceled_by_user = canceled
ending shut_down = pending

ending_valid :
    (c : Status) (e : Ended)
    → (c ≡ cloning) ⊎ (c ≡ running)
    → validate_transition c (ending e) ≡ none
unfolding validate_transition
ending_valid c e h = ground arith

-- What an ending leaves: the status and the record of the iteration.
abbrev Ends : Session → Status → World → Result (Unit {0}) × World → Type 0
Ends t s w p =
    (w' : World) × (p ≡ (ok tt, up w'))
    × (status_at w' t.id ≡ some s)
    × (w'.queue ≡ w.queue)
    × (w'.processing ≡ w.processing)

hash_status :
    (o : Option Entry) {s : Status} → entry_status o ≡ some s → (entry_hash o).status ≡ some s
hash_status none e = absurd (cc)
hash_status (some x) e = e

pub fail_session-Ends :
    (cfg : Settings) (t : Session) (started : ℕ) (message : String) (c : Status) (w : World)
    → status_at w t.id ≡ some c
    → validate_transition c failed ≡ none
    → Ends t failed w (fail_session cfg t started message (up w))
unfolding fail_session set_error save_iteration
fail_session-Ends cfg t started message c w e valid =
    let f : Hash → Hash = λ h. record h { error = some message } in
    let g = Sqlite.update_error w.now t.id message in
    let w₁ : World = record (hset t.id f (up w)) { sqlite = written false g w.sqlite } in
    let persisted = persist_to_sqlite-up g (hset t.id f (up w)) refl in
    let here : status_at w₁ t.id ≡ some c = rw (eq_refl t.id) (hash_status (w.state t.id) e) in
    let (w', moved, _, status, queue, processing, _) =
      update_status_moves cfg t.id failed c w₁ here valid in
    (
      record w' {
        iterations =
            update w'.iterations t.id (
              w'.iterations t.id ++ iteration_of t "" message failed none none started w'.now ∷ []);
      },
      rw (persisted, moved) refl,
      status,
      queue,
      processing,
    )

cancel_session-Ends :
    (cfg : Settings) (t : Session) (started : ℕ) (c : Status) (w : World)
    → status_at w t.id ≡ some c
    → validate_transition c canceled ≡ none
    → Ends t canceled w (cancel_session cfg t started (up w))
unfolding cancel_session save_iteration
cancel_session-Ends cfg t started c w e valid =
    let (w', moved, _, status, queue, processing, _) =
      update_status_moves cfg t.id canceled c w e valid in
    (
      record w' {
        iterations = update w'.iterations t.id (
            w'.iterations t.id
            ++ iteration_of t "" "canceled by user" canceled none none started w'.now ∷ []);
      },
      rw moved refl,
      status,
      queue,
      processing,
    )

-- Where Redis and SQLite answer, terminateOnError, which the executor calls for the failed steps that
-- heed the cause, ends a session that is stored as cloning or running as its context tells: canceled
-- after a cancellation by the user, pending after a shutdown, and failed otherwise. The queue and the
-- processing list stay as they are.
pub terminate_on_error-Ends :
    (cfg : Settings) (t : Session) (started : ℕ) (message : String) (e : Ended) (c : Status)
    (w : World)
    → status_at w t.id ≡ some c
    → (c ≡ cloning) ⊎ (c ≡ running)
    → Ends t (ending e) w (terminate_on_error cfg t started message e (up w))
unfolding terminate_on_error requeue_for_restart
terminate_on_error-Ends cfg t started message going c w at h =
    fail_session-Ends cfg t started message c w at (ending_valid c going h)
terminate_on_error-Ends cfg t started message canceled_by_user c w at h =
    cancel_session-Ends cfg t started c w at (ending_valid c canceled_by_user h)
terminate_on_error-Ends cfg t started message shut_down c w at h =
    let (w', moved, _, status, queue, processing, _) =
      update_status_moves cfg t.id pending c w at (ending_valid c shut_down h) in
    (w', rw moved refl, status, queue, processing)

not_cloned :
    (e : Option Error)
    → validate_transition awaiting_instruction cloning ≡ e
    → (x : Error) × (e ≡ some x)
unfolding validate_transition
not_cloned none h = absurd (cc)
not_cloned (some x) h = (x, refl)

failing : validate_transition awaiting_instruction failed ≡ none
unfolding validate_transition
failing = refl

-- Where Redis and SQLite answer, setupWorkspace of a later iteration of a session that is stored as
-- awaiting_instruction, whose workspace is gone, that reuses no other, and whose context has not
-- ended, fails the session, also where a new clone would work: the table has no transition from
-- awaiting_instruction to cloning.
pub setup_workspace_gone :
    (env : Env) (cfg : Settings) (t : Session) (started : ℕ) (w : World)
    → status_at w t.id ≡ some awaiting_instruction
    → referenced env t.config ≡ none
    → leb t.iteration 1 ≡ false
    → env.dir_exists (env.work_dir t.id) ≡ false
    → env.ended ≡ going
    → let (r, w') = setup_workspace env cfg t started (up w) in
      (r ≡ ok none) × (status_at w' t.id ≡ some failed)
unfolding setup_workspace clone_step terminate_on_error
setup_workspace_gone env cfg t started w at alone later gone alive =
    let (x, refused) = not_cloned (validate_transition awaiting_instruction cloning) refl in
    let message = "re-clone failed: " <> error_text x in
    let (w', ended, status, _, _) =
      fail_session-Ends cfg t started message awaiting_instruction w at failing in
    rw
      (
        alone,
        later,
        gone,
        update_status_refused cfg t.id cloning awaiting_instruction w x at refused,
        alive,
        ended,
      )
      (refl, status)

cloned_valid : validate_transition pending cloning ≡ none
unfolding validate_transition
cloned_valid = refl

-- Where Redis and SQLite answer, the first iteration of a pending session that reuses no workspace
-- gets its own and is in cloning, if the clone works; if not, it ends as its context tells.
pub setup_workspace_first :
    (env : Env) (cfg : Settings) (t : Session) (started : ℕ) (w : World)
    → status_at w t.id ≡ some pending
    → referenced env t.config ≡ none
    → leb t.iteration 1 ≡ true
    → let (r, w') = setup_workspace env cfg t started (up w) in
      (env.prepare_clone t ≡ none
        → (r ≡ ok (some (env.work_dir t.id))) × (status_at w' t.id ≡ some cloning))
      × ((e : Error)
          → env.prepare_clone t ≡ some e
          → (r ≡ ok none) × (status_at w' t.id ≡ some (ending env.ended)))
unfolding setup_workspace clone_step
setup_workspace_first env cfg t started w at alone first =
    let (w₁, moved, _, status, _, _, _) =
      update_status_moves cfg t.id cloning pending w at cloned_valid in
    rw (alone, first, moved)
      (
        λ prepared. rw prepared (refl, status),
        λ e failed'.
            let message = "clone failed: " <> error_text e in
            let (w', ended, status', _, _) =
              terminate_on_error-Ends cfg t started message env.ended cloning w₁ status
                (inl refl) in
            rw (failed', ended) (refl, status'),
      )
