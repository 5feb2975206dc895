-- ===== src/Worker/Pool/Safety.antt =====
-- The pool moves the stored statuses along the diagram, whichever calls fail, if its executor does.
use codeforge.Prelude.{◌≡◌, refl, String, Bool, true, false, List, [], ◌∷◌, erase}
use codeforge.Session.Status.{
  Status, pending, cloning, running, completed, failed, awaiting_instruction, reviewing,
  creating_pr, pr_created, canceled, other,
}
use codeforge.Session.Model.{Session}
use codeforge.Session.World.{
  World, M, Result, ok, err, ◌>>=◌, ◌>>◌, attempt, reach, lost, modify, status_at,
}
use codeforge.Session.World.Statuses.{
  then-IsSafe, choice-IsSafe, IsSafe, Moved-refl, Keeps-refl, >>=-IsSafe, ignore-IsSafe,
  attempt-IsSafe, reach-IsSafe,
}
use codeforge.Session.Service.{Cipher, Settings}
use codeforge.Session.Operations.{update_status}
use codeforge.Session.Loading.{get_session}
use codeforge.Session.Operations.Safety.{get_session-IsSafe}
use codeforge.Session.Operations.Reads.{update_status-IsSafe}
use codeforge.Worker.Pool.{
  finish_processing, requeue_front, after_reset, recover_status, recover_found, recover_one,
  recover_all, recover_processing, should_process, take_next, acknowledge, process_found,
  process_one, work_on, work,
}

-- A write that leaves the hashes alone.
listed-IsSafe :
    (f : World → World) → ((w : World) → (f w).state ≡ w.state) → IsSafe (reach lost >> modify f)
listed-IsSafe f same =
    >>=-IsSafe (reach lost) (λ _. modify f) (reach-IsSafe lost)
      λ _ w j. rw (same w) (Moved-refl (status_at w j))

finish_processing-IsSafe : (k : String) → IsSafe (finish_processing k)
unfolding finish_processing
finish_processing-IsSafe k =
    let f : World → World = λ w. record w { processing = erase k w.processing } in
    ignore-IsSafe (reach lost >> modify f) (listed-IsSafe f λ w. refl)

requeue_front-IsSafe : (k : String) → IsSafe (requeue_front k)
unfolding requeue_front
requeue_front-IsSafe k =
    let f : World → World =
      λ w. record w { processing = erase k w.processing; queue = k ∷ w.queue } in
    ignore-IsSafe (reach lost >> modify f) (listed-IsSafe f λ w. refl)

reset-IsSafe :
    (cfg : Settings) (k : String) → IsSafe (attempt (update_status cfg k pending) >>= after_reset k)
reset-IsSafe cfg k =
    >>=-IsSafe (attempt (update_status cfg k pending)) (after_reset k)
      (attempt-IsSafe (update_status cfg k pending) (update_status-IsSafe cfg k pending)) after
  where
    after : (r : Result (Unit {0})) → IsSafe (after_reset k r)
    after (ok _) = requeue_front-IsSafe k
    after (err _) = finish_processing-IsSafe k

recover_status-IsSafe : (cfg : Settings) (k : String) (s : Status) → IsSafe (recover_status cfg k s)
unfolding recover_status
recover_status-IsSafe cfg k running = reset-IsSafe cfg k
recover_status-IsSafe cfg k cloning = reset-IsSafe cfg k
recover_status-IsSafe cfg k pending = requeue_front-IsSafe k
recover_status-IsSafe cfg k awaiting_instruction = requeue_front-IsSafe k
recover_status-IsSafe cfg k reviewing = requeue_front-IsSafe k
recover_status-IsSafe cfg k completed = finish_processing-IsSafe k
recover_status-IsSafe cfg k failed = finish_processing-IsSafe k
recover_status-IsSafe cfg k creating_pr = finish_processing-IsSafe k
recover_status-IsSafe cfg k pr_created = finish_processing-IsSafe k
recover_status-IsSafe cfg k canceled = finish_processing-IsSafe k
recover_status-IsSafe cfg k (other s) = finish_processing-IsSafe k

recover_one-IsSafe :
    (cfg : Settings) (cipher : Cipher) (k : String) → IsSafe (recover_one cfg cipher k)
unfolding recover_one
recover_one-IsSafe cfg cipher k =
    >>=-IsSafe (attempt (get_session cipher k)) (recover_found cfg k)
      (attempt-IsSafe (get_session cipher k) (get_session-IsSafe cipher k)) found
  where
    found : (r : Result Session) → IsSafe (recover_found cfg k r)
    found (ok t) = recover_status-IsSafe cfg k t.status
    found (err _) = finish_processing-IsSafe k

recover_all-IsSafe :
    (cfg : Settings) (cipher : Cipher) (ks : List String) → IsSafe (recover_all cfg cipher ks)
unfolding recover_all
recover_all-IsSafe cfg cipher [] = Keeps-refl
recover_all-IsSafe cfg cipher (k ∷ ks) =
    then-IsSafe (recover_one cfg cipher k) (recover_all cfg cipher ks)
      (recover_one-IsSafe cfg cipher k) (recover_all-IsSafe cfg cipher ks)

pub recover_processing-IsSafe :
    (cfg : Settings) (cipher : Cipher) → IsSafe (recover_processing cfg cipher)
unfolding recover_processing
recover_processing-IsSafe cfg cipher =
    let all : M (Unit {0}) = λ w. recover_all cfg cipher w.processing w in
    ignore-IsSafe (reach lost >> all) (
      then-IsSafe (reach lost) all (reach-IsSafe lost)
        λ w. recover_all-IsSafe cfg cipher w.processing w)

-- A round of a worker with a safe executor.
pub process_one-IsSafe :
    (cipher : Cipher) (run : Session → M (Unit {0})) (shutdown : Bool) (k : String)
    → ((t : Session) → IsSafe (run t))
    → IsSafe (process_one cipher run shutdown k)
unfolding process_one
process_one-IsSafe cipher run shutdown k safe =
    >>=-IsSafe (attempt (get_session cipher k)) (process_found run shutdown k)
      (attempt-IsSafe (get_session cipher k) (get_session-IsSafe cipher k)) found
  where
    acknowledged : (b : Bool) → IsSafe (acknowledge b k)
    acknowledged true = Keeps-refl
    acknowledged false = finish_processing-IsSafe k

    found : (r : Result Session) → IsSafe (process_found run shutdown k r)
    found (err _) = finish_processing-IsSafe k
    found (ok t) =
        choice-IsSafe (should_process t.status) (run t >> acknowledge shutdown k)
          (finish_processing k)
          (then-IsSafe (run t) (acknowledge shutdown k) (safe t) (acknowledged shutdown))
          (finish_processing-IsSafe k)

pub work-IsSafe :
    (cipher : Cipher) (run : Session → M (Unit {0})) (shutdown : Bool)
    → ((t : Session) → IsSafe (run t))
    → IsSafe (work cipher run shutdown)
unfolding work
work-IsSafe cipher run shutdown safe =
    let rest : M (Unit {0}) =
      λ w. (modify (take_next w.queue) >> work_on cipher run shutdown w.queue) w in
    then-IsSafe (reach lost) rest (reach-IsSafe lost) λ w.
      then-IsSafe (modify (take_next w.queue)) (work_on cipher run shutdown w.queue) (taken w.queue)
        (worked w.queue) w
  where
    taken : (ks : List String) → IsSafe (modify (take_next ks))
    taken [] = Keeps-refl
    taken (k ∷ ks) = Keeps-refl

    worked : (ks : List String) → IsSafe (work_on cipher run shutdown ks)
    worked [] = Keeps-refl
    worked (k ∷ ks) = process_one-IsSafe cipher run shutdown k safe
