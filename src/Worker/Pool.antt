-- ===== src/Worker/Pool.antt =====
-- internal/worker/pool.go: the recovery of sessions from the processing list, and the work on one
-- session of the queue. Executor.Execute is a parameter. Logging, metrics and the map of cancel
-- functions are left out.
pub mod Entries
pub mod Recovery
pub mod Safety
use codeforge.Prelude.{
  String, Bool, true, false, List, [], ◌∷◌, ◌++◌, if◌then◌else◌, erase, Option, none, some,
}
use codeforge.Session.Status.{Status, pending, cloning, running, awaiting_instruction, reviewing}
use codeforge.Session.Model.{Session}
use codeforge.Session.World.{
  World, M, Result, ok, err, ◌>>=◌, ◌>>◌, pure, get, modify, ignore, attempt, reach, lost,
}
use codeforge.Session.Service.{Cipher, Settings}
use codeforge.Session.Operations.{update_status}
use codeforge.Session.Loading.{get_session}

-- LREM of one entry of the processing list; a failure is only logged. It is finishProcessing, and
-- the `dropEntry` of recoverOne.
unfoldable pub finish_processing : String → M (Unit {0})
unfolding reach
finish_processing k =
    ignore (do reach lost; modify λ w. record w { processing = erase k w.processing })

-- The pipeline at the end of recoverOne.
unfoldable pub requeue_front : String → M (Unit {0})
unfolding reach
requeue_front k =
    ignore (do
      reach lost
      modify λ w. record w { processing = erase k w.processing; queue = k ∷ w.queue })

abbrev pub after_reset : String → Result (Unit {0}) → M (Unit {0})
after_reset k (ok _) = requeue_front k
after_reset k (err _) = finish_processing k

-- The `switch` of recoverOne.
unfoldable pub recover_status : Settings → String → Status → M (Unit {0})
recover_status cfg k running = attempt (update_status cfg k pending) >>= after_reset k
recover_status cfg k cloning = attempt (update_status cfg k pending) >>= after_reset k
recover_status cfg k pending = requeue_front k
recover_status cfg k awaiting_instruction = requeue_front k
recover_status cfg k reviewing = requeue_front k
recover_status cfg k _ = finish_processing k

abbrev pub recover_found : Settings → String → Result Session → M (Unit {0})
recover_found cfg k (err _) = finish_processing k
recover_found cfg k (ok t) = recover_status cfg k t.status

-- recoverOne.
unfoldable pub recover_one : Settings → Cipher → String → M (Unit {0})
recover_one cfg cipher k = attempt (get_session cipher k) >>= recover_found cfg k

unfoldable pub recover_all : Settings → Cipher → List String → M (Unit {0})
recover_all cfg cipher [] = pure tt
recover_all cfg cipher (k ∷ ks) = recover_one cfg cipher k >> recover_all cfg cipher ks

-- recoverProcessing.
unfoldable pub recover_processing : Settings → Cipher → M (Unit {0})
unfolding reach
recover_processing cfg cipher = ignore (do reach lost; w ← get; recover_all cfg cipher w.processing)

abbrev pub should_process : Status → Bool
should_process pending = true
should_process awaiting_instruction = true
should_process reviewing = true
should_process _ = false

-- BLMOVE of the head of the queue to the end of the processing list.
abbrev pub take_next : List String → World → World
take_next [] w = w
take_next (k ∷ ks) w = record w { queue = ks; processing = w.processing ++ k ∷ [] }

-- What processOne does after the executor; a shutdown keeps the entry for the next start.
abbrev pub acknowledge : Bool → String → M (Unit {0})
acknowledge true k = pure tt
acknowledge false k = finish_processing k

abbrev pub process_found : (Session → M (Unit {0})) → Bool → String → Result Session → M (Unit {0})
process_found execute shutdown k (err _) = finish_processing k
process_found execute shutdown k (ok t) =
    if should_process t.status then (execute t >> acknowledge shutdown k) else finish_processing k

-- processOne; `shutdown` says whether the pool was stopped while the executor ran.
unfoldable pub process_one : Cipher → (Session → M (Unit {0})) → Bool → String → M (Unit {0})
process_one cipher execute shutdown k =
    attempt (get_session cipher k) >>= process_found execute shutdown k

-- A round of the loop of `worker` that finds an entry, or nothing to do.
abbrev pub work_on : Cipher → (Session → M (Unit {0})) → Bool → List String → M (Unit {0})
work_on cipher execute shutdown [] = pure tt
work_on cipher execute shutdown (k ∷ ks) = process_one cipher execute shutdown k

unfoldable pub work : Cipher → (Session → M (Unit {0})) → Bool → M (Unit {0})
unfolding reach
work cipher execute shutdown = do
  reach lost
  w ← get
  modify (take_next w.queue)
  work_on cipher execute shutdown w.queue
