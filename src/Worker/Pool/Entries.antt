-- ===== src/Worker/Pool/Entries.antt =====
-- What becomes of an entry of the processing list, where Redis and SQLite answer.
use mathlib.Core.Bool.{false≢true}
use codeforge.Prelude.{
  ◌≡◌, refl, ap, ◌∙◌, sym, String, Bool, true, false, Option, none, some, ◌∷◌, ◌⊎◌, arith, ◌=s◌,
  erase,
}
use codeforge.Session.Status.{Status, pending, cloning, running, validate_transition}
use codeforge.Session.World.{attempt, ◌>>=◌, World, Result, ok, up, status_at}
use codeforge.Session.Service.{Settings}
use codeforge.Session.Operations.{update_status}
use codeforge.Session.Operations.Moves.{update_status_moves, update_status_missing}
use codeforge.Worker.Pool.{after_reset, finish_processing, requeue_front, should_process}

-- Waiting for a worker, or interrupted at work.
abbrev pub is_recoverable : Status → Bool
is_recoverable running = true
is_recoverable cloning = true
is_recoverable s = should_process s

-- What became of the entry `k`: dropped, with all sessions as they were, or put before the queue.
pub data Recovered (k : String) (w w' : World) : Type 0 where
  dropped : w'.queue ≡ w.queue → ((j : String) → w'.state j ≡ w.state j) → Recovered k w w'
  requeued :
      w'.queue ≡ k ∷ w.queue
      → ((j : String) → (k =s j) ≡ false → w'.state j ≡ w.state j)
      → Recovered k w w'

-- The session of `k` is in the hands of a worker to come.
abbrev pub Awaits : String → World → Type 0
Awaits k w = (c : Status) × (status_at w k ≡ some c) × (should_process c ≡ true)

abbrev pub Outcome : String → World → World → Type 0
Outcome k w w' =
    (w'.processing ≡ erase k w.processing)
    × Recovered k w w'
    × ((c : Status)
        → status_at w k ≡ some c
        → is_recoverable c ≡ true
        → (w'.queue ≡ k ∷ w.queue) × Awaits k w')

pub interrupted_valid :
    (c : Status) → (c ≡ running) ⊎ (c ≡ cloning) → validate_transition c pending ≡ none
unfolding validate_transition
interrupted_valid c h = ground arith

-- The end of `m` from `w`: what it returns, and what became of the entry.
abbrev pub Ends : String → World → Result (Unit {0}) × World → Type 0
Ends k w p = (w' : World) × (p ≡ (ok tt, up w')) × Outcome k w w'

pub some-eq : {a b : Status} → some a ≡ some b → a ≡ b
some-eq h = cc

pub drop-Ends :
    (k : String) (w : World)
    → ((c : Status) → status_at w k ≡ some c → is_recoverable c ≡ false)
    → Ends k w (finish_processing k (up w))
unfolding finish_processing
drop-Ends k w lost' = (
  record w { processing = erase k w.processing },
  refl,
  (refl, dropped refl (λ j. refl), λ c e r. absurd (false≢true (sym (lost' c e) ∙ r))),
)

pub front-Ends :
    (k : String) (w : World)
    → ((c : Status) → status_at w k ≡ some c → should_process c ≡ true)
    → Ends k w (requeue_front k (up w))
unfolding requeue_front
front-Ends k w waits = (
  record w { processing = erase k w.processing; queue = k ∷ w.queue },
  refl,
  (refl, requeued refl (λ j h. refl), λ c e r. (refl, (c, e, waits c e))),
)

pub reset-Ends :
    (cfg : Settings) (k : String) (c : Status) (w : World)
    → status_at w k ≡ some c
    → (c ≡ running) ⊎ (c ≡ cloning)
    → Ends k w ((attempt (update_status cfg k pending) >>= after_reset k) (up w))
unfolding requeue_front
reset-Ends cfg k c w e i =
    let (w', moved, _, status, queue, processing, frame) =
      update_status_moves cfg k pending c w e (interrupted_valid c i) in
    (
      record w' { processing = erase k w'.processing; queue = k ∷ w'.queue },
      rw moved refl,
      (
        ap (erase k) processing,
        requeued (ap (λ q. k ∷ q) queue) frame,
        λ d _ r. (ap (λ q. k ∷ q) queue, (pending, status, refl)),
      ),
    )

pub no_status : {o : Option Status} {c : Status} → o ≡ none → o ≡ some c → ⊥
no_status e h = cc

pub unknown-Ends :
    (cfg : Settings) (k : String) (w : World)
    → status_at w k ≡ none
    → Ends k w ((attempt (update_status cfg k pending) >>= after_reset k) (up w))
unknown-Ends cfg k w e =
    rw (update_status_missing cfg k pending w e) (drop-Ends k w λ c h. absurd (no_status e h))
