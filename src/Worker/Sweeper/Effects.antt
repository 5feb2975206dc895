-- ===== src/Worker/Sweeper/Effects.antt =====
-- What the sweeper makes of one session that was listed as stuck.
use mathlib.Core.Bool.{false≢true}
use codeforge.Prelude.{
  ◌⊎◌, ◌≡◌, refl, ◌∙◌, sym, String, Bool, true, false, none, some, eq_refl, ◌=s◌, inl, inr,
}
use codeforge.Apperror.{Error}
use codeforge.Session.Sqlite
use codeforge.Session.Status.{
  pending, cloning, running, awaiting_instruction, reviewing, creating_pr, Status, completed,
  failed, pr_created, canceled, other, validate_transition,
}
use codeforge.Session.World.{World, Hash, up, hset, status_at, entry_hash}
use codeforge.Session.Service.{Settings}
use codeforge.Session.Operations.{set_error}
use codeforge.Session.Operations.Moves.{
  update_status_moves, update_status_refused, persist_to_sqlite-up,
}
use codeforge.Worker.Sweeper.{sweep_one, stuck_message}

-- The statuses that the sweep leaves alone.
abbrev pub is_spared : Status → Bool
is_spared completed = true
is_spared failed = true
is_spared pr_created = true
is_spared canceled = true
is_spared (other _) = true
is_spared _ = false

spared_iff :
    (c : Status)
    → ((is_spared c ≡ true) × (e : Error) × (validate_transition c failed ≡ some e))
      ⊎ ((is_spared c ≡ false) × (validate_transition c failed ≡ none))
unfolding validate_transition
spared_iff completed = inl (refl, _, refl)
spared_iff failed = inl (refl, _, refl)
spared_iff pr_created = inl (refl, _, refl)
spared_iff canceled = inl (refl, _, refl)
spared_iff (other s) = inl (refl, _, refl)
spared_iff pending = inr (refl, refl)
spared_iff cloning = inr (refl, refl)
spared_iff running = inr (refl, refl)
spared_iff awaiting_instruction = inr (refl, refl)
spared_iff reviewing = inr (refl, refl)
spared_iff creating_pr = inr (refl, refl)

-- Where Redis and SQLite answer, the sweep of a listed session goes by its status at that time:
-- finished and idle sessions stay as they are, and any other one is failed with the sweeper's
-- message, also one that is no longer running or cloning. No other session changes.
pub sweep_one_lem :
    (cfg : Settings) (k : String) (c : Status) (w : World)
    → status_at w k ≡ some c
    → let w' = (sweep_one cfg k (up w)).1 in
      (is_spared c ≡ true → w'.state ≡ w.state)
      × (is_spared c ≡ false
          → ((entry_hash (w'.state k)).status ≡ some failed)
            × ((entry_hash (w'.state k)).error ≡ some stuck_message)
            × ((j : String) → (k =s j) ≡ false → w'.state j ≡ w.state j))
unfolding sweep_one set_error
sweep_one_lem cfg k c w e = elim (spared_iff c) [
  | inl (spared, x, refused) ↦
      rw (update_status_refused cfg k failed c w x e refused)
        (λ _. refl, λ h. absurd (false≢true (sym h ∙ spared)))
  | inr (unspared, valid) ↦
      let (w', moved, hash, _, _, _, frame) = update_status_moves cfg k failed c w e valid in
      let f : Hash → Hash = λ h. record h { error = some stuck_message } in
      let g = Sqlite.update_error w'.now k stuck_message in
      rw (moved, persist_to_sqlite-up g (hset k f (up w')) refl, eq_refl k)
        (
          λ h. absurd (false≢true (sym unspared ∙ h)),
          λ _. (rw hash refl, refl, λ j apart. rw apart (frame j apart)),
        )
]
