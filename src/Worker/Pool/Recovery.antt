-- ===== src/Worker/Pool/Recovery.antt =====
-- The recovery of the processing list, where Redis and SQLite answer: it empties the list, and no
-- session that waits or was interrupted is lost.
use mathlib.Core.Bool.{false≢true}
use codeforge.Prelude.{
  ◌≡◌, refl, ap, ◌∙◌, sym, subst, String, true, false, none, some, List, [], ◌∷◌, ◌⊎◌, inl, inr,
  arith, eq_refl, eq_iff, Bool-cases, ◌=s◌, erase, contains,
}
use codeforge.Session.Status.{
  completed, failed, creating_pr, pr_created, canceled, Status, pending, cloning, running,
  awaiting_instruction, reviewing, other,
}
use codeforge.Session.World.{World, Result, ok, up, status_at, entry_status}
use codeforge.Session.Service.{Cipher, Settings}
use codeforge.Session.Operations.Effects.{get_session_answers}
use codeforge.Worker.Pool.{
  recover_status, recover_one, recover_all, recover_processing, should_process,
}
use codeforge.Worker.Pool.Entries.{
  Recovered, Awaits, Ends, Outcome, drop-Ends, dropped, front-Ends, is_recoverable, no_status,
  requeued, reset-Ends, some-eq, unknown-Ends,
}

-- What holds of the status that recovery goes by holds of the stored one.
abbrev Known : String → World → Status → Type 0
Known k w s = (status_at w k ≡ some s) ⊎ (status_at w k ≡ none)

known :
    (P : Status → Type 0) (k : String) (w : World) (s : Status)
    → P s
    → Known k w s
    → (c : Status) → status_at w k ≡ some c
    → P c
known P k w s p (inl e) c h = subst P (some-eq (sym e ∙ h)) p
known P k w s p (inr e) c h = absurd (no_status e h)

-- The status that recovery goes by is the stored one, or none is stored.
recover_status-Ends :
    (cfg : Settings) (k : String) (w : World) (s : Status)
    → Known k w s
    → Ends k w (recover_status cfg k s (up w))
unfolding recover_status
recover_status-Ends cfg k w running (inl e) = reset-Ends cfg k running w e (inl refl)
recover_status-Ends cfg k w cloning (inl e) = reset-Ends cfg k cloning w e (inr refl)
recover_status-Ends cfg k w running (inr e) = unknown-Ends cfg k w e
recover_status-Ends cfg k w cloning (inr e) = unknown-Ends cfg k w e
recover_status-Ends cfg k w pending h =
    front-Ends k w (known (λ c. should_process c ≡ true) k w pending refl h)
recover_status-Ends cfg k w awaiting_instruction h =
    front-Ends k w (known (λ c. should_process c ≡ true) k w awaiting_instruction refl h)
recover_status-Ends cfg k w reviewing h =
    front-Ends k w (known (λ c. should_process c ≡ true) k w reviewing refl h)
recover_status-Ends cfg k w completed h =
    drop-Ends k w (known (λ c. is_recoverable c ≡ false) k w completed refl h)
recover_status-Ends cfg k w failed h =
    drop-Ends k w (known (λ c. is_recoverable c ≡ false) k w failed refl h)
recover_status-Ends cfg k w creating_pr h =
    drop-Ends k w (known (λ c. is_recoverable c ≡ false) k w creating_pr refl h)
recover_status-Ends cfg k w pr_created h =
    drop-Ends k w (known (λ c. is_recoverable c ≡ false) k w pr_created refl h)
recover_status-Ends cfg k w canceled h =
    drop-Ends k w (known (λ c. is_recoverable c ≡ false) k w canceled refl h)
recover_status-Ends cfg k w (other t) h =
    drop-Ends k w (known (λ c. is_recoverable c ≡ false) k w (other t) refl h)

recover_one-Ends :
    (cfg : Settings) (cipher : Cipher) (k : String) (w : World)
    → Ends k w (recover_one cfg cipher k (up w))
unfolding recover_one
recover_one-Ends cfg cipher k w = elim (get_session_answers cipher k w) [
  | inl (e, eq, none_stored) ↦ rw eq (drop-Ends k w λ c h. absurd (no_status none_stored h))
  | inr (t, eq, h) ↦ rw eq (recover_status-Ends cfg k w t.status h)
]

abbrev pub Recoverable : String → World → Type 0
Recoverable j w = (c : Status) × (status_at w j ≡ some c) × (is_recoverable c ≡ true)

-- The session is queued, and a worker that takes it from the queue will work on it.
abbrev pub Held : String → World → Type 0
Held j w = (contains w.queue j ≡ true) × Awaits j w

Awaits-Recoverable : (j : String) (w : World) → Awaits j w → Recoverable j w
Awaits-Recoverable j w (c, e, p) = (c, e, ground arith)

-- What one recovery does for the session `j`, whoever's entry it is.
gained : (k : String) (w w' : World) → Outcome k w w' → Recoverable k w → Held k w'
gained k w w' (_, _, here) (c, e, r) =
    let (queue, awaits) = here c e r in (rw (queue, eq_refl k) refl, awaits)

same_state : (j : String) (w w' : World) → w'.state j ≡ w.state j → status_at w' j ≡ status_at w j
same_state j w w' h = ap entry_status h

kept : (k j : String) (w w' : World) → (k =s j) ≡ false → Recovered k w w' → Held j w → Held j w'
kept k j w w' apart (dropped queue frame) (q, (c, e, p)) =
    (rw queue q, (c, same_state j w w' (frame j) ∙ e, p))
kept k j w w' apart (requeued queue frame) (q, (c, e, p)) =
    (rw (queue, apart) q, (c, same_state j w w' (frame j apart) ∙ e, p))

still :
    (k j : String) (w w' : World)
    → (k =s j) ≡ false
    → Recovered k w w'
    → Recoverable j w
    → Recoverable j w'
still k j w w' apart (dropped _ frame) (c, e, p) = (c, same_state j w w' (frame j) ∙ e, p)
still k j w w' apart (requeued _ frame) (c, e, p) = (c, same_state j w w' (frame j apart) ∙ e, p)

-- One recovery, for any session.
abbrev Step : String → String → World → World → Type 0
Step k j w w' =
    (Held j w → Held j w')
    × (Recoverable j w → Recoverable j w')
    × ((k =s j) ≡ true → Recoverable j w → Held j w')

step_lem : (k j : String) (w w' : World) → Outcome k w w' → Step k j w w'
step_lem k j w w' o = elim (Bool-cases (k =s j)) [
  | inl same ↦
      let moved : Recoverable j w → Held j w' =
        subst (λ x. Recoverable x w → Held x w') ((eq_iff k j).0 same) (gained k w w' o) in
      (
        λ (_, a). moved (Awaits-Recoverable j w a),
        λ r. Awaits-Recoverable j w' (moved r).1,
        λ _. moved,
      )
  | inr apart ↦ (
    kept k j w w' apart o.1,
    still k j w w' apart o.1,
    λ same. absurd (false≢true (sym apart ∙ same)),
  )
]

-- The list is worked off from its head.
abbrev Emptied : List String → World → Result (Unit {0}) × World → Type 0
Emptied ks w p =
    (w' : World) × (p ≡ (ok tt, up w'))
    × (w'.processing ≡ [])
    × ((j : String) → (Held j w → Held j w') × (contains ks j ≡ true → Recoverable j w → Held j w'))

recover_all-Emptied :
    (cfg : Settings) (cipher : Cipher) (ks : List String) (w : World)
    → w.processing ≡ ks
    → Emptied ks w (recover_all cfg cipher ks (up w))
unfolding recover_all
recover_all-Emptied cfg cipher [] w e = (w, refl, e, λ j. (λ h. h, λ h. absurd (false≢true h)))
recover_all-Emptied cfg cipher (k ∷ ks) w e =
    let (w₁, eq, outcome) = recover_one-Ends cfg cipher k w in
    let left : w₁.processing ≡ ks = outcome.0 ∙ ap (erase k) e ∙ rw (eq_refl k) refl in
    let (w', eq', empty, all) = recover_all-Emptied cfg cipher ks w₁ left in
    (
      w',
      rw eq eq',
      empty,
      λ j.
          let (held, still', gains) = step_lem k j w w₁ outcome in
          (
            λ h. (all j).0 (held h),
            λ h r. elim (Bool-cases (k =s j)) [
              | inl same ↦ (all j).0 (gains same r)
              | inr apart ↦ (all j).1 (ground (arith)) (still' r)
            ],
          ),
    )

-- Where Redis and SQLite answer, the recovery at the start of the pool empties the processing list,
-- and a session of the list that runs, is cloned, waits or is reviewed is queued afterwards, in a
-- status that a worker accepts.
pub recover_processing_lem :
    (cfg : Settings) (cipher : Cipher) (w : World)
    → let w' = (recover_processing cfg cipher (up w)).1 in
      (w'.processing ≡ [])
      × ((j : String) → contains w.processing j ≡ true → Recoverable j w → Held j w')
unfolding recover_processing
recover_processing_lem cfg cipher w =
    let (w', eq, empty, all) = recover_all-Emptied cfg cipher w.processing w refl in
    rw eq (empty, λ j h r. (all j).1 h r)
