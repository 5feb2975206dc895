-- ===== src/Session/Operations/Moves.antt =====
-- UpdateStatus where Redis and SQLite answer, as its callers see it.
use codeforge.Session.Model.{Session}
use codeforge.Session.Sqlite.Rows.{find_row-update_row}
use codeforge.Session.Operations.Reads.{status_at-expire_for}
use codeforge.Session.Sqlite
use codeforge.Prelude.{
  ◌<>◌, Bool-cases, inl, inr, ◌=s◌, false, ap, ◌∙◌, ◌≡◌, refl, String, Option, none, some, List, [],
  arith, eq_refl,
}
use codeforge.Apperror.{not_found, Error}
use codeforge.Session.Status.{is_finished, is_idle, Status, validate_transition}
use codeforge.Session.World.{
  written, persist_to_sqlite, World, Row, Entry, ok, err, up, status_at, hset, entry_hash,
  faults_after, set_ttl,
}
use codeforge.Session.Service.{Settings}
use codeforge.Session.Operations.{
  when, starts, finishes, update_status, status_fields, expire_for, idle_ttl,
}

hash_at-set_ttl : (t : _) (o : Option Entry) → entry_hash (set_ttl t o) ≡ entry_hash o
hash_at-set_ttl t none = refl
hash_at-set_ttl t (some x) = refl

hash_at-expire_for :
    (cfg : Settings) (s : Status) (k : String) (w : World)
    → entry_hash ((expire_for cfg s k w).state k) ≡ entry_hash (w.state k)
hash_at-expire_for cfg s k w = ground (
  arith,
  eq_refl k,
  hash_at-set_ttl (some cfg.state_ttl) (w.state k),
  hash_at-set_ttl (some (idle_ttl cfg.state_ttl)) (w.state k),
)

expire_for_state :
    (cfg : Settings) (s : Status) (k : String) (w : World)
    → expire_for cfg s k w ≡ record w { state = (expire_for cfg s k w).state }
expire_for_state cfg s k w = elim (Bool-cases (is_finished s)) [
  | inl e ↦ rw e refl
  | inr e ↦ elim (Bool-cases (is_idle s)) [ inl f ↦ rw (e, f) refl | inr f ↦ rw (e, f) refl ]
]

state-expire_for :
    (cfg : Settings) (s : Status) (k : String) (w : World) (j : String)
    → (k =s j) ≡ false
    → (expire_for cfg s k w).state j ≡ w.state j
state-expire_for cfg s k w j h = ground arith

-- A write behind the answers of SQLite leaves no faults.
pub persist_to_sqlite-up :
    (f : List Row → List Row) (w : World)
    → w.faults ≡ []
    → persist_to_sqlite f w ≡ (ok tt, up (record w { sqlite = written false f w.sqlite }))
unfolding persist_to_sqlite
persist_to_sqlite-up f w calm = rw calm (
    ap (λ fs. (ok tt, record w { sqlite = written false f w.sqlite; faults = fs }))
      (none_left w.sqlite))
  where
    none_left : (o : Option (List Row)) → faults_after [] o ≡ []
    none_left none = refl
    none_left (some _) = refl

-- A transition that the table allows, and what it leaves alone.
pub update_status_moves :
    (cfg : Settings) (k : String) (s c : Status) (w : World)
    → status_at w k ≡ some c
    → validate_transition c s ≡ none
    → (w' : World) × (update_status cfg k s (up w) ≡ (ok tt, up w'))
      × (entry_hash (w'.state k) ≡ status_fields s w.now (entry_hash (w.state k)))
      × (status_at w' k ≡ some s)
      × (w'.queue ≡ w.queue)
      × (w'.processing ≡ w.processing)
      × ((j : String) → (k =s j) ≡ false → w'.state j ≡ w.state j)
unfolding update_status
update_status_moves cfg k s c w e valid =
    let w₁ : World = hset k (status_fields s w.now) (up w) in
    let W : World = record w₁ { state = (expire_for cfg s k w₁).state } in
    let f = Sqlite.update_status w.now k s (when (starts s) w.now) (when (finishes s) w.now) in
    let hash : entry_hash (W.state k) ≡ status_fields s w.now (entry_hash (w.state k)) =
      hash_at-expire_for cfg s k w₁ ∙ rw (eq_refl k) refl in
    (
      record W { sqlite = written false f W.sqlite },
      rw (e, valid)
          (ap (persist_to_sqlite f) (expire_for_state cfg s k w₁) ∙ persist_to_sqlite-up f W refl),
      hash,
      status_at-expire_for cfg s k w₁ k ∙ rw (eq_refl k) refl,
      refl,
      refl,
      λ j h. state-expire_for cfg s k w₁ j h ∙ rw h refl,
    )

-- A transition that it refuses.
pub update_status_refused :
    (cfg : Settings) (k : String) (s c : Status) (w : World) (e : Error)
    → status_at w k ≡ some c
    → validate_transition c s ≡ some e
    → update_status cfg k s (up w) ≡ (err e, up w)
unfolding update_status
update_status_refused cfg k s c w e found refused = rw (found, refused) refl

-- A session without a hash.
pub update_status_missing :
    (cfg : Settings) (k : String) (s : Status) (w : World)
    → status_at w k ≡ none
    → update_status cfg k s (up w) ≡ (err (not_found ("session " <> k <> " not found")), up w)
unfolding update_status
update_status_missing cfg k s w e = rw e refl

update_status_sqlite :
    (cfg : Settings) (k : String) (s c : Status) (w : World)
    → status_at w k ≡ some c
    → validate_transition c s ≡ none
    → (update_status cfg k s (up w)).1.sqlite
      ≡ written false
          (Sqlite.update_status w.now k s (when (starts s) w.now) (when (finishes s) w.now))
          w.sqlite
unfolding update_status
update_status_sqlite cfg k s c w e valid =
    let w₁ : World = hset k (status_fields s w.now) (up w) in
    let W : World = record w₁ { state = (expire_for cfg s k w₁).state } in
    let f = Sqlite.update_status w.now k s (when (starts s) w.now) (when (finishes s) w.now) in
    rw (e, valid)
      (ap (λ p. p.1.sqlite)
        (ap (persist_to_sqlite f) (expire_for_state cfg s k w₁) ∙ persist_to_sqlite-up f W refl))

-- Where Redis and SQLite answer, a transition reaches both stores: the hash and the row of the
-- session have the new status, the row its times, and the other rows are found as before.
pub update_status_mirrored :
    (cfg : Settings) (k : String) (s c : Status) (w : World) (rows : List Row) (t : Session)
    → status_at w k ≡ some c
    → validate_transition c s ≡ none
    → w.sqlite ≡ some rows
    → Sqlite.find_row k rows ≡ some t
    → let w' = (update_status cfg k s (up w)).1 in
      (status_at w' k ≡ some s)
      × (rows' : List Row) × (w'.sqlite ≡ some rows')
      × (Sqlite.find_row k rows'
          ≡ some (record t {
            status = s;
            started_at = Sqlite.coalesce (when (starts s) w.now) t.started_at;
            finished_at = Sqlite.coalesce (when (finishes s) w.now) t.finished_at;
          }))
      × ((j : String) → (k =s j) ≡ false → Sqlite.find_row j rows' ≡ Sqlite.find_row j rows)
update_status_mirrored cfg k s c w rows t e valid stored found =
    let (w', moved, _, status, _, _, _) = update_status_moves cfg k s c w e valid in
    let started = when (starts s) w.now in
    let finished = when (finishes s) w.now in
    let F : Session → Session = λ u. record u {
      status = s;
      started_at = Sqlite.coalesce started u.started_at;
      finished_at = Sqlite.coalesce finished u.finished_at;
    } in
    (
      rw moved status,
      Sqlite.update_status w.now k s started finished rows,
      update_status_sqlite cfg k s c w e valid ∙ rw stored refl,
      find_row-update_row w.now k F rows k (λ u. refl) ∙ rw (eq_refl k, found) refl,
      λ j apart. find_row-update_row w.now k F rows j (λ u. refl) ∙ rw apart refl,
    )
