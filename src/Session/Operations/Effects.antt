-- ===== src/Session/Operations/Effects.antt =====
-- What each operation does on each of its branches.
use codeforge.Session.Sqlite
use codeforge.Session.Model.{Session}
use codeforge.Prelude.{
  ◌<>◌, ap, ◌∙◌, sym, ℕ, ◌+◌, ◌*◌, ◌≡◌, refl, ◌↔◌, ◌≤◌, ◌⊎◌, inl, inr, String, Option, none, some,
  List, [], ◌∷◌, ◌++◌, arith, Option-cases, option_or, ◌<◌, if◌then◌else◌, eq_refl,
}
use codeforge.Apperror.{http_status, not_found, Error}
use codeforge.Session.Status.{
  failed, is_status, completed, pr_created, Status, awaiting_instruction, validate_transition,
  is_finished, is_idle,
}
use codeforge.Session.Status.Graph.{◌⟶◌, validate_transition_iff}
use codeforge.Session.World.{
  entry_status, Row, entry_hash, faults_after, empty_hash, up, World, ok, err, status_at, Entry,
  Hash, entry_ttl,
}
use codeforge.Session.Service.{Settings, Cipher, hash_to_session}
use codeforge.Session.Operations.{
  instructed, instruct_loaded, transition_refusal, instruct_fields, update_status, idle_ttl, hour,
  instruct, instruct_refusal,
}
use codeforge.Session.Loading.{
  get_row, row_or_missing, with_result, get_session, get_entry, revealed,
}

-- An UpdateStatus that returns an error, refused or failed, changes no stored session.
pub update_status_err :
    (cfg : Settings) (k : String) (s : Status) (w : World) (e : Error)
    → (update_status cfg k s w).0 ≡ err e
    → (update_status cfg k s w).1.state ≡ w.state
unfolding update_status
update_status_err cfg k s w e h = ground arith

-- Where Redis answers, UpdateStatus succeeds exactly along the edges of the diagram.
pub update_status_iff :
    (cfg : Settings) (k : String) (s : Status) (w : World)
    → w.faults ≡ []
    → ((update_status cfg k s w).0 ≡ ok tt) ↔ ((c : Status) × (status_at w k ≡ some c) × (c ⟶ s))
unfolding update_status
update_status_iff cfg k s w h = (
  λ r. elim (Option-cases (status_at w k)) [
    | inl e ↦ absurd (ground arith)
    | inr (c, e) ↦ (c, e, (validate_transition_iff c s).0 (ground arith))
  ],
  λ (c, e, edge). let valid = (validate_transition_iff c s).1 edge in ground arith,
)

abbrev pub ttl_at : World → String → Option ℕ
ttl_at w k = entry_ttl (w.state k)

-- After a transition the session expires after the state's time to live if it is finished, after
-- the longer idle time if it is idle, and as before if the new status is a working one.
pub update_status_ttl :
    (cfg : Settings) (k : String) (s : Status) (w : World)
    → (update_status cfg k s w).0 ≡ ok tt
    → ttl_at (update_status cfg k s w).1 k ≡ (
        if is_finished s
        then some cfg.state_ttl
        else if is_idle s
        then some (idle_ttl cfg.state_ttl)
        else ttl_at w k)
unfolding update_status
update_status_ttl cfg k s w h = ground (arith, eq_refl k)

-- The idle time is no shorter than a day and than seven times the state's time to live.
pub idle_ttl_bounds : (ttl : ℕ) → (24 * hour ≤ idle_ttl ttl) × (7 * ttl ≤ idle_ttl ttl)
unfolding idle_ttl
idle_ttl_bounds ttl = ground arith

-- It is shorter than the "minimum 7 days" of the comment for a state's time to live from
-- 24 / 7 hours to a day.
pub idle_ttl_short :
    (ttl : ℕ) → 24 * hour ≤ ttl * 7 → ttl < 24 * hour → idle_ttl ttl < 7 * 24 * hour
unfolding idle_ttl
idle_ttl_short ttl h k = ground arith

-- The session that Get builds from a hash and a stored result.
abbrev pub loaded : Cipher → Option String → Hash → Session
loaded cipher r h = with_result (ok tt) r (revealed cipher h)

pub get_session-up :
    (cipher : Cipher) (k : String) (w : World) (x : Entry)
    → w.state k ≡ some x
    → get_session cipher k (up w) ≡ (ok (loaded cipher (w.result k) x.hash), up w)
unfolding get_session
get_session-up cipher k w x e = rw (e, get_entry)

pub loaded-status :
    (cipher : Cipher) (r : Option String) (h : Hash) (c : Status)
    → h.status ≡ some c
    → (loaded cipher r h).status ≡ c
unfolding revealed hash_to_session
loaded-status cipher r h c e = ground arith

loaded-iteration :
    (cipher : Cipher) (r : Option String) (h : Hash)
    → (loaded cipher r h).iteration ≡ option_or h.iteration 0
unfolding revealed hash_to_session
loaded-iteration cipher r h = ground arith

refusal_passes : (c : Status) → instruct_refusal c ≡ none → transition_refusal c ≡ none
unfolding validate_transition
refusal_passes c h = ground arith

pub instruct_loaded-up :
    (k prompt : String) (t : Session) (w : World)
    → instruct_refusal t.status ≡ none
    → let (r, w') = instruct_loaded k prompt t (up w) in
      (r ≡ ok (instructed prompt t))
      × (w'.state k
          ≡ some (record {
            hash = instruct_fields prompt (t.iteration + 1) w.now (entry_hash (w.state k));
            ttl = none;
          }))
      × (w'.queue ≡ w.queue ++ k ∷ [])
      × (w'.faults ≡ [])
      × (w'.result ≡ w.result)
unfolding instruct_loaded
instruct_loaded-up k prompt t w allowed =
    rw (allowed, refusal_passes t.status allowed, eq_refl k)
      (refl, refl, refl, none_left w.sqlite, refl)
  where
    none_left : (o : Option (List Row)) → faults_after [] o ≡ []
    none_left none = refl
    none_left (some _) = refl

-- Where Redis and SQLite answer and the hash has not expired, an Instruct of a session in a status
-- that waits for the user stores the prompt and the next iteration, removes the error and the time
-- to live, leaves the other fields of the hash, and appends the session to the queue.
pub instruct_effect :
    (cipher : Cipher) (k prompt : String) (w : World) (x : Entry) (c : Status)
    → w.state k ≡ some x
    → x.hash.status ≡ some c
    → (c ≡ completed) ⊎ (c ≡ awaiting_instruction) ⊎ (c ≡ pr_created)
    → let (r, w') = instruct cipher k prompt (up w) in
      (w'.state k
        ≡ some (record {
          hash = record (x.hash) {
            status = some awaiting_instruction;
            current_prompt = some prompt;
            iteration = some (option_or x.hash.iteration 0 + 1);
            updated_at = some w.now;
            error = some "";
          };
          ttl = none;
        }))
      × (w'.queue ≡ w.queue ++ k ∷ [])
unfolding instruct
instruct_effect cipher k prompt w x c e s waits =
    let status = loaded-status cipher (w.result k) x.hash c s in
    let allowed : instruct_refusal (loaded cipher (w.result k) x.hash).status ≡ none =
      rw status (ground arith) in
    let (_, state, queue, _, _) =
      instruct_loaded-up k prompt (loaded cipher (w.result k) x.hash) w allowed in
    rw (get_session-up cipher k w x e)
      (rw (loaded-iteration cipher (w.result k) x.hash, e) at state, queue)

refusal_status :
    (c : Status) (e : Error)
    → instruct_refusal c ≡ some e
    → http_status e ≡ (if is_status c failed then 400 else 409)
unfolding http_status
refusal_status c e h = ground arith

-- Where Redis and SQLite answer, an Instruct of a session in any other status is refused and
-- changes nothing; the HTTP status is 400 for a failed session and 409 otherwise.
pub instruct_refused :
    (cipher : Cipher) (k prompt : String) (w : World) (x : Entry) (c : Status) (e : Error)
    → w.state k ≡ some x
    → x.hash.status ≡ some c
    → instruct_refusal c ≡ some e
    → (instruct cipher k prompt (up w) ≡ (err e, up w))
      × (http_status e ≡ (if is_status c failed then 400 else 409))
unfolding instruct instruct_loaded
instruct_refused cipher k prompt w x c e at s refused =
    let status = loaded-status cipher (w.result k) x.hash c s in
    (rw (get_session-up cipher k w x at, status, refused) refl, refusal_status c e refused)

pub up_lem : (w : World) → w.faults ≡ [] → up w ≡ w
up_lem w h = λ i. record w { faults = sym h i }

pub get_session_row :
    (cipher : Cipher) (k : String) (w : World) (rows : List Row) (t : Session)
    → w.state k ≡ none
    → w.sqlite ≡ some rows
    → Sqlite.find_row k rows ≡ some t
    → get_session cipher k (up w) ≡ (ok t, up w)
unfolding get_session
get_session_row cipher k w rows t e s f =
    rw (e, get_entry) (rw (s, get_row) (rw (f, row_or_missing)))

pub get_session_calm :
    (cipher : Cipher) (k : String) (w : World) (x : Entry)
    → w.faults ≡ []
    → w.state k ≡ some x
    → (get_session cipher k w).0 ≡ ok (loaded cipher (w.result k) x.hash)
get_session_calm cipher k w x calm e =
    ap (λ v. (get_session cipher k v).0) (sym (up_lem w calm))
    ∙ ap (λ p. p.0) (get_session-up cipher k w x e)

pub partial_session :
    (cipher : Cipher) (r : Option String) (prompt : String) (n now : ℕ)
    → let u = loaded cipher r (instruct_fields prompt n now empty_hash) in
      (u.status ≡ awaiting_instruction) × (u.id ≡ "") × (u.repo_url ≡ "") × (u.prompt ≡ "")
unfolding revealed hash_to_session
partial_session cipher none prompt n now = (refl, refl, refl, refl)
partial_session cipher (some r) prompt n now = (refl, refl, refl, refl)

no_session : String → Error
no_session k = not_found ("session " <> k <> " not found")

get_session_nowhere :
    (cipher : Cipher) (k : String) (w : World)
    → w.state k ≡ none
    → w.sqlite ≡ none
    → get_session cipher k (up w) ≡ (err (no_session k), up w)
unfolding get_session no_session
get_session_nowhere cipher k w e s = rw (e, get_entry) (rw (s, get_row) refl)

get_session_no_row :
    (cipher : Cipher) (k : String) (w : World) (rows : List Row)
    → w.state k ≡ none
    → w.sqlite ≡ some rows
    → Sqlite.find_row k rows ≡ none
    → get_session cipher k (up w) ≡ (err (no_session k), up w)
unfolding get_session no_session
get_session_no_row cipher k w rows e s f =
    rw (e, get_entry) (rw (s, get_row) (rw (f, row_or_missing) refl))

-- Get where Redis and SQLite answer: it changes nothing, and the status that it finds is the stored
-- one, or none is stored.
pub get_session_answers :
    (cipher : Cipher) (k : String) (w : World)
    → ((e : Error) × (get_session cipher k (up w) ≡ (err e, up w)) × (status_at w k ≡ none))
      ⊎ ((t : Session) × (get_session cipher k (up w) ≡ (ok t, up w))
          × ((status_at w k ≡ some t.status) ⊎ (status_at w k ≡ none)))
get_session_answers cipher k w = elim (Option-cases (w.state k)) [
  | inl e ↦ elim (Option-cases w.sqlite) [
    | inl s ↦ inl (no_session k, get_session_nowhere cipher k w e s, ap entry_status e)
    | inr (rows, s) ↦ elim (Option-cases (Sqlite.find_row k rows)) [
      | inl f ↦ inl (no_session k, get_session_no_row cipher k w rows e s f, ap entry_status e)
      | inr (t, f) ↦ inr (t, get_session_row cipher k w rows t e s f, inr (ap entry_status e))
    ]
  ]
  | inr (x, e) ↦ elim (Option-cases x.hash.status) [
    | inl n ↦ inr (_, get_session-up cipher k w x e, inr (ap entry_status e ∙ n))
    | inr (c, h) ↦ inr (
      _,
      get_session-up cipher k w x e,
      inl (ap entry_status e ∙ h ∙ ap some (sym (loaded-status cipher (w.result k) x.hash c h))),
    )
  ]
]
