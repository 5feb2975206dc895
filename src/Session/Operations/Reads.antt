-- ===== src/Session/Operations/Reads.antt =====
-- What the operations of the service read of a stored session, and the safety of UpdateStatus.
use codeforge.Prelude.{◌≡◌, refl, ap, sym, ◌∙◌, String, Bool, Option, none, some, List, arith}
use codeforge.Apperror.{Error}
use codeforge.Session.Status.{
  Status, completed, awaiting_instruction, pr_created, validate_transition,
}
use codeforge.Session.Status.Graph.{
  instruct_pr, instruct as instruct_edge, ◌⟶*◌, here, step, validate_transition_iff,
}
use codeforge.Session.Model.{Session}
use codeforge.Session.World.{
  Hash, Entry, World, Row, Result, ok, err, hset, status_at, entry_status,
}
use codeforge.Session.World.Rules.{
  Ensures, with_faults, reach_rule, persist_last, require_rule, bind_rule,
}
use codeforge.Session.World.Statuses.{
  Moved-edge, Keeps, IsSafe, Keeps-refl, status_at-set_ttl, Moved-hset,
}
use codeforge.Session.Sqlite
use codeforge.Session.Service.{Cipher, Settings, hash_to_session}
use codeforge.Session.Operations.{
  starts, finishes, when, status_fields, idle_ttl, expire_for, update_status, instruct_refusal,
}
use codeforge.Session.Loading.{
  status_or_missing, read_status, with_result, revealed, row_or_missing, get_row, get_entry,
  get_session,
}

pub some-eq : {a b : Status} → some a ≡ some b → a ≡ b
some-eq h = cc

-- What `read_status` finds.
abbrev pub Read : String → World → Result Status → World → Type 0
Read k w (ok c) w' = (fs : List Bool) × (w' ≡ with_faults fs w) × (status_at w k ≡ some c)
Read k w (err e) w' = (fs : List Bool) × (w' ≡ with_faults fs w)

pub read_status-Read : (e : Error) (k : String) (w : World) → Ensures (read_status e k) w (Read k w)
unfolding read_status
read_status-Read e k w =
    reach_rule e _ w (Read k w) (λ fs. (fs, refl)) (λ fs. go fs (status_at w k) refl)
  where
    go :
        (fs : List Bool) (s : Option Status)
        → status_at w k ≡ s
        → Ensures (status_or_missing k (status_at w k)) (with_faults fs w) (Read k w)
    go fs none h = rw h (fs, refl)
    go fs (some c) h = rw h (fs, refl, h)

pub status_at-expire_for :
    (cfg : Settings) (s : Status) (k : String) (w : World) (j : String)
    → status_at (expire_for cfg s k w) j ≡ status_at w j
status_at-expire_for cfg s k w j = ground (
  arith,
  status_at-set_ttl k (some cfg.state_ttl) w j,
  status_at-set_ttl k (some (idle_ttl cfg.state_ttl)) w j,
)

pub update_status-IsSafe :
    (cfg : Settings) (k : String) (s : Status) → IsSafe (update_status cfg k s)
unfolding update_status
update_status-IsSafe cfg k s w =
    bind_rule (read_status _ k) _ w (Read k w) (Keeps w) (read_status-Read _ k w)
      (λ e w' (fs, same). rw same (Keeps-refl w))
      λ c w' (fs, same, found). rw same (
        require_rule (validate_transition c s) _ (with_faults fs w) (Keeps w) (λ e h. Keeps-refl w)
          λ valid.
            reach_rule _ _ (with_faults fs w) (Keeps w) (λ fs'. Keeps-refl w)
              λ fs'.
                let w₁ : World = hset k (status_fields s w.now) (with_faults fs' w) in
                persist_last
                  (Sqlite.update_status w.now k s (when (starts s) w.now) (when (finishes s) w.now))
                  (expire_for cfg s k w₁) (Keeps w)
                  λ rows fs'' j. rw (status_at-expire_for cfg s k w₁ j) (
                    Moved-hset k (status_fields s w.now) (with_faults fs' w)
                      (Moved-edge (status_at w k) c s found ((validate_transition_iff c s).0 valid))
                      j))

-- What `get_session` finds: the status is the stored one, where one is stored.
abbrev pub Loaded : String → World → Result Session → World → Type 0
Loaded k w (ok t) w' =
    (fs : List Bool) × (w' ≡ with_faults fs w)
    × ((c : Status) → status_at w k ≡ some c → t.status ≡ c)
Loaded k w (err e) w' = (fs : List Bool) × (w' ≡ with_faults fs w)

pub status-revealed :
    (cipher : Cipher) (h : Hash) (c : Status) → h.status ≡ some c → (revealed cipher h).status ≡ c
unfolding revealed hash_to_session
status-revealed cipher h c e = ground arith

pub status-with_result :
    (a : Result (Unit {0})) (r : Option String) (t : Session)
    → (with_result a r t).status ≡ t.status
status-with_result (err _) r t = refl
status-with_result (ok _) none t = refl
status-with_result (ok _) (some _) t = refl

pub get_session-Loaded :
    (cipher : Cipher) (k : String) (w : World) → Ensures (get_session cipher k) w (Loaded k w)
unfolding get_session
get_session-Loaded cipher k w =
    reach_rule _ _ w (Loaded k w) (λ fs. (fs, refl)) λ fs. found fs (w.state k) refl
  where
    row :
        (fs : List Bool) (o : Option Session)
        → w.state k ≡ none
        → Ensures (row_or_missing k o) (with_faults fs w) (Loaded k w)
    row fs none e = (fs, refl)
    row fs (some t) e = (fs, refl, λ c h. cc (ap entry_status e))

    rows :
        (fs : List Bool) (o : Option (List Row))
        → w.state k ≡ none
        → Ensures (get_row k o) (with_faults fs w) (Loaded k w)
    rows fs none e = (fs, refl)
    rows fs (some rs) e =
        reach_rule _ (row_or_missing k (Sqlite.find_row k rs)) (with_faults fs w) (Loaded k w)
          (λ fs'. (fs', refl)) λ fs'. row fs' (Sqlite.find_row k rs) e

    found :
        (fs : List Bool) (o : Option Entry)
        → w.state k ≡ o
        → Ensures (get_entry cipher k o) (with_faults fs w) (Loaded k w)
    found fs none e = rows fs w.sqlite e
    found fs (some x) e = (
      _,
      refl,
      λ c h.
          status-with_result _ (w.result k) (revealed cipher x.hash)
          ∙ status-revealed cipher x.hash c (sym (ap entry_status e) ∙ h),
    )

pub instruct_path : (c : Status) → instruct_refusal c ≡ none → c ⟶* awaiting_instruction
instruct_path completed h = step instruct_edge here
instruct_path pr_created h = step instruct_pr here
instruct_path awaiting_instruction h = here
instruct_path _ h = absurd (cc)
