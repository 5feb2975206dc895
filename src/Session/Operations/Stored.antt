-- ===== src/Session/Operations/Stored.antt =====
-- What Create leaves behind, whichever calls fail.
use codeforge.Session.Sqlite
use codeforge.Session.Status.{pending}
use codeforge.Session.World.Rules.{Ensures, reach_rule}
use codeforge.Session.Model.{Session}
use codeforge.Prelude.{
  contains, ap, ◌∙◌, sym, ◌≡◌, refl, String, true, false, Option, some, List, [], ◌∷◌, ◌++◌, arith,
  eq_refl,
}
use codeforge.Session.World.{
  Row, written, faults_after, status_at, faults_after, Row, up, World, Result, ok,
}
use codeforge.Session.Service.{Cipher, CreateSessionRequest, Draws, session_to_hash, new_session}
use codeforge.Session.Creating.{add_to_index, create, store_new}
use codeforge.Session.Operations.Creation.{create_stores}

contains-add_to_index : (k : String) (xs : List String) → contains (add_to_index k xs) k ≡ true
contains-add_to_index k [] = rw (eq_refl k) refl
contains-add_to_index k (x ∷ xs) = ground (arith, contains-add_to_index k xs)

-- What a stored session has become.
abbrev Stored : World → Session → Result Session → World → Type 0
Stored w s r w' =
    (t : Session)
    → r ≡ ok t
    → (s ≡ t)
      × (status_at w' s.id ≡ some s.status)
      × (w'.queue ≡ w.queue ++ s.id ∷ [])
      × (contains w'.index s.id ≡ true)

store_new-Stored :
    (s : Session) (token key : Option String) (w : World)
    → Ensures (store_new s token key) w (Stored w s)
unfolding store_new session_to_hash
store_new-Stored s token key w =
    reach_rule _ _ w (Stored w s) (λ fs t h. absurd (cc))
      λ fs t h. (cc, rw (eq_refl s.id), refl, contains-add_to_index s.id w.index)

-- A Create that returns a session, whatever calls fail, has stored it as pending under its new id
-- and put the id at the end of the queue and into the index.
pub create_pending :
    (cipher : Cipher) (req : CreateSessionRequest) (draws : Draws) (w : World) (t : Session)
    → (create cipher req draws w).0 ≡ ok t
    → let w' = (create cipher req draws w).1 in
      (t.id ≡ draws.id)
      × (t.status ≡ pending)
      × (t.iteration ≡ 1)
      × (status_at w' draws.id ≡ some pending)
      × (w'.queue ≡ w.queue ++ draws.id ∷ [])
      × (contains w'.index draws.id ≡ true)
create_pending cipher req draws w t h =
    let (prompt, token, key, _, _, _, e) = create_stores cipher req draws w t h in
    let s = new_session req prompt draws.id w.now in
    let (same, status, queue, index) =
      store_new-Stored s token key w t (ap (λ p. p.0) (sym e) ∙ h) in
    rw e (
      ap (λ u. u.id) (sym same),
      ap (λ u. u.status) (sym same),
      ap (λ u. u.iteration) (sym same),
      status,
      queue,
      index,
    )

-- A session belongs to the tenant of the request.
pub tenant_id-create :
    (cipher : Cipher) (req : CreateSessionRequest) (draws : Draws) (w : World) (t : Session)
    → (create cipher req draws w).0 ≡ ok t
    → t.tenant_id ≡ req.tenant_id
tenant_id-create cipher req draws w t h =
    let (prompt, token, key, _, _, _, e) = create_stores cipher req draws w t h in
    let s = new_session req prompt draws.id w.now in
    ap (λ u. u.tenant_id) (sym (store_new-Stored s token key w t (ap (λ p. p.0) (sym e) ∙ h)).0)

-- What a create leaves in SQLite where every call works.
pub sqlite-create :
    (cipher : Cipher) (req : CreateSessionRequest) (draws : Draws) (w : World) (rows : List Row)
    (t : Session)
    → w.sqlite ≡ some rows
    → (create cipher req draws (up w)).0 ≡ ok t
    → let w' = (create cipher req draws (up w)).1 in
      (w'.sqlite ≡ some (Sqlite.save w.now t rows)) × (t.pr_number ≡ 0) × (w'.faults ≡ [])
unfolding store_new
sqlite-create cipher req draws w rows t there h =
    let (prompt, token, key, _, _, _, e) = create_stores cipher req draws (up w) t h in
    let s = new_session req prompt draws.id w.now in
    let same = (store_new-Stored s token key (up w) t (ap (λ p. p.0) (sym e) ∙ h)).0 in
    rw e (
      ap (written false (Sqlite.save w.now s)) there
          ∙ ap (λ u. some (Sqlite.save w.now u rows)) same,
      ap (λ u. u.pr_number) (sym same),
      ap (faults_after []) there,
    )
