-- ===== src/Server/Sessions/Ownership.antt =====
-- Whose sessions a tenant reaches.
use codeforge.Prelude.{
  ◌≡◌, ◌≢◌, refl, sym, ap, ◌∙◌, subst, String, true, false, not, none, some, List, [], ◌∷◌,
  Bool-cases, eq_iff, inl, inr, ◌=s◌,
}
use codeforge.Apperror.{http_status}
use codeforge.Session.Model.{Session}
use codeforge.Session.World.{World, Result, ok, err, up}
use codeforge.Session.Service.{CreateSessionRequest, Draws}
use codeforge.Server.Sessions.Calm.{apply_limits-IsCalm}
use codeforge.Session.Creating.{create}
use codeforge.Session.Loading.{get_session}
use codeforge.Session.Operations.Creation.{get_session-create, IsInvertible}
use codeforge.Session.Operations.Stored.{tenant_id-create}
use codeforge.Tenant.{Tenant, Tables}
use codeforge.Server.Http.{
  Handler, Response, Step, go, answered, ◌>>=◌, ◌>>◌, give, refuse_if, call, or_error, app_body,
  as_app_error, of_session,
}
use codeforge.Server.Sessions.{with_tables, SessionHandler, apply_limits, apply_tenant}
use codeforge.Server.Sessions.Handlers.{
  check_fields, check_type, check_pr_number, check_cli, config_cli, ownership, no_session,
  create_session, check_request,
}
use codeforge.Server.Sessions.Limits.{apply_limits-IsWithinLimits}
use codeforge.Server.Sessions.Checks.{refuse_if-go, >>=-go}

-- What a tenant is told whose session is missing or another's: the error, or the same 404.
abbrev pub refusal : Result Session → Response
refusal (ok t) = record { status = 404; body = no_session }
refusal (err e) = record { status = http_status e; body = app_body (as_app_error e) }

abbrev pub IsOwn : Tenant → Result Session → Type 0
IsOwn tnt (ok t) = t.tenant_id ≡ tnt.id
IsOwn tnt (err e) = ⊥

-- For a tenant the handler behind OwnershipMiddleware runs if the session that Get finds belongs to
-- the tenant, from the World that Get leaves; if there is no such session, or another's, the answer
-- is the refusal, whichever handler is behind.
pub ownership_lem :
    {A : Type 0} (env : SessionHandler) (tnt : Tenant) (k : String) (next : Handler A) (w : World)
    → (k =s "") ≡ false
    → let found = get_session env.cipher k w in
      (IsOwn tnt found.0 → ownership env (some tnt) k next w ≡ next found.1)
      × ((IsOwn tnt found.0 → ⊥)
          → ownership env (some tnt) k next w ≡ (answered (refusal found.0), found.1))
unfolding ownership
ownership_lem {A} env tnt k next w known = rw known (split (get_session env.cipher k w).0)
  where
    differ : false ≡ true → ⊥
    differ h = cc

    v : World
    v = (get_session env.cipher k w).1

    guarded : Result Session → Step A × World
    guarded r =
        (or_error r >>= λ t. refuse_if (not (t.tenant_id =s tnt.id)) 404 no_session >> next) v

    split :
        (r : Result Session)
        → (IsOwn tnt r → guarded r ≡ next v)
          × ((IsOwn tnt r → ⊥) → guarded r ≡ (answered (refusal r), v))
    split (err e) = ((λ own. absurd own), λ _. refl)
    split (ok t) = elim (Bool-cases (t.tenant_id =s tnt.id)) [
      | inl e ↦ ((λ _. rw e refl), λ other. absurd (other ((eq_iff t.tenant_id tnt.id).0 e)))
      | inr e ↦
          ((λ own. absurd (differ (sym e ∙ (eq_iff t.tenant_id tnt.id).1 own))), λ _. rw e refl)
    ]

check_fields-go :
    (fs : List (String × String)) (w w' : World) → check_fields fs w ≡ (go tt, w') → w ≡ w'
check_fields-go [] w w' h = ap (λ p. p.1) h
check_fields-go (f ∷ fs) w w' h = absurd (cc)

check_request-go :
    (env : SessionHandler) (req : CreateSessionRequest) (w w' : World)
    → check_request env req w ≡ (go tt, w')
    → w ≡ w'
unfolding check_request
check_request-go env req w w' h =
    let (_, v₁, h₁, k₁) =
      >>=-go (check_fields (env.invalid_fields req))
        (λ _. check_type req >> (check_pr_number req >> check_cli env (config_cli req.config))) w
        h in
    let (_, v₂, h₂, k₂) =
      >>=-go (check_type req) (λ _. check_pr_number req >> check_cli env (config_cli req.config)) v₁
        k₁ in
    let (_, v₃, h₃, k₃) =
      >>=-go (check_pr_number req) (λ _. check_cli env (config_cli req.config)) v₂ k₂ in
    check_fields-go (env.invalid_fields req) w v₁ h₁
    ∙ (refuse_if-go _ 400 _ v₁ v₂ h₂).1
    ∙ (refuse_if-go _ 400 _ v₂ v₃ h₃).1
    ∙ (refuse_if-go _ 400 _ v₃ w' k₃).1

-- The end of a create.
answered_session :
    (r : Result Session) (v w' : World) (reply : Response)
    → (or_error r >>= λ t. give (record { status = 201; body = of_session t })) v ≡ (go reply, w')
    → (t : Session) × (r ≡ ok t) × (v ≡ w')
answered_session (ok t) v w' reply h = (t, refl, ap (λ p. p.1) h)
answered_session (err e) v w' reply h = absurd (cc)

-- Where every call works, with a tenant service, a cipher that takes back what it made and a new id
-- that is not empty and has no stored result: OwnershipMiddleware lets the tenant that has created a
-- session through to any handler behind it, and answers every other tenant with the 404 of a session
-- that is not found, whichever handler is behind.
pub create_session-IsOwn :
    {A : Type 0} (env : SessionHandler) (db : Tables) (tnt : Tenant) (req : CreateSessionRequest)
    (draws : Draws) (w w' : World) (reply : Response)
    → env.tables ≡ some db
    → IsInvertible env.cipher
    → w.result draws.id ≡ none
    → (draws.id =s "") ≡ false
    → create_session env (some tnt) (some req) draws (up w) ≡ (go reply, w')
    → (other : Tenant) (next : Handler A)
    → let v = (get_session env.cipher draws.id w').1 in
      (tnt.id ≡ other.id → ownership env (some other) draws.id next w' ≡ next v)
      × (tnt.id ≢ other.id
          → ownership env (some other) draws.id next w'
            ≡ (answered (record { status = 404; body = no_session }), v))
unfolding create_session apply_tenant
create_session-IsOwn {A} env db tnt req draws w w' reply served law fresh named h other next =
    let rest : CreateSessionRequest → Handler Response = λ admitted.
      call (create env.cipher admitted draws) >>= λ answer.
      or_error answer >>= λ t. give (record { status = 201; body = of_session t }) in
    let (_, v₁, h₁, k₁) =
      >>=-go (check_request env req) (λ _. apply_tenant env tnt req >>= rest) (up w) h in
    let at : v₁ ≡ up w = sym (check_request-go env req (up w) v₁ h₁) in
    let behind : (apply_limits env db tnt req >>= rest) (up w) ≡ (go reply, w') =
      ap (λ m. (m >>= rest) (up w)) (sym (ap (with_tables env tnt req) served))
      ∙ ap (λ v. (apply_tenant env tnt req >>= rest) v) (sym at)
      ∙ k₁ in
    let (admitted, v₂, h₂, k₂) = >>=-go (apply_limits env db tnt req) rest (up w) behind in
    let calm : v₂ ≡ up w = ap (λ p. p.1) (sym h₂) ∙ apply_limits-IsCalm env db tnt req w in
    let owned : admitted.tenant_id ≡ tnt.id =
      (apply_limits-IsWithinLimits env db tnt req admitted (up w) v₂ h₂).owned in
    let (t, made, left) =
      answered_session (create env.cipher admitted draws v₂).0
        (create env.cipher admitted draws v₂).1 w' reply k₂ in
    let created : (create env.cipher admitted draws (up w)).0 ≡ ok t =
      ap (λ v. (create env.cipher admitted draws v).0) (sym calm) ∙ made in
    let after : (create env.cipher admitted draws (up w)).1 ≡ w' =
      ap (λ v. (create env.cipher admitted draws v).1) (sym calm) ∙ left in
    let read : (get_session env.cipher draws.id w').0 ≡ ok t =
      ap (λ v. (get_session env.cipher draws.id v).0) (sym after)
      ∙ get_session-create env.cipher admitted draws w t law fresh created in
    let mine : t.tenant_id ≡ tnt.id =
      tenant_id-create env.cipher admitted draws (up w) t created ∙ owned in
    let (passes, stops) = ownership_lem env other draws.id next w' named in
    let v : World = (get_session env.cipher draws.id w').1 in
    (
      (λ same. passes (subst (IsOwn other) (sym read) (mine ∙ same))),
      λ apart.
          stops (λ own. apart (sym mine ∙ subst (IsOwn other) read own))
          ∙ ap (λ r. (answered (refusal r), v)) read,
    )
