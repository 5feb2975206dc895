-- ===== src/Server/Auth/Identity.antt =====
-- Whom authentication takes a request for.
use codeforge.Prelude.{
  ◌≡◌, refl, sym, ap, ◌∙◌, String, true, false, Option, none, some, eq_iff, subst, Bool-cases, inl,
  inr, Option-cases, if◌then◌else◌, ◌=s◌,
}
use text.Mathlib.Text.{starts_with}
use codeforge.Session.World.{World, Result, ok, up}
use codeforge.Tenant.{Tenant, Tables, tenant_with_hash, get_tenant_by_token_hash}
use codeforge.Server.Auth.{
  Access, operator, as_tenant, unauthorized, trim_prefix, tenant_auth, look_up, operator_only,
  passes, tenant_of, forbidden,
}

abbrev from : Option Tenant → Access
from none = unauthorized
from (some t) = as_tenant t

module _ (operator_token : String) (hash : String → String) (db : Tables) (auth : String)
    (w : World) where
  abbrev token : String
  token = trim_prefix auth "Bearer "

  -- A bearer token that is the operator's, which is set.
  abbrev pub IsOperator : Type 0
  IsOperator =
      ((auth =s token) ≡ false)
      × ((token =s operator_token) ≡ true)
      × ((operator_token =s "") ≡ false)

  -- A bearer token of the tenants' form whose hash a tenant has, and which is not the operator's.
  abbrev pub IsTenant : Tenant → Type 0
  IsTenant t =
      ((auth =s token) ≡ false)
      × ((token =s operator_token) ≡ false)
      × (starts_with token "cfk_" ≡ true)
      × (tenant_with_hash (hash token) db.tenants ≡ some t)

  not_empty :
      (token =s operator_token) ≡ true → (operator_token =s "") ≡ false → (token =s "") ≡ false
  not_empty same set = rw (← (ap (λ t. t =s "") (sym ((eq_iff token operator_token).0 same)))) set

  look_up_lem :
      (look_up hash (some db) token (up w)).0
      ≡ ok (
          if starts_with token "cfk_"
          then from (tenant_with_hash (hash token) db.tenants)
          else unauthorized)
  unfolding get_tenant_by_token_hash
  look_up_lem = elim (Bool-cases (starts_with token "cfk_")) [
    | inr e ↦ rw e refl
    | inl e ↦ elim (Option-cases (tenant_with_hash (hash token) db.tenants)) [
      | inl f ↦ rw (e, f) refl
      | inr (t, f) ↦ rw (e, f) refl
    ]
  ]

  abbrev Answer : Result Access
  Answer = (tenant_auth operator_token hash (some db) auth (up w)).0

  -- What must hold of a request that is taken for someone.
  abbrev pub Entitled : Access → Type 0
  Entitled operator = IsOperator
  Entitled (as_tenant t) = IsTenant t
  Entitled unauthorized = Unit {0}

  settled : (x a : Access) → Answer ≡ ok x → Answer ≡ ok a → Entitled x → Entitled a
  settled x a here h entitled = subst Entitled (same (sym here ∙ h)) entitled
    where
      same : ok x ≡ ok a → x ≡ a
      same e = cc

  refused : (a : Access) → Answer ≡ ok unauthorized → Answer ≡ ok a → Entitled a
  refused a here h = settled unauthorized a here h tt

  looked_up :
      (a : Access)
      → (auth =s token) ≡ false
      → (token =s operator_token) ≡ false
      → Answer ≡ (look_up hash (some db) token (up w)).0
      → Answer ≡ ok a
      → Entitled a
  looked_up a bearer other here h = elim (Bool-cases (starts_with token "cfk_")) [
    | inr e ↦ refused a (here ∙ look_up_lem ∙ rw e refl) h
    | inl e ↦ elim (Option-cases (tenant_with_hash (hash token) db.tenants)) [
      | inl f ↦ refused a (here ∙ look_up_lem ∙ rw (e, f) refl) h
      | inr (t, f) ↦
          settled (as_tenant t) a (here ∙ look_up_lem ∙ rw (e, f) refl) h (bearer, other, e, f)
    ]
  ]

  other_token :
      (token =s "") ≡ false → (operator_token =s "") ≡ true → (token =s operator_token) ≡ false
  other_token filled unset =
      rw (← (ap (λ t. token =s t) (sym ((eq_iff operator_token "").0 unset)))) filled

  entitled : (a : Access) → Answer ≡ ok a → Entitled a
  unfolding tenant_auth
  entitled a h = elim (Bool-cases (auth =s token)) [
    | inl e ↦ refused a (rw (Answer, e) refl) h
    | inr e ↦ elim (Bool-cases (token =s "")) [
      | inl f ↦ refused a (rw (Answer, e, f) refl) h
      | inr f ↦ elim (Bool-cases (operator_token =s "")) [
        | inl g ↦ looked_up a e (other_token f g) (rw (Answer, e, f, g) refl) h
        | inr g ↦ elim (Bool-cases (token =s operator_token)) [
          | inl k ↦ settled operator a (rw (Answer, e, f, g, k) refl) h (e, k, g)
          | inr k ↦ looked_up a e k (rw (Answer, e, f, g, k) refl) h
        ]
      ]
    ]
  ]

  -- With a database that answers, TenantAuth takes a request only for the operator's whose bearer
  -- token is the operator's, which is set, and only for a tenant's whose bearer token is another one
  -- of the tenants' form with this tenant's hash; and it does take the operator's token for the
  -- operator's. So what OperatorOnly lets through behind it has the operator's token.
  pub tenant_auth_lem :
      ((a : Access) → Answer ≡ ok a → Entitled a)
      × (IsOperator → Answer ≡ ok operator)
      × ((a : Access)
          → Answer ≡ ok a
          → (a ≡ unauthorized → ⊥)
          → operator_only (tenant_of a) ≡ passes
          → IsOperator)
  unfolding tenant_auth operator_only
  tenant_auth_lem = (
    entitled,
    (λ h. rw (Answer, h.0, not_empty h.1 h.2, h.1, h.2) refl),
    λ a h known gate. only_operator a known gate (entitled a h),
  )
    where
      only_operator :
          (a : Access)
          → (a ≡ unauthorized → ⊥)
          → operator_only (tenant_of a) ≡ passes
          → Entitled a
          → IsOperator
      only_operator operator known gate e = e
      only_operator (as_tenant t) known gate e = absurd (differ gate)
        where
          differ : forbidden ≡ passes → ⊥
          differ g = cc
      only_operator unauthorized known gate e = absurd (known refl)
