-- ===== src/Keys/Order.antt =====
-- The order in which a token is looked for.
use codeforge.Prelude.{
  ◌≡◌, refl, String, not, Option, none, some, List, [], ◌∷◌, Bool-cases, inl, inr, if◌then◌else◌,
  ◌=s◌,
}
use codeforge.Apperror.{Error}
use codeforge.Session.World.{World, Result, ok, err, pure}
use codeforge.Prelude.Bytes.{Bytes}
use codeforge.Git.Provider.{Provider, parse_repo_url}
use codeforge.Keys.Environment.{Registry, variable, env_resolve}
use codeforge.Keys.Resolver.{
  variables_of, provider_text, no_token, no_repo, provider_in, or_no_token, or_environment,
  by_provider, resolve_token,
}

-- The first of several tokens that is there.
abbrev pub first_some : List (Option String) → Option String
first_some [] = none
first_some (none ∷ os) = first_some os
first_some (some t ∷ os) = some t

abbrev pub answered : Result String → Option String
answered (ok token) = some token
answered (err e) = none

-- The key that a request names, as the registry answers for it.
abbrev pub registered : Registry → Provider → String → World → Option String
registered reg p key w =
    if key =s "" then none else answered (env_resolve reg (provider_text p) key w).0

abbrev pub or_error : Error → Option String → Result String
or_error e none = err e
or_error e (some t) = ok t

or_no_token_lem :
    (url : String) (p : Provider) (o : Option String) (w : World)
    → (or_no_token url p o w).0 ≡ or_error (no_token url p) (first_some (o ∷ []))
or_no_token_lem url p none w = refl
or_no_token_lem url p (some t) w = refl

behind_registry :
    (reg : Registry) (url : String) (p : Provider) (r : Result String) (w : World)
    → (or_environment reg url p r w).0
      ≡ or_error (no_token url p) (first_some (answered r ∷ variables_of reg.getenv p ∷ []))
behind_registry reg url p (ok token) w = refl
behind_registry reg url p (err e) w = or_no_token_lem url p (variables_of reg.getenv p) w

by_provider_lem :
    (reg : Registry) (e : Error) (url key : String) (p : Provider) (w : World)
    → (by_provider reg e url key (some p) w).0
      ≡ or_error
          (no_token url p)
          (first_some (registered reg p key w ∷ variables_of reg.getenv p ∷ []))
by_provider_lem reg x url key p w = elim (Bool-cases (key =s "")) [
  | inl e ↦ rw e (or_no_token_lem url p (variables_of reg.getenv p) w)
  | inr e ↦ rw e (
      behind_registry reg url p (env_resolve reg (provider_text p) key w).0
        (env_resolve reg (provider_text p) key w).1)
]

-- The answer, by the provider of the repository in the URL, if there is one.
abbrev pub answer_for :
    Registry → Error → String → String → String → World → Option Provider → Result String
answer_for reg e url token key w none = or_error e (first_some (variable token ∷ []))
answer_for reg e url token key w (some p) =
    or_error (no_token url p)
      (first_some (variable token ∷ registered reg p key w ∷ variables_of reg.getenv p ∷ []))

-- ResolveToken answers, whichever queries fail, with the first that is there of: the token of the
-- request, the key that it names as the registry answers for it, and the variables of the
-- environment for the provider that ParseRepoURL finds; and with an error that names these variables
-- if there is none. Where ParseRepoURL fails, it answers with the token of the request, or with an
-- error that names the URL or says that it is none.
pub resolve_token_lem :
    (reg : Registry) (domains : Bytes → Option Bytes) (parsed : Option (Bytes × Bytes))
    (url token key : String) (w : World)
    → (resolve_token reg domains parsed url token key w).0
      ≡ answer_for reg
          (no_repo url parsed)
          url
          token
          key
          w
          (provider_in (parse_repo_url domains parsed))
unfolding resolve_token
resolve_token_lem reg domains parsed url token key w =
    go (provider_in (parse_repo_url domains parsed))
  where
    go :
        (o : Option Provider)
        → ((if not (token =s "")
              then pure token
              else by_provider reg (no_repo url parsed) url key o)
            w).0
          ≡ answer_for reg (no_repo url parsed) url token key w o
    go none = elim (Bool-cases (token =s "")) [ inl e ↦ rw e refl | inr e ↦ rw e refl ]
    go (some p) = elim (Bool-cases (token =s "")) [
      | inr e ↦ rw e refl
      | inl e ↦ rw e (by_provider_lem reg (no_repo url parsed) url key p w)
    ]
