-- ===== src/Git/Provider/Names.antt =====
-- The parts of a repository's URL.
use codeforge.Prelude.{
  ℕ, ◌≡◌, refl, sym, ap, ◌∙◌, Option, none, some, [], ◌∷◌, ◌++◌, Bool-cases, inl, inr, arith, ◌==◌,
  option_or,
}
use codeforge.Prelude.Bytes.{Bytes}
use codeforge.Git.Provider.{
  RepoUrl, slash, full_name, cut, cut_later, owner_of, parts, repo_path, repo_of, parse_repo_url,
}

abbrev Joined : Option (Bytes × Bytes) → Bytes → Type 0
Joined none s = Unit
Joined (some (a, b)) s = a ++ (slash ∷ b) ≡ s

cut_later-Joined :
    (c : ℕ) (o : Option (Bytes × Bytes)) (s : Bytes) → Joined o s → Joined (cut_later c o) (c ∷ s)
cut_later-Joined c none s h = tt
cut_later-Joined c (some (a, b)) s h = ap (λ t. c ∷ t) h

cut-Joined : (s : Bytes) → Joined (cut s) s
cut-Joined [] = tt
cut-Joined (c ∷ cs) = elim (Bool-cases (c == slash)) [
  | inl e ↦ let same : slash ≡ c = ground arith in rw e (ap (λ x. x ∷ cs) same)
  | inr e ↦ rw e (cut_later-Joined c (cut cs) cs (cut-Joined cs))
]

append_assoc : (a b c : Bytes) → (a ++ b) ++ c ≡ a ++ (b ++ c)
append_assoc [] b c = refl
append_assoc (x ∷ a) b c = ap (λ t. x ∷ t) (append_assoc a b c)

owner_of-Joined :
    (first rest : Bytes) (o : Option (Bytes × Bytes))
    → Joined o rest
    → let (owner, repo) = owner_of first rest o in owner ++ (slash ∷ repo) ≡ first ++ (slash ∷ rest)
owner_of-Joined first rest none h = refl
owner_of-Joined first rest (some (second, third)) h =
    append_assoc first (slash ∷ second) (slash ∷ third) ∙ ap (λ t. first ++ (slash ∷ t)) h

parts-Joined : (o : Option (Bytes × Bytes)) (s : Bytes) → Joined o s → Joined (parts o) s
parts-Joined none s h = tt
parts-Joined (some (first, rest)) s h = owner_of-Joined first rest (cut rest) (cut-Joined rest) ∙ h

repo_of-Joined :
    (host : Bytes) (domains : Bytes → Option Bytes) (o : Option (Bytes × Bytes)) (s : Bytes)
    (r : RepoUrl)
    → Joined o s
    → repo_of host domains o ≡ some r
    → full_name r ≡ s
unfolding full_name
repo_of-Joined host domains none s r h e = absurd (cc)
repo_of-Joined host domains (some (owner, repo)) s r h e =
    sym (ap (λ o. full_name (option_or o r)) e) ∙ h

-- Where ParseRepoURL finds an owner and a repository, FullName gives the path of the URL back, less
-- the slashes around it and the suffix `.git`: for any depth of subgroups.
pub full_name-parse_repo_url :
    (domains : Bytes → Option Bytes) (host path : Bytes) (r : RepoUrl)
    → parse_repo_url domains (some (host, path)) ≡ some r
    → full_name r ≡ repo_path path
unfolding parse_repo_url
full_name-parse_repo_url domains host path r e =
    repo_of-Joined host domains (parts (cut (repo_path path))) (repo_path path) r
      (parts-Joined (cut (repo_path path)) (repo_path path) (cut-Joined (repo_path path))) e
