-- ===== src/Git/Provider.antt =====
-- internal/tool/git/provider.go and branch.go: repositories by their URLs, and names of branches.
--
-- A text is its bytes. url.Parse is a parameter, which gives the lower-case host and the path.
pub mod Names
mod Tests
use codeforge.Prelude.{
  ℕ, zero, suc, Bool, true, false, ◌||◌, Option, none, some, List, [], ◌∷◌, ◌++◌, if◌then◌else◌,
  ◌==◌, length, String, ◌=s◌, ◌<>◌,
}
use codeforge.Prelude.Int.{pos}
use codeforge.Prelude.Decimal.{decimal}
use codeforge.Prelude.Bytes.{Bytes, codes, has_prefix, same, lower}

pub data Provider : Type 0 where
  github : Provider
  gitlab : Provider
  unknown : Provider

pub record RepoUrl : Type 0 where
  pub provider : Provider
  pub host : Bytes
  pub owner : Bytes
  pub repo : Bytes

abbrev pub slash : ℕ
slash = 47

-- FullName.
unfoldable pub full_name : RepoUrl → Bytes
full_name r = r.owner ++ (slash ∷ r.repo)

abbrev pub trim_left : Bytes → Bytes
trim_left [] = []
trim_left (c ∷ cs) = let rest = trim_left cs in if c == slash then rest else c ∷ cs

abbrev pub kept_before : ℕ → Bytes → Bytes
kept_before c [] = if c == slash then [] else c ∷ []
kept_before c (d ∷ ds) = c ∷ (d ∷ ds)

abbrev pub trim_right : Bytes → Bytes
trim_right [] = []
trim_right (c ∷ cs) = kept_before c (trim_right cs)

-- strings.TrimSuffix.
abbrev pub trim_suffix : Bytes → Bytes → Bytes
trim_suffix suffix [] = []
trim_suffix suffix (c ∷ cs) =
    let rest = trim_suffix suffix cs in if same (c ∷ cs) suffix then [] else c ∷ rest

abbrev pub has_suffix : Bytes → Bytes → Bool
has_suffix s [] = true
has_suffix [] (x ∷ xs) = false
has_suffix (c ∷ cs) (x ∷ xs) = same (c ∷ cs) (x ∷ xs) || has_suffix cs (x ∷ xs)

-- What stands before the first slash, and behind it.
abbrev pub cut_later : ℕ → Option (Bytes × Bytes) → Option (Bytes × Bytes)
cut_later c none = none
cut_later c (some (a, b)) = some (c ∷ a, b)

abbrev pub cut : Bytes → Option (Bytes × Bytes)
cut [] = none
cut (c ∷ cs) = let rest = cut cs in if c == slash then some ([], cs) else cut_later c rest

-- The owner and the repository of the parts that SplitN cuts off, three at most.
abbrev pub owner_of : Bytes → Bytes → Option (Bytes × Bytes) → Bytes × Bytes
owner_of first rest none = (first, rest)
owner_of first rest (some (second, third)) = (first ++ (slash ∷ second), third)

abbrev pub parts : Option (Bytes × Bytes) → Option (Bytes × Bytes)
parts none = none
parts (some (first, rest)) = some (owner_of first rest (cut rest))

abbrev pub repo_path : Bytes → Bytes
repo_path path = trim_suffix (codes ".git") (trim_right (trim_left path))

-- The domains of the configuration are a function.
abbrev pub provider_named : Bytes → Provider → Provider
provider_named p standard =
    if same (lower p) (codes "github")
    then github
    else if same (lower p) (codes "gitlab")
    then gitlab
    else standard

abbrev pub is_at : Bytes → Bytes → Bool
is_at host domain = same host domain || has_suffix host (b'.' ∷ domain)

abbrev pub standard_provider : Bytes → Provider
standard_provider host =
    if is_at host (codes "github.com")
    then github
    else if is_at host (codes "gitlab.com")
    then gitlab
    else unknown

abbrev pub custom_provider : Option Bytes → Provider → Provider
custom_provider none standard = standard
custom_provider (some p) standard = provider_named p standard

unfoldable pub detect_provider : Bytes → (Bytes → Option Bytes) → Provider
detect_provider host domains = custom_provider (domains host) (standard_provider host)

abbrev pub repo_of : Bytes → (Bytes → Option Bytes) → Option (Bytes × Bytes) → Option RepoUrl
repo_of host domains none = none
repo_of host domains (some (owner, repo)) =
    some
      (record { provider = detect_provider host domains; host = host; owner = owner; repo = repo })

-- ParseRepoURL on a parsed URL; `none` is its error.
unfoldable pub parse_repo_url : (Bytes → Option Bytes) → Option (Bytes × Bytes) → Option RepoUrl
unfolding detect_provider
parse_repo_url domains none = none
parse_repo_url domains (some (host, path)) = repo_of host domains (parts (cut (repo_path path)))

-- APIURL.
unfoldable pub api_url : RepoUrl → Bytes
api_url r = elim r.provider [
  | github ↦
      if same r.host (codes "github.com")
      then codes "https://api.github.com"
      else codes "https://" ++ (r.host ++ codes "/api/v3")
  | gitlab ↦ codes "https://" ++ r.host
  | unknown ↦ []
]

-- The loop of GenerateBranchName, with the number of tries that are left and the next suffix.
abbrev pub numbered : String → ℕ → String
numbered base i = base <> "-" <> decimal (pos i)

unfoldable pub branch_name : (String → Bool) → String → String → ℕ → ℕ → String
branch_name exists base name zero i = name
branch_name exists base name (suc left) i =
    let next = branch_name exists base (numbered base i) left (suc i) in
    if exists name then next else name

unfoldable pub generate_branch_name : (String → Bool) → String → String → String
unfolding branch_name
generate_branch_name exists prefix slug = branch_name exists (prefix <> slug) (prefix <> slug) 99 1
