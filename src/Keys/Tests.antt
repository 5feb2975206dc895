-- ===== src/Keys/Tests.antt =====
-- Keys at concrete tables and variables.
use codeforge.Prelude.{◌≡◌, refl, String, false, Option, none, some, [], ◌∷◌, ◌=s◌, if◌then◌else◌}
use codeforge.Session.World.{ok, up}
use codeforge.Session.Samples.{two_sessions, marking, marking-IsInvertible}
use codeforge.Git.Provider.{unknown, parse_repo_url}
use codeforge.Prelude.Bytes.{Bytes, codes}
use codeforge.Keys.{Key, KeyRow, find_key, create_key, delete_key, resolve_key}
use codeforge.Keys.Environment.{env_resolve, Registry, variable}
use codeforge.Keys.Resolver.{resolve_token, variables_of, no_token}
use codeforge.Keys.Order.{first_some, registered, or_error, resolve_token_lem}
use codeforge.Keys.Stored.{resolve_key-create_key, delete_key_lem}

abbrev key : Key
key = record {
  name = "work";
  provider = "github";
  token = "secret";
  scope = "";
  base_url = "";
  source = "";
}

abbrev row : KeyRow
row = record {
  name = "work";
  provider = "github";
  encrypted_token = "secret";
  scope = "";
  base_url = "";
}

abbrev gitlab_row : KeyRow
gitlab_row = record row { provider = "gitlab"; encrypted_token = "other" }

abbrev registry : Registry
registry = record {
  cipher = marking;
  getenv = λ v. if v =s "GITHUB_TOKEN" then "env" else "";
  rows = row ∷ [];
}

-- A repository of a host that nobody knows, and one of GitHub.
abbrev elsewhere : Option (Bytes × Bytes)
elsewhere = some (codes "git.example.org", codes "/o/r.git")

abbrev at_github : Option (Bytes × Bytes)
at_github = some (codes "github.com", codes "/o/r")

resolve_token_lem_example :
    (resolve_token registry (λ _. none) elsewhere "u" "" "gone" two_sessions).0
    ≡ or_error (no_token "u" unknown) (
        first_some (
          variable ""
          ∷ registered registry unknown "gone" two_sessions
          ∷ variables_of registry.getenv unknown
          ∷ []))
unfolding parse_repo_url
resolve_token_lem_example =
    resolve_token_lem registry (λ _. none) elsewhere "u" "" "gone" two_sessions

by_name : (resolve_token registry (λ _. none) at_github "u" "" "work" two_sessions).0 ≡ ok "secret"
unfolding resolve_token env_resolve resolve_key parse_repo_url
by_name = refl

resolve_key-create_key_example :
    (resolve_key marking (gitlab_row ∷ row ∷ []) "github" "work" (up two_sessions)).0 ≡ ok "secret"
unfolding create_key
resolve_key-create_key_example =
    resolve_key-create_key marking "n" key (gitlab_row ∷ []) (gitlab_row ∷ row ∷ []) two_sessions
      two_sessions marking-IsInvertible refl

delete_key_lem_example :
    ((provider : String) → find_key provider "work" [] ≡ none)
    × ((provider other : String)
        → ("work" =s other) ≡ false
        → find_key provider other [] ≡ find_key provider other (gitlab_row ∷ row ∷ []))
unfolding delete_key
delete_key_lem_example = delete_key_lem "work" (gitlab_row ∷ row ∷ []) [] two_sessions refl

-- The empty token is stored as it is, and comes back.
empty_token :
    (resolve_key marking
      (record row { encrypted_token = "" } ∷ [])
      "github"
      "work"
      (up two_sessions)).0
    ≡ ok ""
unfolding create_key
empty_token =
    resolve_key-create_key marking "n" (record key { token = "" }) []
      (record row { encrypted_token = "" } ∷ []) two_sessions two_sessions marking-IsInvertible refl
