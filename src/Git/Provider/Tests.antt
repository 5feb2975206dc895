-- ===== src/Git/Provider/Tests.antt =====
-- Repositories and branches at concrete names.
use codeforge.Prelude.Decimal.{decimal}
use codeforge.Prelude.{◌≡◌, refl, Option, none, ◌=s◌, ◌||◌}
use codeforge.Prelude.Bytes.{Bytes, codes}
use codeforge.Git.Provider.{
  RepoUrl, gitlab, full_name, parse_repo_url, repo_path, generate_branch_name,
}
use codeforge.Git.Provider.Names.{full_name-parse_repo_url}

abbrev no_domains : Bytes → Option Bytes
no_domains _ = none

abbrev deep : RepoUrl
deep = record {
  provider = gitlab;
  host = codes "gitlab.com";
  owner = codes "a/b";
  repo = codes "c/d";
}

full_name-parse_repo_url_example : full_name deep ≡ repo_path (codes "/a/b/c/d.git")
unfolding parse_repo_url
full_name-parse_repo_url_example =
    full_name-parse_repo_url no_domains (codes "gitlab.com") (codes "/a/b/c/d.git") deep refl

second_free :
    generate_branch_name (λ s. s =s "forge/x" || s =s "forge/x-1") "forge/" "x" ≡ "forge/x-2"
unfolding generate_branch_name decimal
second_free = refl
