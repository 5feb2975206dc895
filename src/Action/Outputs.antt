-- ===== src/Action/Outputs.antt =====
-- cmd/codeforge-action/github_output.go and gitlab_output.go: the variables that a job leaves to the
-- next ones. A file is the list of its lines, and the encoding of a review as JSON a parameter.
use codeforge.Prelude.{
  ℕ, String, Bool, ◌||◌, Option, none, some, List, [], ◌∷◌, ◌++◌, not, if◌then◌else◌, ◌=s◌, ltb,
  length, take,
}
use codeforge.Prelude.Bytes.{Bytes, codes, split_lines}
use codeforge.Prelude.Int.{ℤ, pos}
use codeforge.Prelude.Decimal.{decimal}
use codeforge.Session.Model.{ReviewResult}
use codeforge.Action.Executor.{CliResult}

-- `name=value` with a number, whose digits have no line feed.
abbrev pub number_line : Bytes → ℤ → Bytes
number_line name n = name ++ codes (decimal n)

-- `name<<EOF`, a value of any lines, and `EOF`.
abbrev pub eof : Bytes
eof = codes "EOF"

abbrev pub block : Bytes → Bytes → List Bytes
block header value = header ∷ (split_lines value ++ (eof ∷ []))

abbrev pub clip : ℕ → Bytes → Bytes
clip limit s = if ltb limit (length s) then take limit s ++ codes "\n... (truncated)" else s

abbrev pub json_lines : (ReviewResult → Bytes) → String → ReviewResult → List Bytes
json_lines marshal format r =
    if format =s "json" then block (codes "review<<EOF") (marshal r) else []

abbrev pub review_lines : (ReviewResult → Bytes) → String → Option ReviewResult → List Bytes
review_lines marshal format none = []
review_lines marshal format (some r) =
    split_lines (codes "verdict=" ++ codes r.verdict)
    ++ (number_line (codes "score=") r.score
        ∷ number_line (codes "issues_count=") (pos (length r.issues))
        ∷ json_lines marshal format r)

abbrev pub result_lines : CliResult → List Bytes
result_lines result =
    number_line (codes "input_tokens=") (pos result.input_tokens)
    ∷ number_line (codes "output_tokens=") (pos result.output_tokens)
    ∷ block (codes "output<<EOF") (clip 50000 result.output)

-- writeGitHubOutputVars: the lines that are added to the file, if it is named and opens.
unfoldable pub github_output_vars :
    (ReviewResult → Bytes) → String → Bool → String → Option ReviewResult → CliResult → List Bytes
github_output_vars marshal path opens format review result =
    if path =s "" || not opens
    then []
    else review_lines marshal format review ++ result_lines result

-- writeGitLabDotenv: the lines of `codeforge.env`.
abbrev pub dotenv_lines : ReviewResult → List Bytes
dotenv_lines r =
    split_lines (codes "CODEFORGE_VERDICT=" ++ codes r.verdict)
    ++ (number_line (codes "CODEFORGE_SCORE=") r.score
        ∷ number_line (codes "CODEFORGE_ISSUES_COUNT=") (pos (length r.issues))
        ∷ [])

abbrev pub gitlab_dotenv : Bool → Option ReviewResult → List Bytes
gitlab_dotenv opens none = []
gitlab_dotenv opens (some r) = if opens then dotenv_lines r else []
