-- ===== src/Action/Reading.antt =====
-- The variables of a job as the next ones read them, in the documented form of $GITHUB_OUTPUT:
-- `name=value`, or `name<<delimiter`, lines, and the delimiter.
use codeforge.Prelude.{
  ℕ, ◌≡◌, refl, ap, ◌∙◌, String, true, false, Option, none, some, List, [], ◌∷◌, ◌++◌, Bool-cases,
  inl, inr, arith, contains, eq_iff, if◌then◌else◌, ◌=s◌, ◌==◌, drop, length,
}
use mathlib.Core.List.{append-nil, append_assoc}
use codeforge.Prelude.Bytes.{Bytes, codes, split_lines, has_prefix, same}
use codeforge.Prelude.Int.{pos}
use codeforge.Prelude.Decimal.{decimal}
use codeforge.Session.Model.{ReviewResult}
use codeforge.Session.Listing.Pages.{All}
use codeforge.Review.Parser.{Texts, valid_verdicts, parse_review_output}
use codeforge.Review.Parser.Normal.{parse_review_output-IsNormal}
use codeforge.Action.{ActionConfig}
use codeforge.Action.Executor.{CliResult, signed}
use codeforge.Action.Outputs.{eof, clip, json_lines, result_lines, github_output_vars}

-- A variable with the lines of its value.
abbrev pub Var : Type 0
Var = Bytes × List Bytes

pub data Header : Type 0 where
  assigns begins : Bytes → Bytes → Header
  other : Header

abbrev pub header_from : Bytes → Bytes → Header
header_from name [] = other
header_from name (c ∷ cs) =
    let rest = header_from (name ++ (c ∷ [])) cs in
    if c == b'='
    then assigns name cs
    else if has_prefix (c ∷ cs) (codes "<<")
    then begins name (drop 1 cs)
    else rest

-- The lines are read outside a value, or in one that a delimiter ends.
abbrev pub on_header : (List Var) → (Bytes → Bytes → List Var) → Header → List Var
on_header rest in_value other = rest
on_header rest in_value (assigns name value) = (name, value ∷ []) ∷ rest
on_header rest in_value (begins name delimiter) = in_value name delimiter

abbrev pub read_from : Option (Bytes × Bytes × List Bytes) → List Bytes → List Var
read_from state [] = []
read_from none (l ∷ ls) =
    on_header (read_from none ls) (λ name delimiter. read_from (some (name, delimiter, [])) ls)
      (header_from [] l)
read_from (some (name, delimiter, value)) (l ∷ ls) =
    let more = read_from (some (name, delimiter, value ++ (l ∷ []))) ls in
    let rest = read_from none ls in if same l delimiter then (name, value) ∷ rest else more

-- No line of a value is the delimiter.
abbrev pub IsDelimited : Bytes → Type 0
IsDelimited value = All (λ l. same l eof ≡ false) (split_lines value)

read_value :
    (name : Bytes) (value ls rest : List Bytes)
    → All (λ l. same l eof ≡ false) ls
    → read_from (some (name, eof, value)) (ls ++ (eof ∷ rest))
      ≡ (name, value ++ ls) ∷ read_from none rest
read_value name value [] rest h = rw append-nil refl
read_value name value (l ∷ ls) rest (p, h) =
    rw p (read_value name (value ++ (l ∷ [])) ls rest h ∙ rw append_assoc refl)

abbrev pub json_vars : (ReviewResult → Bytes) → String → ReviewResult → List Var
json_vars marshal format r =
    if format =s "json" then (codes "review", split_lines (marshal r)) ∷ [] else []

abbrev pub review_vars : (ReviewResult → Bytes) → String → ReviewResult → List Var
review_vars marshal format r =
    (codes "verdict", codes r.verdict ∷ [])
    ∷ (codes "score", codes (decimal r.score) ∷ [])
    ∷ (codes "issues_count", codes (decimal (pos (length r.issues))) ∷ [])
    ∷ json_vars marshal format r

abbrev pub result_vars : CliResult → List Var
result_vars result =
    (codes "input_tokens", codes (decimal (pos result.input_tokens)) ∷ [])
    ∷ (codes "output_tokens", codes (decimal (pos result.output_tokens)) ∷ [])
    ∷ (codes "output", split_lines (clip 50000 result.output))
    ∷ []

read_result :
    (result : CliResult)
    → IsDelimited (clip 50000 result.output)
    → read_from none (result_lines result) ≡ result_vars result
read_result result h =
    ap
      (λ vs.
        (codes "input_tokens", codes (decimal (pos result.input_tokens)) ∷ [])
        ∷ (codes "output_tokens", codes (decimal (pos result.output_tokens)) ∷ [])
        ∷ vs)
      (read_value (codes "output") [] (split_lines (clip 50000 result.output)) [] h)

read_json :
    (marshal : ReviewResult → Bytes) (format : String) (r : ReviewResult) (rest : List Bytes)
    → IsDelimited (marshal r)
    → read_from none (json_lines marshal format r ++ rest)
      ≡ json_vars marshal format r ++ read_from none rest
read_json marshal format r rest h = elim (Bool-cases (format =s "json")) [
  | inl e ↦ rw e (
      rw (append_assoc (split_lines (marshal r)) (eof ∷ []) rest)
        (read_value (codes "review") [] (split_lines (marshal r)) rest h))
  | inr e ↦ rw e refl
]

verdict_line :
    (v : String)
    → contains valid_verdicts v ≡ true
    → split_lines (codes "verdict=" ++ codes v) ≡ (codes "verdict=" ++ codes v) ∷ []
verdict_line v known = elim (Bool-cases ("approve" =s v)) [
  | inl e ↦ rw⁻¹ ((eq_iff "approve" v).0 e) refl
  | inr e ↦ elim (Bool-cases ("request_changes" =s v)) [
    | inl f ↦ rw⁻¹ ((eq_iff "request_changes" v).0 f) refl
    | inr f ↦ elim (Bool-cases ("comment" =s v)) [
      | inl g ↦ rw⁻¹ ((eq_iff "comment" v).0 g) refl
      | inr g ↦ absurd (ground arith)
    ]
  ]
]

-- The review that a job makes of what a CLI prints.
abbrev pub review_of : Texts → ActionConfig → ℕ → CliResult → ReviewResult
review_of texts cfg seconds result = signed cfg seconds (parse_review_output texts result.output)

-- What the file of a job's variables has of a review that was parsed is read back: the verdict, the
-- score, the number of issues, with the format json the review itself, the tokens, and the output up
-- to 50000 bytes; if no line of the encoded review and of the output is the delimiter EOF.
pub read_from-github_output_vars :
    (texts : Texts) (cfg : ActionConfig) (seconds : ℕ) (marshal : ReviewResult → Bytes)
    (path : String) (result : CliResult)
    → (path =s "") ≡ false
    → IsDelimited (marshal (review_of texts cfg seconds result))
    → IsDelimited (clip 50000 result.output)
    → read_from none (
        github_output_vars marshal path true cfg.output_format
          (some (review_of texts cfg seconds result))
          result)
      ≡ review_vars marshal cfg.output_format (review_of texts cfg seconds result)
        ++ result_vars result
unfolding github_output_vars
read_from-github_output_vars texts cfg seconds marshal path result named hr ho =
    let r = review_of texts cfg seconds result in
    let known = (parse_review_output-IsNormal texts result.output).0 in
    rw named (
      rw (verdict_line r.verdict known) (
        ap
          (λ vs.
            (codes "verdict", codes r.verdict ∷ [])
            ∷ (codes "score", codes (decimal r.score) ∷ [])
            ∷ (codes "issues_count", codes (decimal (pos (length r.issues))) ∷ [])
            ∷ vs)
          (read_json marshal cfg.output_format r (result_lines result) hr
            ∙ ap (λ vs. json_vars marshal cfg.output_format r ++ vs) (read_result result ho))))
