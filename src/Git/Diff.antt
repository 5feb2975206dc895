-- ===== src/Git/Diff.antt =====
-- internal/tool/git/diff_lines.go and diff.go: the lines of a patch, the files of a pull request and
-- the counts of a workspace's changes.
--
-- A text is its bytes; a set of lines is the list of its members. An answer of GitHub is its status
-- with the files that it decodes to, page by page.
pub mod Hunks
pub mod Pages
mod Tests
use codeforge.Prelude.{
  ℕ, zero, suc, ◌+◌, ◌*◌, ◌-◌, String, Bool, true, false, ◌&&◌, ◌||◌, not, Option, none, some, List,
  [], ◌∷◌, ◌++◌, if◌then◌else◌, ◌=s◌, ◌==◌, ◌<>◌, ltb, leb, length, update,
}
use codeforge.Prelude.Int.{pos}
use codeforge.Prelude.Decimal.{decimal}
use codeforge.Prelude.Bytes.{Bytes, codes, split_lines, has_prefix, same}
use codeforge.Session.Model.{ChangesSummary}

-- `\s` of a Go pattern.
abbrev pub is_blank : ℕ → Bool
is_blank c = c == 32 || c == 9 || c == 10 || c == 12 || c == 13

abbrev pub is_digit : ℕ → Bool
is_digit c = leb b'0' c && leb c b'9'

-- The rest behind the first bytes that a test holds of.
abbrev pub skip : (ℕ → Bool) → Bytes → Bytes
skip test [] = []
skip test (c ∷ cs) = let rest = skip test cs in if test c then rest else c ∷ cs

-- One such byte or more.
abbrev pub skip_some : (ℕ → Bool) → Bytes → Option Bytes
skip_some test [] = none
skip_some test (c ∷ cs) = if test c then some (skip test cs) else none

abbrev pub expect : ℕ → Bytes → Option Bytes
expect b [] = none
expect b (c ∷ cs) = if c == b then some cs else none

infixl 5 ◌then◌
abbrev pub ◌then◌ : Option Bytes → (Bytes → Option Bytes) → Option Bytes
none then f = none
(some s) then f = f s

-- `(?:,\d+)?`.
abbrev pub skip_count : Bytes → Option Bytes
skip_count [] = some []
skip_count (c ∷ cs) = if c == b',' then skip_some is_digit cs else some (c ∷ cs)

abbrev pub read_digits : ℕ → Bytes → ℕ
read_digits n [] = n
read_digits n (c ∷ cs) =
    let more = read_digits (n * 10 + (c - b'0')) cs in if is_digit c then more else n

-- hunkHeaderRe up to the number of the first new line.
abbrev pub before_new : Bytes → Option Bytes
before_new line =
    expect b'@' line
    then expect b'@'
    then skip_some is_blank
    then expect b'-'
    then skip_some is_digit
    then skip_count
    then skip_some is_blank
    then expect b'+'

-- What follows this number.
abbrev pub behind_new : Bytes → Option Bytes
behind_new line =
    skip_some is_digit line
    then skip_count
    then skip_some is_blank
    then expect b'@'
    then expect b'@'

-- strconv.Atoi of digits, which gives the largest integer for a number above it. The numbers of a
-- patch's lines do not run beyond it.
abbrev pub within_int : ℕ → ℕ
within_int n = if leb n 9_223_372_036_854_775_807 then n else 9_223_372_036_854_775_807

abbrev pub start_if : Bytes → Option Bytes → Option ℕ
start_if digits none = none
start_if digits (some _) = some (within_int (read_digits 0 digits))

abbrev pub start_of : Option Bytes → Option ℕ
start_of none = none
start_of (some digits) = start_if digits (behind_new digits)

-- The number in a hunk's header.
unfoldable pub hunk_start : Bytes → Option ℕ
hunk_start line = start_of (before_new line)

-- A line of a hunk that stands in the new file.
abbrev pub is_new : Bytes → Bool
is_new [] = true
is_new (c ∷ cs) = not (c == b'-') && not (c == b'\\')

-- A line of the loop of ParsePatch: what its header says, the number of the next new line inside a
-- hunk, and the rest of the loop.
abbrev pub on_line : Option ℕ → Option ℕ → Bytes → (Option ℕ → List ℕ) → List ℕ
on_line (some start) at l rest = rest (some start)
on_line none none l rest = rest none
on_line none (some n) l rest = if is_new l then n ∷ rest (some (suc n)) else rest (some n)

abbrev pub lines_of : Option ℕ → List Bytes → List ℕ
lines_of at [] = []
lines_of at (l ∷ ls) = on_line (hunk_start l) at l (λ at'. lines_of at' ls)

unfoldable pub parse_patch : Bytes → List ℕ
unfolding hunk_start
parse_patch patch = lines_of none (split_lines patch)

pub record PrFile : Type 0 where
  pub filename : String
  pub patch : Bytes

abbrev pub DiffLineSet : Type 0
DiffLineSet = String → Option (List ℕ)

abbrev pub has_line : List ℕ → ℕ → Bool
has_line [] n = false
has_line (m ∷ ms) n = m == n || has_line ms n

abbrev pub has_in : Option (List ℕ) → ℕ → Bool
has_in none line = false
has_in (some lines) line = has_line lines line

-- Contains.
unfoldable pub contains_line : DiffLineSet → String → ℕ → Bool
contains_line set file line = has_in (set file) line

abbrev pub with_lines : String → List ℕ → DiffLineSet → DiffLineSet
with_lines file [] set = set
with_lines file (n ∷ ns) set = update set file (some (n ∷ ns))

-- A file without a patch, as a binary one, is left out: its patch parses to no line.
abbrev pub with_files : List PrFile → DiffLineSet → DiffLineSet
with_files [] set = set
with_files (f ∷ fs) set = with_files fs (with_lines f.filename (parse_patch f.patch) set)

-- What GitHub answers for a page.
pub data Page : Type 0 where
  failed : Page
  files : List PrFile → Page

pub data Fetched : Type 0 where
  fetched : DiffLineSet → Fetched
  fetch_failed : Fetched
  out_of_fuel : Fetched

abbrev pub page_size : ℕ
page_size = 100

abbrev pub on_page : Page → DiffLineSet → (DiffLineSet → Fetched) → Fetched
on_page failed set next = fetch_failed
on_page (files fs) set next =
    if ltb (length fs) page_size then fetched (with_files fs set) else next (with_files fs set)

-- The loop of FetchPRDiffLines from a page on, with fuel.
unfoldable pub fetch_from : (ℕ → Page) → ℕ → ℕ → DiffLineSet → Fetched
fetch_from ask zero page set = out_of_fuel
fetch_from ask (suc fuel) page set =
    on_page (ask page) set (λ set'. fetch_from ask fuel (suc page) set')

unfoldable pub fetch_pr_diff_lines : (ℕ → Page) → ℕ → Fetched
unfolding fetch_from
fetch_pr_diff_lines ask fuel = fetch_from ask fuel 1 (λ _. none)

-- The two letters of a line of `git status --porcelain`.
abbrev pub code : Bytes → Bytes
code [] = []
code (x ∷ []) = x ∷ []
code (x ∷ y ∷ rest) = x ∷ y ∷ []

abbrev pub is_one_of : List Bytes → Bytes → Bool
is_one_of [] xy = false
is_one_of (c ∷ cs) xy = same xy c || is_one_of cs xy

abbrev pub created_codes : List Bytes
created_codes = codes "??" ∷ codes "A " ∷ codes " A" ∷ codes "AM" ∷ []

abbrev pub deleted_codes : List Bytes
deleted_codes = codes " D" ∷ codes "D " ∷ []

abbrev pub modified_codes : List Bytes
modified_codes = codes " M" ∷ codes "M " ∷ codes "MM" ∷ codes "RM" ∷ codes "R " ∷ []

-- The lines of three bytes or more with one of the codes.
abbrev pub count_codes : List Bytes → List Bytes → ℕ
count_codes cs [] = 0
count_codes cs (l ∷ ls) =
    let rest = count_codes cs ls in
    if leb 3 (length l) && is_one_of cs (code l) then suc rest else rest

-- The four groups of shortStatRegex, which a pattern of the Go library finds.
abbrev pub number : Bytes → ℕ
number s = read_digits 0 s

pub record ShortStat : Type 0 where
  pub both : Option (Bytes × Bytes)
  pub insertions_only : Option Bytes
  pub deletions_only : Option Bytes

abbrev pub deletions_of : Option Bytes → ℕ × ℕ
deletions_of none = (0, 0)
deletions_of (some n) = (0, number n)

abbrev pub one_of : Option Bytes → Option Bytes → ℕ × ℕ
one_of none d = deletions_of d
one_of (some n) d = (number n, 0)

abbrev pub stat_of : Option (Bytes × Bytes) → Option Bytes → Option Bytes → ℕ × ℕ
stat_of none i d = one_of i d
stat_of (some (i, d)) _ _ = (number i, number d)

-- parseShortStat; `none` is an output that the pattern does not match, or a git that failed.
unfoldable pub parse_short_stat : Option ShortStat → ℕ × ℕ
parse_short_stat none = (0, 0)
parse_short_stat (some s) = stat_of s.both s.insertions_only s.deletions_only

-- CalculateChanges, for the output of git status and the counts that are not staged and staged.
unfoldable pub calculate_changes :
    Option Bytes → Option ShortStat → Option ShortStat → Option ChangesSummary
unfolding parse_short_stat
calculate_changes none unstaged staged = none
calculate_changes (some out) unstaged staged =
    let lines = split_lines out in
    let (ui, ud) = parse_short_stat unstaged in
    let (si, sd) = parse_short_stat staged in
    some (record {
      files_modified = count_codes modified_codes lines;
      files_created = count_codes created_codes lines;
      files_deleted = count_codes deleted_codes lines;
      diff_stats = "+" <> decimal (pos (ui + si)) <> " -" <> decimal (pos (ud + sd));
    })
