-- ===== src/Slug.antt =====
-- internal/slug/slug.go: the readable names of sessions, for branches and directories.
--
-- A text is its bytes. The decomposition of Unicode (golang.org/x/text) is a parameter: it gives the
-- code points of a text.
pub mod Shape
mod Tests
use codeforge.Prelude.{
  ℕ, ◌+◌, ◌-◌, Bool, true, false, ◌&&◌, ◌||◌, List, [], ◌∷◌, ◌++◌, if◌then◌else◌, ◌==◌, ltb, leb,
  length, take,
}
use codeforge.Prelude.Bytes.{Bytes, codes, lower}

abbrev pub max_slug_len : ℕ
max_slug_len = 50

abbrev pub max_words : ℕ
max_words = 5

abbrev pub short_id_len : ℕ
short_id_len = 8

abbrev pub hyphen : ℕ
hyphen = 45

-- The code points below unicode.MaxASCII, which is 127.
abbrev pub ascii : List ℕ → Bytes
ascii [] = []
ascii (c ∷ cs) = let rest = ascii cs in if ltb c 127 then c ∷ rest else rest

abbrev pub is_alnum : ℕ → Bool
is_alnum c = (leb b'a' c && leb c b'z') || (leb b'0' c && leb c b'9')

-- A hyphen for each run of other bytes; the test says whether a run is under way.
abbrev pub hyphenated : Bool → Bytes → Bytes
hyphenated inside_run [] = []
hyphenated inside_run (c ∷ cs) =
    let closed = hyphenated false cs in
    let inside = hyphenated true cs in
    if is_alnum c then c ∷ closed else if inside_run then inside else hyphen ∷ inside

abbrev pub trim_left : Bytes → Bytes
trim_left [] = []
trim_left (c ∷ cs) = let rest = trim_left cs in if c == hyphen then rest else c ∷ cs

abbrev pub kept_before : ℕ → Bytes → Bytes
kept_before c [] = if c == hyphen then [] else c ∷ []
kept_before c (d ∷ ds) = c ∷ (d ∷ ds)

abbrev pub trim_right : Bytes → Bytes
trim_right [] = []
trim_right (c ∷ cs) = kept_before c (trim_right cs)

abbrev pub on_first : ℕ → List Bytes → List Bytes
on_first c [] = (c ∷ []) ∷ []
on_first c (w ∷ ws) = (c ∷ w) ∷ ws

-- strings.Split at hyphens.
abbrev pub split : Bytes → List Bytes
split [] = [] ∷ []
split (c ∷ cs) = let rest = split cs in if c == hyphen then [] ∷ rest else on_first c rest

-- strings.Join with hyphens.
abbrev pub join : List Bytes → Bytes
join [] = []
join (w ∷ []) = w
join (w ∷ v ∷ ws) = w ++ (hyphen ∷ join (v ∷ ws))

unfoldable pub slugify : List ℕ → Bytes
slugify decomposed =
    join (
      take max_words (split (trim_right (trim_left (hyphenated false (lower (ascii decomposed)))))))

abbrev pub session_name : Bytes → Bytes
session_name short = codes "session-" ++ short

-- The slug before the short id, cut to the room that is left.
abbrev pub fitted : ℕ → Bytes → Bytes
fitted room s = if ltb room (length s) then trim_right (take room s) else s

abbrev pub named : Bytes → Bytes → Bytes
named short [] = session_name short
named short (c ∷ cs) =
    let suffix = hyphen ∷ short in
    let room = max_slug_len - length suffix in
    if ltb room 1 then session_name short else fitted room (c ∷ cs) ++ suffix

unfoldable pub generate : List ℕ → Bytes → Bytes
unfolding slugify
generate decomposed id = named (take short_id_len id) (slugify decomposed)
