-- ===== src/Prelude/Bytes.antt =====
-- Texts as lists of bytes, with the functions of Go's package strings on them.
-- White space is ASCII's, where strings.TrimSpace knows Unicode's too.
use Prim.Native.Nat.{ℕ, ◌+◌}
use Prim.Native.Char.{code}
use Prim.Native.String.{String}
use mathlib.Core.Bool.{Bool, true, false, ◌&&◌, ◌||◌}
use mathlib.Core.List.{List, [], ◌∷◌}
use codeforge.Prelude.Tests.{◌==◌, leb, if◌then◌else◌}

abbrev pub Bytes : Type 0
Bytes = List ℕ

abbrev pub codes : String → Bytes
codes String.[] = []
codes (String.◌∷◌ c s) = code c ∷ codes s

abbrev pub is_space : ℕ → Bool
is_space c = c == 32 || (leb 9 c && leb c 13)

abbrev pub trim_left : Bytes → Bytes
trim_left [] = []
trim_left (c ∷ cs) = let rest = trim_left cs in if is_space c then rest else c ∷ cs

-- A byte before a trimmed rest.
abbrev pub kept_before : ℕ → Bytes → Bytes
kept_before c [] = if is_space c then [] else c ∷ []
kept_before c (d ∷ ds) = c ∷ (d ∷ ds)

abbrev pub trim_right : Bytes → Bytes
trim_right [] = []
trim_right (c ∷ cs) = kept_before c (trim_right cs)

unfoldable pub trim_space : Bytes → Bytes
trim_space s = trim_right (trim_left s)

-- strings.Split at line feeds.
abbrev pub on_first : ℕ → List Bytes → List Bytes
on_first c [] = (c ∷ []) ∷ []
on_first c (l ∷ ls) = (c ∷ l) ∷ ls

abbrev pub split_lines : Bytes → List Bytes
split_lines [] = [] ∷ []
split_lines (c ∷ cs) = let rest = split_lines cs in if c == 10 then [] ∷ rest else on_first c rest

abbrev pub has_prefix : Bytes → Bytes → Bool
has_prefix s [] = true
has_prefix [] (c ∷ cs) = false
has_prefix (b ∷ bs) (c ∷ cs) = b == c && has_prefix bs cs

-- strings.Contains.
abbrev pub has_infix : Bytes → Bytes → Bool
has_infix [] needle = has_prefix [] needle
has_infix (c ∷ cs) needle = has_prefix (c ∷ cs) needle || has_infix cs needle

abbrev pub same : Bytes → Bytes → Bool
same [] [] = true
same [] (c ∷ cs) = false
same (b ∷ bs) [] = false
same (b ∷ bs) (c ∷ cs) = b == c && same bs cs

abbrev pub to_lower : ℕ → ℕ
to_lower c = if leb b'A' c && leb c b'Z' then c + 32 else c

abbrev pub lower : Bytes → Bytes
lower [] = []
lower (c ∷ cs) = to_lower c ∷ lower cs
