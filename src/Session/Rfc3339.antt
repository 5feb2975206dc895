-- ===== src/Session/Rfc3339.antt =====
-- The order that SQLite sees in times formatted as time.RFC3339Nano in UTC: that of their texts.
--
-- Up to the seconds such texts have one width, so they compare as numbers. Behind the seconds
-- stands nothing, or a point and the nanoseconds without their trailing zeros, and then a `Z`.
use codeforge.Prelude.{
  ℕ, zero, suc, ◌+◌, ◌*◌, ◌/◌, ◌%◌, Bool, true, false, ◌&&◌, ◌||◌, List, [], ◌∷◌, ◌++◌,
  if◌then◌else◌, ◌==◌, ltb,
}

-- The digits of `n % 10 ^ k`, the highest first, without trailing zeros.
digits_of : ℕ → ℕ → List ℕ
digits_of zero n = []
digits_of (suc k) n =
    if n == 0 then [] else (48 + n / 100_000_000) ∷ digits_of k ((n % 100_000_000) * 10)

abbrev pub second : ℕ
second = 1_000_000_000

-- What follows the seconds: `Z`, or `.` and digits and `Z`.
pub fraction_text : ℕ → List ℕ
unfolding digits_of
fraction_text nanos = if nanos == 0 then b'Z' ∷ [] else b'.' ∷ (digits_of 9 nanos ++ b'Z' ∷ [])

pub lex_lt : List ℕ → List ℕ → Bool
lex_lt [] [] = false
lex_lt [] (y ∷ ys) = true
lex_lt (x ∷ xs) [] = false
lex_lt (x ∷ xs) (y ∷ ys) = ltb x y || (x == y && lex_lt xs ys)

unfoldable pub rfc_lt : ℕ → ℕ → Bool
unfolding fraction_text lex_lt
rfc_lt a b =
    ltb (a / second) (b / second)
    || (a / second == b / second
        && lex_lt (fraction_text (a % second)) (fraction_text (b % second)))
