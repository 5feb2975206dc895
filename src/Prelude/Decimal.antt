-- ===== src/Prelude/Decimal.antt =====
-- The texts that `%d` of fmt.Sprintf makes of numbers.
use Prim.Native.Nat.{ℕ, zero, suc, ◌/◌, ◌%◌}
use Prim.Native.String.{String}
use codeforge.Prelude.Tests.{ltb, ◌==◌, ◌<>◌, if◌then◌else◌}
use codeforge.Prelude.Int.{ℤ, pos, negsuc}

abbrev digit : ℕ → String
digit n =
    if n == 0
    then "0"
    else if n == 1
    then "1"
    else if n == 2
    then "2"
    else if n == 3
    then "3"
    else if n == 4
    then "4"
    else if n == 5
    then "5"
    else if n == 6
    then "6"
    else if n == 7
    then "7"
    else if n == 8
    then "8"
    else "9"

-- A number has no more digits than its successor counts.
digits_text : ℕ → ℕ → String
digits_text zero n = ""
digits_text (suc fuel) n =
    let rest = digits_text fuel (n / 10) in if ltb n 10 then digit n else rest <> digit (n % 10)

unfoldable pub decimal : ℤ → String
unfolding digits_text
decimal (pos n) = digits_text (suc n) n
decimal (negsuc n) = "-" <> digits_text (suc (suc n)) (suc n)
