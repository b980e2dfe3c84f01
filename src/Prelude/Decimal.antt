-- ===== src/Prelude/Decimal.antt =====
-- Decimal numbers as Go prints them: `strconv.FormatInt(n, 10)` and `%d`.
use Prim.Native.Nat.{ℕ, zero, suc, ◌/◌, ◌%◌}
use Prim.Native.String.{String, ◌++◌}
use test_api.Prelude.Tests.{if◌then◌else◌, ltb}
use test_api.Prelude.Int.{ℤ, pos, negsuc}
use test_api.Prelude.Equality.{◌==◌, nat_eq}

-- The digit of a number below ten.
unfoldable pub digit : ℕ → String
digit d =
    if d == 0
    then "0"
    else if d == 1
    then "1"
    else if d == 2
    then "2"
    else if d == 3
    then "3"
    else if d == 4
    then "4"
    else if d == 5
    then "5"
    else if d == 6
    then "6"
    else if d == 7
    then "7"
    else if d == 8
    then "8"
    else "9"

-- With fuel; a number has fewer digits than its successor has units.
unfoldable pub format_digits : ℕ → ℕ → String
unfolding digit
format_digits zero n = ""
format_digits (suc fuel) n =
    let front = format_digits fuel (n / 10) in if ltb n 10 then digit n else front ++ digit (n % 10)

unfoldable pub format_int : ℤ → String
unfolding format_digits
format_int (pos n) = format_digits (suc n) n
format_int (negsuc n) = "-" ++ format_digits (suc (suc n)) (suc n)
