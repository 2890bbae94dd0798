-- ===== src/Prelude/Decimal.antt =====
-- str(n) for a number: its decimal digits.
use Prim.Native.Nat.{ℕ, zero, suc, ◌/◌, ◌%◌}
use Prim.Native.String.{String}
pub use Prim.Native.String.{◌++◌ as text_append}
use trip_graph_agent_runtime.Prelude.Tests.{ltb, ◌==◌, if◌then◌else◌}

digit_text : ℕ → String
digit_text d =
    if d == 0
    then "0"
    else if d == 1
    then "1"
    else if d == 2
    then "2"
    else if d == 3
    then "3"
    else if d == 4
    then "4"
    else if d == 5
    then "5"
    else if d == 6
    then "6"
    else if d == 7
    then "7"
    else if d == 8
    then "8"
    else "9"

-- Each round removes a digit, so that the number itself is enough fuel.
decimal_from : ℕ → ℕ → String
unfolding digit_text
decimal_from zero n = ""
decimal_from (suc fuel) n =
    let higher = text_append (decimal_from fuel (n / 10)) (digit_text (n % 10)) in
    if ltb n 10 then digit_text n else higher

unfoldable pub decimal : ℕ → String
unfolding decimal_from
decimal n = decimal_from (suc n) n

-- f"{prefix}{n}"
unfoldable pub numbered : String → ℕ → String
unfolding decimal
numbered prefix n = text_append prefix (decimal n)
