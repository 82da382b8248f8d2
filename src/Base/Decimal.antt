-- ===== src/Base/Decimal.antt =====
-- Python's str(n) of a natural number, and sep.join(parts).
use Prim.Native.String.{◌++◌ as join2, String}
use Prim.Native.Nat.{ℕ, zero, suc, ◌+◌, ◌/◌, ◌%◌}
use mathlib.Core.List.{List, [], ◌∷◌}
use mcp_awareness.Base.Tests.{◌==◌, if◌then◌else◌}

digit : ℕ → String
digit d =
    if d == 0
    then "0"
    else if d == 1
    then "1"
    else if d == 2
    then "2"
    else if d == 3
    then "3"
    else if d == 4
    then "4"
    else if d == 5
    then "5"
    else if d == 6
    then "6"
    else if d == 7
    then "7"
    else if d == 8
    then "8"
    else "9"

-- n / 10 has fewer digits than n, so n + 1 rounds are enough
decimal_from : ℕ → ℕ → String
unfolding digit
decimal_from zero n = ""
decimal_from (suc fuel) n =
    let front = decimal_from fuel (n / 10) in
    if n / 10 == 0 then digit (n % 10) else join2 front (digit (n % 10))

-- str(n)
unfoldable pub decimal : ℕ → String
unfolding decimal_from
decimal n = decimal_from (n + 1) n

-- sep.join(parts)
unfoldable pub join : String → List String → String
join sep [] = ""
join sep (p ∷ []) = p
join sep (p ∷ q ∷ ps) = join2 p (join2 sep (join sep (q ∷ ps)))

abbrev pub concat : List String → String
concat = join ""
