-- ===== src/Helpers/Tests.antt =====
-- The theorems of the helpers at small inputs.
use mcp_awareness.Base.{
  ℕ, ◌+◌, ◌≤◌, ◌≡◌, refl, false, String, List, [], ◌∷◌, some, arith, length, Any,
}
use mcp_awareness.Base.Text.{codes, lower_codes, to_lower}
use mcp_awareness.Helpers.Levenshtein.{levenshtein}
use mcp_awareness.Helpers.Levenshtein.Edits.{Edits}
use mcp_awareness.Helpers.Levenshtein.Distance.{levenshtein_minimal}
use mcp_awareness.Helpers.Suggest.{is_in, gap, suggest}
use mcp_awareness.Helpers.Suggest.Nearest.{NoneNearer, suggest_nearest}
use mcp_awareness.Helpers.Pages.Tiling.{read_pages, read_pages_complete}

abbrev test_values : List String
test_values = "active" ∷ "warning" ∷ "critical" ∷ []

levenshtein_minimal_example :
    Edits (codes "kitten") (codes "sitting") (levenshtein (codes "kitten") (codes "sitting"))
    × ((n : ℕ)
        → Edits (codes "kitten") (codes "sitting") n
        → levenshtein (codes "kitten") (codes "sitting") ≤ n)
levenshtein_minimal_example = levenshtein_minimal (codes "kitten") (codes "sitting")

test_suggestion : suggest "Warnin" test_values ≡ some "warning"
unfolding suggest levenshtein to_lower
test_suggestion = refl

suggest_nearest_example :
    (is_in "Warnin" test_values ≡ false)
    × Any (λ w. w ≡ "warning") test_values
    × (gap (lower_codes "Warnin") "warning" ≤ 2)
    × NoneNearer (lower_codes "Warnin") (gap (lower_codes "Warnin") "warning") test_values
suggest_nearest_example = suggest_nearest "Warnin" test_values "warning" test_suggestion

test_rows : List ℕ
test_rows = 7 ∷ 8 ∷ 9 ∷ 10 ∷ 11 ∷ []

read_pages_complete_example : read_pages (length test_rows + 1) test_rows 2 0 ≡ some test_rows
read_pages_complete_example = read_pages_complete test_rows 2 (omega arith)
