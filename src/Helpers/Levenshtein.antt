-- ===== src/Helpers/Levenshtein.antt =====
-- `_levenshtein` of src/mcp_awareness/helpers.py: the edit distance with a rolling row. The loops
-- walk the previous row beside the second text, so that `prev[j]` and `prev[j + 1]` are its head
-- and the element after it.
pub mod Edits
pub mod Distance
use mcp_awareness.Base.{
  ℕ, zero, suc, ◌+◌, min, Bool, List, [], ◌∷◌, ltb, ◌==◌, if◌then◌else◌, length,
}
use mcp_awareness.Base.Text.{Text}

-- `ca != cb`, as a number
unfoldable pub cost : ℕ → ℕ → ℕ
cost x y = if x == y then 0 else 1

-- the inner loop: what it appends to `curr`, whose last element is `left`
fill_row : ℕ → Text → List ℕ → ℕ → List ℕ
fill_row x [] prev left = []
fill_row x (y ∷ b) (diagonal ∷ above ∷ prev) left =
    let cell = min (min (above + 1) (left + 1)) (diagonal + cost x y) in
    cell ∷ fill_row x b (above ∷ prev) cell
fill_row x (y ∷ b) _ left = []

-- the outer loop, with `enumerate`'s counter
fill_rows : ℕ → Text → Text → List ℕ → List ℕ
fill_rows i [] b prev = prev
fill_rows i (x ∷ a) b prev = fill_rows (i + 1) a b ((i + 1) ∷ fill_row x b prev (i + 1))

-- list(range(k, k + n))
count_up : ℕ → ℕ → List ℕ
count_up k zero = []
count_up k (suc n) = k ∷ count_up (k + 1) n

-- `prev[-1]`
last_or : ℕ → List ℕ → ℕ
last_or d [] = d
last_or d (x ∷ xs) = last_or x xs

-- the body below the swap
by_rows : Text → Text → ℕ
unfolding fill_rows fill_row cost count_up last_or
by_rows a [] = length a
by_rows a (y ∷ b) = last_or 0 (fill_rows 0 a (y ∷ b) (count_up 0 (length (y ∷ b) + 1)))

-- The swapped call has its longer text first, so it does not swap again.
unfoldable pub levenshtein : Text → Text → ℕ
unfolding by_rows
levenshtein a b = if ltb (length a) (length b) then by_rows b a else by_rows a b
