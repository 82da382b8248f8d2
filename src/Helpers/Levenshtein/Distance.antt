-- ===== src/Helpers/Levenshtein/Distance.antt =====
-- The rolling row against the distance: the row under construction holds the distances between
-- what is read of the first text and every beginning of the second, both read backwards.
use mathlib.Core.List.{reverse_aux}
use mcp_awareness.Base.{ℕ, suc, ◌+◌, ◌≤◌, ◌≡◌, refl, ap, List, [], ◌∷◌, arith, length}
use mcp_awareness.Base.Text.{Text}
use mcp_awareness.Helpers.Levenshtein.{
  cost, fill_row, fill_rows, count_up, last_or, by_rows, levenshtein,
}
use mcp_awareness.Helpers.Levenshtein.Edits.{
  Edits, dist, dist-Edits, dist-le, dist-reverse, dist_symm,
}

row_tail : Text → Text → Text → List ℕ
row_tail ra rb [] = []
row_tail ra rb (y ∷ b) = dist ra (y ∷ rb) ∷ row_tail ra (y ∷ rb) b

row : Text → Text → Text → List ℕ
row ra rb b = dist ra rb ∷ row_tail ra rb b

fill_row-row :
    (x : ℕ) (ra rb b : Text)
    → fill_row x b (row ra rb b) (dist (x ∷ ra) rb) ≡ row_tail (x ∷ ra) rb b
unfolding fill_row row row_tail dist cost
fill_row-row x ra rb [] = refl
fill_row-row x ra rb (y ∷ b) = ap (◌∷◌ (dist (x ∷ ra) (y ∷ rb))) (fill_row-row x ra (y ∷ rb) b)

fill_rows-row :
    (a : Text) (i : ℕ) (ra b : Text)
    → i ≡ length ra
    → fill_rows i a b (row ra [] b) ≡ row (reverse_aux a ra) [] b
unfolding fill_rows row dist
fill_rows-row [] i ra b h = refl
fill_rows-row (x ∷ a) i ra b h =
    let counted : i + 1 ≡ suc (length ra) = omega arith in
    rw (counted, fill_row-row x ra [] b) (fill_rows-row a _ (x ∷ ra) b refl)

count_up-row : (k : ℕ) (rb b : Text) → k ≡ length rb → count_up k (suc (length b)) ≡ row [] rb b
unfolding count_up row row_tail dist
count_up-row k rb [] h = ap (λ n. n ∷ []) h
count_up-row k rb (y ∷ b) h = λ j. h j ∷ count_up-row (k + 1) (y ∷ rb) b (omega arith) j

last_or-row : (d : ℕ) (ra rb b : Text) → last_or d (row ra rb b) ≡ dist ra (reverse_aux b rb)
unfolding last_or row row_tail
last_or-row d ra rb [] = refl
last_or-row d ra rb (y ∷ b) = last_or-row (dist ra rb) ra (y ∷ rb) b

by_rows-dist : (a b : Text) → by_rows a b ≡ dist a b
unfolding by_rows dist
by_rows-dist [] [] = refl
by_rows-dist (x ∷ a) [] = refl
by_rows-dist a (y ∷ b) =
    let counted : length (y ∷ b) + 1 ≡ suc (length (y ∷ b)) = omega arith in
    rw (counted, count_up-row 0 [] (y ∷ b) refl, fill_rows-row a 0 [] (y ∷ b) refl, last_or-row)
      (dist-reverse a (y ∷ b))

-- The function computes the distance of the textbook recursion.
levenshtein-dist : (a b : Text) → levenshtein a b ≡ dist a b
unfolding levenshtein
levenshtein-dist a b = ground (arith, by_rows-dist a b, by_rows-dist b a, dist_symm a b)

-- The result is the length of a script of single-character edits from the one text to the other,
-- and no script is shorter.
pub levenshtein_minimal :
    (a b : Text) → Edits a b (levenshtein a b) × ((n : ℕ) → Edits a b n → levenshtein a b ≤ n)
levenshtein_minimal a b = rw levenshtein-dist (dist-Edits a b, λ n e. dist-le e)
