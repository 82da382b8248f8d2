-- ===== src/Base/Marks.antt =====
-- Numbers as texts of marks, which the tests take for the texts of instants.
use Prim.Native.Nat.{ℕ}
use Prim.Native.String.{String}
use mathlib.Core.Path.{◌≡◌, refl, ap}

abbrev pub marks : ℕ → String
marks ℕ.zero = ""
marks (ℕ.suc n) = String.◌∷◌ "|" (marks n)

abbrev pub count_marks : String → ℕ
count_marks String.[] = 0
count_marks (String.◌∷◌ c s) = ℕ.suc (count_marks s)

pub count_marks-marks : (n : ℕ) → count_marks (marks n) ≡ n
count_marks-marks ℕ.zero = refl
count_marks-marks (ℕ.suc n) = ap ℕ.suc (count_marks-marks n)
