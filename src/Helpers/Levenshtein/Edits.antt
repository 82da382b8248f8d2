-- ===== src/Helpers/Levenshtein/Edits.antt =====
-- Edit scripts, and the distance by its textbook recursion. Independent of the code.
use Prim.Native.Nat.{zero}
use mathlib.Core.List.{reverse-cons, reverse-reverse, append-nil}
use native.Mathlib.Nat.{le_antisymm}
use native.Mathlib.Decide.{dec_le}
use mcp_awareness.Base.{
  ℕ, suc, ◌+◌, ◌≤◌, min, ◌≡◌, sym, ◌⊎◌, inl, inr, [], ◌∷◌, ◌++◌, reverse, arith, ◌==◌,
  if◌then◌else◌, length, Bool-cases, ==_iff,
}
use mathlib.Core.Path.{subst}
use mcp_awareness.Base.Text.{Text}

-- `Edits a b n`: a script of n single-character edits that turns a into b.
pub data Edits : Text → Text → ℕ → Type 0 where
  done : Edits [] [] zero
  keep : {x y n : ℕ} {a b : Text} → x ≡ y → Edits a b n → Edits (x ∷ a) (y ∷ b) n
  replace : {x y n : ℕ} {a b : Text} → Edits a b n → Edits (x ∷ a) (y ∷ b) (suc n)
  delete : {x n : ℕ} {a b : Text} → Edits a b n → Edits (x ∷ a) b (suc n)
  insert : {y n : ℕ} {a b : Text} → Edits a b n → Edits a (y ∷ b) (suc n)

unfoldable pub dist : Text → Text → ℕ
dist [] b = length b
dist (x ∷ a) [] = suc (length a)
dist (x ∷ a) (y ∷ b) =
    min (min (dist a (y ∷ b) + 1) (dist (x ∷ a) b + 1)) (dist a b + (if x == y then 0 else 1))

cast : {a b : Text} {n m : ℕ} → n ≡ m → Edits a b n → Edits a b m
cast {a} {b} p = subst (Edits a b) p

min_choice : (p q : ℕ) → (min p q ≡ p) ⊎ (min p q ≡ q)
min_choice p q = elim (dec_le p q) [ yes h ↦ inl (omega arith) | no h ↦ inr (omega arith) ]

choose : {a b : Text} (p q : ℕ) → Edits a b p → Edits a b q → Edits a b (min p q)
choose p q e f = elim (min_choice p q) [ inl h ↦ cast (sym h) e | inr h ↦ cast (sym h) f ]

delete_all : (a : Text) → Edits a [] (length a)
delete_all [] = done
delete_all (x ∷ a) = delete (delete_all a)

insert_all : (b : Text) → Edits [] b (length b)
insert_all [] = done
insert_all (y ∷ b) = insert (insert_all b)

pair :
    {a b : Text} (x y n : ℕ) → Edits a b n → Edits (x ∷ a) (y ∷ b) (n + (if x == y then 0 else 1))
pair x y n e = elim (Bool-cases (x == y)) [
  | inl same ↦ rw same (cast (omega arith) (keep ((==_iff x y).0 same) e))
  | inr other ↦ rw other (cast (omega arith) (replace e))
]

-- The distance is reached by a script.
pub dist-Edits : (a b : Text) → Edits a b (dist a b)
unfolding dist
dist-Edits [] b = insert_all b
dist-Edits (x ∷ a) [] = delete (delete_all a)
dist-Edits (x ∷ a) (y ∷ b) =
    choose _ _
      (choose _ _ (cast (omega arith) (delete (dist-Edits a (y ∷ b))))
        (cast (omega arith) (insert (dist-Edits (x ∷ a) b))))
      (pair x y _ (dist-Edits a b))

dist-delete-le : (x : ℕ) (a b : Text) → dist (x ∷ a) b ≤ dist a b + 1
unfolding dist
dist-delete-le x [] [] = omega arith
dist-delete-le x (z ∷ a) [] = omega arith
dist-delete-le x [] (y ∷ b) = omega arith
dist-delete-le x (z ∷ a) (y ∷ b) = omega arith

dist-insert-le : (y : ℕ) (a b : Text) → dist a (y ∷ b) ≤ dist a b + 1
unfolding dist
dist-insert-le y [] b = omega arith
dist-insert-le y (x ∷ a) [] = omega arith
dist-insert-le y (x ∷ a) (z ∷ b) = omega arith

-- No script is shorter.
pub dist-le : {a b : Text} {n : ℕ} → Edits a b n → dist a b ≤ n
unfolding dist
dist-le done = omega arith
dist-le (keep p e) = ground (arith, dist-le e)
dist-le (replace e) = ground (arith, dist-le e)
dist-le (delete {x = x} {a = a} {b = b} e) = omega (arith, dist-le e, dist-delete-le x a b)
dist-le (insert {y = y} {a = a} {b = b} e) = omega (arith, dist-le e, dist-insert-le y a b)

pub Edits-symm : {a b : Text} {n : ℕ} → Edits a b n → Edits b a n
Edits-symm done = done
Edits-symm (keep p e) = keep (sym p) (Edits-symm e)
Edits-symm (replace e) = replace (Edits-symm e)
Edits-symm (delete e) = insert (Edits-symm e)
Edits-symm (insert e) = delete (Edits-symm e)

-- A script followed by one for what comes behind.
Edits-append :
    {a b : Text} {n : ℕ} (c d : Text) (m : ℕ)
    → Edits a b n
    → Edits c d m
    → Edits (a ++ c) (b ++ d) (n + m)
Edits-append c d m done f = cast (omega arith) f
Edits-append c d m (keep p e) f = keep p (Edits-append c d m e f)
Edits-append c d m (replace e) f = cast (omega arith) (replace (Edits-append c d m e f))
Edits-append c d m (delete e) f = cast (omega arith) (delete (Edits-append c d m e f))
Edits-append c d m (insert e) f = cast (omega arith) (insert (Edits-append c d m e f))

Edits-reverse : {a b : Text} {n : ℕ} → Edits a b n → Edits (reverse a) (reverse b) n
Edits-reverse done = done
Edits-reverse (keep {x = x} {y = y} {a = a} {b = b} p e) =
    rw (reverse-cons x a, reverse-cons y b)
      (cast (omega arith) (Edits-append _ _ 0 (Edits-reverse e) (keep p done)))
Edits-reverse (replace {x = x} {y = y} {a = a} {b = b} e) =
    rw (reverse-cons x a, reverse-cons y b)
      (cast (omega arith) (Edits-append _ _ 1 (Edits-reverse e) (replace done)))
Edits-reverse (delete {x = x} {n = n} {a = a} {b = b} e) = rw reverse-cons (
    subst (λ l. Edits (reverse a ++ x ∷ []) l (suc n)) (append-nil (reverse b))
      (cast (omega arith) (Edits-append (x ∷ []) [] 1 (Edits-reverse e) (delete done))))
Edits-reverse (insert {y = y} {n = n} {a = a} {b = b} e) = rw reverse-cons (
    subst (λ l. Edits l (reverse b ++ y ∷ []) (suc n)) (append-nil (reverse a))
      (cast (omega arith) (Edits-append [] (y ∷ []) 1 (Edits-reverse e) (insert done))))

-- Read from either end, the distance is the same.
pub dist-reverse : (a b : Text) → dist (reverse a) (reverse b) ≡ dist a b
dist-reverse a b = le_antisymm (dist-le (Edits-reverse (dist-Edits a b))) back
  where
    back : dist a b ≤ dist (reverse a) (reverse b)
    back =
        rw (reverse-reverse a, reverse-reverse b) at
          (dist-le (Edits-reverse (dist-Edits (reverse a) (reverse b))))

pub dist_symm : (a b : Text) → dist a b ≡ dist b a
dist_symm a b =
    le_antisymm (dist-le (Edits-symm (dist-Edits b a))) (dist-le (Edits-symm (dist-Edits a b)))
