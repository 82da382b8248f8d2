-- ===== src/Base/Lists.antt =====
-- Lists measured by native numbers, with Boolean tests, and predicates over all of a list.
use Prim.Native.Nat.{ℕ, zero, suc, ◌+◌, ◌-◌, ◌≤◌, min}
use mathlib.Core.Bool.{Bool, true, false, ◌&&◌, ◌||◌}
use mathlib.Core.List.{List, [], ◌∷◌, ◌++◌, map}
use mathlib.Core.Path.{◌≡◌, refl, ap}
use native.Mathlib.Omega.{arith}
use mathlib.Core.Logic.{◌↔◌, inl, inr}
use mcp_awareness.Base.Tests.{if◌then◌else◌, Bool-cases}

module _ {ℓ} {A : Type ℓ} where
  abbrev pub length : List A → ℕ
  length [] = 0
  length (x ∷ xs) = suc (length xs)

  abbrev pub drop : ℕ → List A → List A
  drop zero xs = xs
  drop (suc n) [] = []
  drop (suc n) (x ∷ xs) = drop n xs

  -- `xs[:n]`
  abbrev pub take : ℕ → List A → List A
  take zero xs = []
  take (suc n) [] = []
  take (suc n) (x ∷ xs) = x ∷ take n xs

  -- `any(p(x) for x in xs)`
  abbrev pub any : (A → Bool) → List A → Bool
  any p [] = false
  any p (x ∷ xs) = p x || any p xs

  abbrev pub all : (A → Bool) → List A → Bool
  all p [] = true
  all p (x ∷ xs) = p x && all p xs

  -- `[x for x in xs if p(x)]`
  abbrev pub keep : (A → Bool) → List A → List A
  keep p [] = []
  keep p (x ∷ xs) = if p x then x ∷ keep p xs else keep p xs

  pub length-append : (xs ys : List A) → length (xs ++ ys) ≡ length xs + length ys
  length-append [] ys = omega arith
  length-append (x ∷ xs) ys = omega (arith, length-append xs ys)

  pub length-take : (n : ℕ) (xs : List A) → length (take n xs) ≡ min n (length xs)
  length-take zero xs = omega arith
  length-take (suc n) [] = omega arith
  length-take (suc n) (x ∷ xs) = omega (arith, length-take n xs)

  pub length-drop : (n : ℕ) (xs : List A) → length (drop n xs) ≡ length xs - n
  length-drop zero xs = omega arith
  length-drop (suc n) [] = omega arith
  length-drop (suc n) (x ∷ xs) = omega (arith, length-drop n xs)

  pub length-keep-le : (p : A → Bool) (xs : List A) → length (keep p xs) ≤ length xs
  length-keep-le p [] = omega arith
  length-keep-le p (x ∷ xs) = ground (arith, length-keep-le p xs)

  pub take-append-drop : (n : ℕ) (xs : List A) → take n xs ++ drop n xs ≡ xs
  take-append-drop zero xs = refl
  take-append-drop (suc n) [] = refl
  take-append-drop (suc n) (x ∷ xs) = ap (◌∷◌ x) (take-append-drop n xs)

  pub drop-drop : (m n : ℕ) (xs : List A) → drop m (drop n xs) ≡ drop (n + m) xs
  drop-drop m zero xs = rw zero-plus
    where
      zero-plus : zero + m ≡ m
      zero-plus = omega arith
  drop-drop zero (suc n) [] = rw step
    where
      step : suc n + zero ≡ suc (n + zero)
      step = omega arith
  drop-drop (suc m) (suc n) [] = rw step
    where
      step : suc n + suc m ≡ suc (n + suc m)
      step = omega arith
  drop-drop m (suc n) (x ∷ xs) = rw step (drop-drop m n xs)
    where
      step : suc n + m ≡ suc (n + m)
      step = omega arith

  -- `items[:bound]` of a list that is short enough
  pub take_of_length-le :
      (bound : ℕ) (items : List A) → length items ≤ bound → take bound items ≡ items
  take_of_length-le zero [] short = refl
  take_of_length-le (suc bound) [] short = refl
  take_of_length-le zero (item ∷ items) short = absurd (omega arith)
  take_of_length-le (suc bound) (item ∷ items) short =
      ap (◌∷◌ item) (take_of_length-le bound items (omega arith))

  pub drop_of_length-le : (n : ℕ) (xs : List A) → length xs ≤ n → drop n xs ≡ []
  drop_of_length-le zero [] h = refl
  drop_of_length-le zero (x ∷ xs) h = absurd (omega arith)
  drop_of_length-le (suc n) [] h = refl
  drop_of_length-le (suc n) (x ∷ xs) h = drop_of_length-le n xs (omega arith)

module _ {ℓ κ} {A : Type ℓ} (P : A → Type κ) where
  abbrev pub All : List A → Type κ
  All [] = Unit
  All (x ∷ xs) = P x × All xs

  -- Some element of the list, with a proof that it has the property.
  pub data Any : List A → Type (ℓ ⊔ κ) where
    here : {x : A} {xs : List A} → P x → Any (x ∷ xs)
    there : {x : A} {xs : List A} → Any xs → Any (x ∷ xs)

  pub All-append : (xs ys : List A) → All xs → All ys → All (xs ++ ys)
  All-append [] ys h k = k
  All-append (x ∷ xs) ys h k = (h.0, All-append xs ys h.1 k)

  pub All-keep : (q : A → Bool) (xs : List A) → All xs → All (keep q xs)
  All-keep q [] v = tt
  All-keep q (x ∷ xs) v = elim (Bool-cases (q x)) [
    | inl b ↦ rw b (v.0, All-keep q xs v.1)
    | inr b ↦ rw b (All-keep q xs v.1)
  ]

  pub All-take : (n : ℕ) (xs : List A) → All xs → All (take n xs)
  All-take zero xs v = tt
  All-take (suc n) [] v = tt
  All-take (suc n) (x ∷ xs) v = (v.0, All-take n xs v.1)

  pub All-drop : (n : ℕ) (xs : List A) → All xs → All (drop n xs)
  All-drop zero xs v = v
  All-drop (suc n) [] v = tt
  All-drop (suc n) (x ∷ xs) v = All-drop n xs v.1

pub length-map {ℓ κ} :
    {A : Type ℓ} {B : Type κ} (f : A → B) (xs : List A) → length (map f xs) ≡ length xs
length-map f [] = refl
length-map f (x ∷ xs) = ap suc (length-map f xs)

module _ {ℓ κ} {A : Type ℓ} {P : A → Type κ} where
  pub any→Any :
      (p : A → Bool) (xs : List A) → ((x : A) → p x ≡ true → P x) → any p xs ≡ true → Any P xs
  any→Any p [] f h = absurd (ground arith)
  any→Any p (x ∷ xs) f h = elim (Bool-cases (p x)) [
    | inl hit ↦ here (f x hit)
    | inr miss ↦ there (any→Any p xs f (rw miss at h))
  ]

  pub Any→any :
      (p : A → Bool) {xs : List A} → ((x : A) → P x → p x ≡ true) → Any P xs → any p xs ≡ true
  Any→any p f (here {x = x} h) = rw (f x h)
  Any→any p f (there {x = x} a) = elim (Bool-cases (p x)) [
    | inl hit ↦ rw hit
    | inr miss ↦ rw miss (Any→any p f a)
  ]

  pub Any-keep : (p : A → Bool) (xs : List A) → Any P (keep p xs) → Any (λ x. P x × (p x ≡ true)) xs
  Any-keep p [] a = elim a [ ]
  Any-keep p (x ∷ xs) a = elim (Bool-cases (p x)) [
    | inl hit ↦ uncons hit (rw hit at a) (Any-keep p xs)
    | inr miss ↦ there (Any-keep p xs (rw miss at a))
  ]
    where
      uncons :
          p x ≡ true
          → Any P (x ∷ keep p xs)
          → (Any P (keep p xs) → Any (λ y. P y × (p y ≡ true)) xs)
          → Any (λ y. P y × (p y ≡ true)) (x ∷ xs)
      uncons hit (here h) rec = here (h, hit)
      uncons hit (there b) rec = there (rec b)

  pub keep-Any : (p : A → Bool) {xs : List A} → Any (λ x. P x × (p x ≡ true)) xs → Any P (keep p xs)
  keep-Any p (here h) = rw (h.1) (here (h.0))
  keep-Any p (there {x = x} a) = elim (Bool-cases (p x)) [
    | inl hit ↦ rw hit (there (keep-Any p a))
    | inr miss ↦ rw miss (keep-Any p a)
  ]

module _ {ℓ} {A : Type ℓ} where
  pub keep-eq-nil_iff : (p : A → Bool) (xs : List A) → (keep p xs ≡ []) ↔ All (λ x. p x ≡ false) xs
  keep-eq-nil_iff p [] = (λ h. tt, λ h. refl)
  keep-eq-nil_iff p (x ∷ xs) = elim (Bool-cases (p x)) [
    | inl hit ↦ rw hit (λ h. cc, λ h. cc)
    | inr miss ↦
        rw miss (λ h. (refl, (keep-eq-nil_iff p xs).0 h), λ h. (keep-eq-nil_iff p xs).1 h.1)
  ]

  pub keep-keep : (p q : A → Bool) (xs : List A) → keep q (keep p xs) ≡ keep (λ x. p x && q x) xs
  keep-keep p q [] = refl
  keep-keep p q (x ∷ xs) = elim (Bool-cases (p x)) [
    | inl hit ↦ rw hit (ap (λ l. if q x then x ∷ l else l) (keep-keep p q xs))
    | inr miss ↦ rw miss (keep-keep p q xs)
  ]

module _ {ℓ κ κ'} {A : Type ℓ} {P : A → Type κ} {Q : A → Type κ'} where
  pub Any-map : {xs : List A} → ((x : A) → P x → Q x) → Any P xs → Any Q xs
  Any-map f (here {x = x} h) = here (f x h)
  Any-map f (there a) = there (Any-map f a)

  pub All-map : (xs : List A) → ((x : A) → P x → Q x) → All P xs → All Q xs
  All-map [] f h = tt
  All-map (x ∷ xs) f h = (f x h.0, All-map xs f h.1)
