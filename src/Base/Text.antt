-- ===== src/Base/Text.antt =====
-- Python's str. Where the program compares whole texts they are `String`; where it walks one it is
-- `Text`, the list of the code points. Case mapping and white space are those of ASCII.
use Prim.Native.Char.{code}
use Prim.Native.Nat.{ℕ, ◌+◌}
use Prim.Native.String.{String}
use text.Mathlib.Text.{◌==◌ as str_eq}
use mathlib.Core.Bool.{Bool, true, false, not, ◌&&◌, ◌||◌}
use mathlib.Core.List.{List, [], ◌∷◌, map, reverse}
use mathlib.Core.Logic.{◌↔◌}
use mathlib.Core.Option.{Option, none, some}
use mathlib.Core.Path.{◌≡◌, refl}
use native.Mathlib.Omega.{arith}
use mcp_awareness.Base.Tests.{leb, ◌==◌, if◌then◌else◌}

abbrev pub Text : Type 0
Text = List ℕ

abbrev pub codes : String → Text
codes String.[] = []
codes (String.◌∷◌ c s) = code c ∷ codes s

pub is_upper : ℕ → Bool
is_upper c = leb b'A' c && leb c b'Z'

unfoldable pub to_lower : ℕ → ℕ
unfolding is_upper
to_lower c = if is_upper c then c + 32 else c

pub to_lower_idem : (c : ℕ) → to_lower (to_lower c) ≡ to_lower c
unfolding to_lower
to_lower_idem c = ground arith

-- s.lower()
abbrev pub lower : Text → Text
lower = map to_lower

-- c.isspace(), below U+0080
unfoldable pub is_space : ℕ → Bool
is_space c = (leb 9 c && leb c 13) || (leb 28 c && leb c 32)

pub is_space-to_lower : (c : ℕ) → is_space (to_lower c) ≡ is_space c
unfolding is_space to_lower
is_space-to_lower c = ground arith

unfoldable pub text_eq : Text → Text → Bool
text_eq [] [] = true
text_eq [] (y ∷ ys) = false
text_eq (x ∷ xs) [] = false
text_eq (x ∷ xs) (y ∷ ys) = x == y && text_eq xs ys

text_eq→eq : (s t : Text) → text_eq s t ≡ true → s ≡ t
unfolding text_eq
text_eq→eq [] [] h = refl
text_eq→eq [] (y ∷ ys) h = ground arith
text_eq→eq (x ∷ xs) [] h = ground arith
text_eq→eq (x ∷ xs) (y ∷ ys) h = ground (arith, text_eq→eq xs ys)

pub text_eq_refl : (s : Text) → text_eq s s ≡ true
unfolding text_eq
text_eq_refl [] = refl
text_eq_refl (x ∷ xs) = ground (arith, text_eq_refl xs)

pub text_eq_iff : (s t : Text) → (text_eq s t ≡ true) ↔ (s ≡ t)
text_eq_iff s t = (text_eq→eq s t, λ p. rw p (text_eq_refl t))

-- s.startswith(p)
unfoldable pub starts_with : Text → Text → Bool
starts_with s [] = true
starts_with [] (c ∷ p) = false
starts_with (d ∷ s) (c ∷ p) = d == c && starts_with s p

-- `p in s`
unfoldable pub contains : Text → Text → Bool
unfolding starts_with
contains [] p = starts_with [] p
contains (c ∷ s) p = starts_with (c ∷ s) p || contains s p

-- s.lstrip()
unfoldable pub strip_left : Text → Text
strip_left [] = []
strip_left (c ∷ s) = if is_space c then strip_left s else c ∷ s

-- s.strip()
unfoldable pub strip : Text → Text
unfolding strip_left
strip s = reverse (strip_left (reverse (strip_left s)))

-- one code point put before the words of the rest of the text
unfoldable pub add_to_word : Bool → ℕ → List Text → List Text
add_to_word true c (w ∷ ws) = (c ∷ w) ∷ ws
add_to_word true c [] = (c ∷ []) ∷ []
add_to_word false c ws = (c ∷ []) ∷ ws

-- the text begins inside a word
abbrev pub opens_word : Text → Bool
opens_word [] = false
opens_word (c ∷ s) = if is_space c then false else true

-- s.split(): the words between runs of white space
unfoldable pub split : Text → List Text
unfolding add_to_word
split [] = []
split (c ∷ s) = if is_space c then split s else add_to_word (opens_word s) c (split s)

split_example : split (codes " disk  io ") ≡ codes "disk" ∷ codes "io" ∷ []
unfolding split is_space
split_example = refl

-- s.lower(), of a whole text
abbrev pub lower_codes : String → Text
lower_codes s = lower (codes s)

-- a string is true unless it is empty, and None is false
abbrev pub is_truthy : Option String → Bool
is_truthy none = false
is_truthy (some s) = not (str_eq s "")
