-- ===== src/Helpers/Email.antt =====
-- `canonical_email` of src/mcp_awareness/helpers.py, on texts.
pub mod Aliases
use mcp_awareness.Base.{
  ℕ, Bool, true, false, not, ◌||◌, List, [], ◌∷◌, ◌++◌, ◌==◌, if◌then◌else◌, keep,
}
use mcp_awareness.Base.Text.{Text, codes, lower, strip, text_eq}

-- the part before the first c: `s.partition(c)[0]`, and `s.split(c)[0]`
unfoldable pub before : ℕ → Text → Text
before c [] = []
before c (d ∷ s) = if d == c then [] else d ∷ before c s

-- the part behind the first c: `s.partition(c)[2]`
unfoldable pub behind : ℕ → Text → Text
behind c [] = []
behind c (d ∷ s) = if d == c then s else behind c s

abbrev pub is_gmail : Text → Bool
is_gmail domain = text_eq domain (codes "gmail.com") || text_eq domain (codes "googlemail.com")

abbrev pub without_dots : Text → Text
without_dots = keep (λ c. not (c == b'.'))

abbrev is_empty : Text → Bool
is_empty [] = true
is_empty (c ∷ s) = false

-- the local part without its tag, and for Gmail without its dots, at the domain
unfoldable pub join_parts : Text → Text → Text
join_parts local domain =
    if is_gmail domain then without_dots local ++ codes "@gmail.com" else local ++ b'@' ∷ domain

-- the function behind `email.lower().strip()`
unfoldable pub without_alias : Text → Text
unfolding join_parts
without_alias email =
    if is_empty (behind b'@' email)
    then email
    else join_parts (before b'+' (before b'@' email)) (behind b'@' email)

unfoldable pub canonical_email : Text → Text
unfolding without_alias
canonical_email email = without_alias (strip (lower email))
