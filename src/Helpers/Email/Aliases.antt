-- ===== src/Helpers/Email/Aliases.antt =====
-- Addresses that canonical_email identifies.
use mcp_awareness.Base.{ℕ, ◌≡◌, refl, ap, false, [], ◌∷◌, ◌++◌, ◌==◌, All, arith}
use mcp_awareness.Base.Text.{Text}
use mcp_awareness.Helpers.Email.{before, behind, join_parts, without_alias}

-- c does not stand in the text
abbrev pub Lacks : ℕ → Text → Type 0
Lacks c = All (λ d. (d == c) ≡ false)

before-append : (c : ℕ) (s t : Text) → Lacks c s → before c (s ++ c ∷ t) ≡ s
unfolding before
before-append c [] t h = ground arith
before-append c (d ∷ s) t h = rw h.0 (ap (◌∷◌ d) (before-append c s t h.1))

behind-append : (c : ℕ) (s t : Text) → Lacks c s → behind c (s ++ c ∷ t) ≡ t
unfolding behind
behind-append c [] t h = ground arith
behind-append c (d ∷ s) t h = rw h.0 (behind-append c s t h.1)

before-Lacks : (c : ℕ) (s : Text) → Lacks c s → before c s ≡ s
unfolding before
before-Lacks c [] h = refl
before-Lacks c (d ∷ s) h = rw h.0 (ap (◌∷◌ d) (before-Lacks c s h.1))

Lacks-append : (c : ℕ) (s t : Text) → Lacks c s → Lacks c t → Lacks c (s ++ t)
Lacks-append c [] t h k = k
Lacks-append c (d ∷ s) t h k = (h.0, Lacks-append c s t h.1 k)

-- What the rest of the function makes of a local part without a tag and a domain.
at_domain :
    (local domain : Text) (d : ℕ)
    → Lacks b'@' local
    → without_alias (local ++ b'@' ∷ d ∷ domain) ≡ join_parts (before b'+' local) (d ∷ domain)
unfolding without_alias
at_domain local domain d h =
    rw (behind-append b'@' local (d ∷ domain) h, before-append b'@' local (d ∷ domain) h) refl

-- Behind the lowering and the stripping, an address with a tag has the canonical form of the
-- address without it, at every domain that is not empty, if the local part has neither @ nor + and
-- the tag has no @.
pub without_alias-tag :
    (local tag domain : Text) (d : ℕ)
    → Lacks b'@' local
    → Lacks b'+' local
    → Lacks b'@' tag
    → without_alias ((local ++ b'+' ∷ tag) ++ b'@' ∷ d ∷ domain)
      ≡ without_alias (local ++ b'@' ∷ d ∷ domain)
without_alias-tag local tag domain d h k g =
    rw
      (
        at_domain (local ++ b'+' ∷ tag) domain d (Lacks-append b'@' local (b'+' ∷ tag) h (refl, g)),
        at_domain local domain d h,
        before-append b'+' local tag k,
        before-Lacks b'+' local k,
      )
      refl
