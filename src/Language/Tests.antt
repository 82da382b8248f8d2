-- ===== src/Language/Tests.antt =====
-- The languages of some entries, and the theorems of the language at them.
use mcp_awareness.Base.{◌≡◌, ◌≢◌, refl, sym, ◌∙◌, arith, eq_iff, [], ◌∷◌, none, some}
use mcp_awareness.Base.Json.{text}
use mcp_awareness.Base.Text.{codes, strip, strip_left, is_space, to_lower, text_eq}
use mcp_awareness.Base.Dict.{lookup}
use mcp_awareness.Language.{
  simple, iso_to_regconfig, get_text, resolve_language, compose_detection_text, known_regconfig,
}
use mcp_awareness.Language.Codes.{Regconfig, resolve_language-Regconfig}

french : iso_to_regconfig (some " FR ") ≡ "french"
unfolding iso_to_regconfig get_text strip strip_left is_space to_lower text_eq
french = refl

french_is_known : iso_to_regconfig (some " FR ") ≢ simple
french_is_known e = ground (arith, (eq_iff "french" simple).1 (sym french ∙ e))

-- a code that is not known falls through to the preference
preferred : resolve_language none (some "ja") (some "de") none ≡ "german"
unfolding resolve_language known_regconfig iso_to_regconfig get_text strip strip_left is_space
    to_lower text_eq
preferred = refl

composed :
    compose_detection_text "note" (("description", text "a") ∷ ("content", text "b") ∷ [])
    ≡ codes "a b"
unfolding compose_detection_text strip strip_left is_space to_lower text_eq lookup
composed = refl

resolve_language-Regconfig_example :
    Regconfig (resolve_language (some (λ s. some "it")) (some "ja") none (some (codes "un testo")))
resolve_language-Regconfig_example =
    resolve_language-Regconfig (some (λ s. some "it")) (some "ja") none (some (codes "un testo"))
