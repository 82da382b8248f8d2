-- ===== src/Language.antt =====
-- src/mcp_awareness/language.py: the text search configuration of an entry. The detector of the
-- lingua package is a parameter, `none` where the package is not installed; it gives the ISO code
-- of the language that it detects. A field that is no text is not modelled.
pub mod Codes
mod Tests
use mcp_awareness.Base.{
  ℕ, Bool, true, false, not, String, List, [], ◌∷◌, ◌++◌, Option, none, some, str_eq, ltb,
  if◌then◌else◌, or_else, length,
}
use mcp_awareness.Base.Text.{Text, codes, text_eq, lower, strip, is_truthy}
use mcp_awareness.Base.Dict.{Dict, lookup, insert}
use mcp_awareness.Store.{Data, text_at}

abbrev pub simple : String
simple = "simple"

-- ISO_639_1_TO_REGCONFIG
abbrev pub regconfigs : Dict String
regconfigs =
    ("ar", "arabic")
    ∷ ("hy", "armenian")
    ∷ ("eu", "basque")
    ∷ ("ca", "catalan")
    ∷ ("da", "danish")
    ∷ ("nl", "dutch")
    ∷ ("en", "english")
    ∷ ("fi", "finnish")
    ∷ ("fr", "french")
    ∷ ("de", "german")
    ∷ ("el", "greek")
    ∷ ("hi", "hindi")
    ∷ ("hu", "hungarian")
    ∷ ("id", "indonesian")
    ∷ ("ga", "irish")
    ∷ ("it", "italian")
    ∷ ("lt", "lithuanian")
    ∷ ("ne", "nepali")
    ∷ ("no", "norwegian")
    ∷ ("pt", "portuguese")
    ∷ ("ro", "romanian")
    ∷ ("ru", "russian")
    ∷ ("sr", "serbian")
    ∷ ("es", "spanish")
    ∷ ("sv", "swedish")
    ∷ ("ta", "tamil")
    ∷ ("tr", "turkish")
    ∷ ("yi", "yiddish")
    ∷ []

-- {v: k for k, v in d.items()}
unfoldable pub inverted : Dict String → Dict String → Dict String
inverted d [] = d
inverted d ((k, v) ∷ e) = inverted (insert v k d) e

-- d.get(k), of a key that is computed
unfoldable pub get_text : Text → Dict String → Option String
get_text k [] = none
get_text k ((j, v) ∷ d) = if text_eq (codes j) k then some v else get_text k d

-- iso_code.strip().lower()
abbrev pub normalized : String → Text
normalized s = lower (strip (codes s))

unfoldable pub iso_to_regconfig : Option String → String
unfolding get_text strip
iso_to_regconfig none = simple
iso_to_regconfig (some s) =
    if str_eq s "" then simple else or_else (get_text (normalized s) regconfigs) simple

unfoldable pub regconfig_to_iso : Option String → Option String
unfolding inverted
regconfig_to_iso none = none
regconfig_to_iso (some s) =
    if str_eq s ""
    then none
    else if str_eq s simple
    then none
    else lookup s (inverted [] regconfigs)

abbrev pub min_detection_length : ℕ
min_detection_length = 20

abbrev pub Detector : Type 0
Detector = Option (Text → Option String)

-- the code that the detector gives for a text that is long enough
unfoldable pub detect_language_iso : Detector → Text → Option String
detect_language_iso detector s =
    if ltb (length (strip s)) min_detection_length
    then none
    else elim detector [ none ↦ none | some detect ↦ detect s ]

unfoldable pub detect_language : Detector → Text → Option String
unfolding detect_language_iso
detect_language detector s = elim (detect_language_iso detector s) [
  | none ↦ none
  | some iso ↦ lookup iso regconfigs
]

-- the configuration of a code, if it is not the fallback
unfoldable pub known_regconfig : Option String → Option String
unfolding iso_to_regconfig
known_regconfig s = if str_eq (iso_to_regconfig s) simple then none else some (iso_to_regconfig s)

-- `none` is a text that is None or empty
unfoldable pub detected : Detector → Option Text → Option String
unfolding detect_language
detected detector none = none
detected detector (some s) = detect_language detector s

unfoldable pub resolve_language : Detector → Option String → Option String → Option Text → String
unfolding known_regconfig detected
resolve_language detector explicit user_preference text_for_detection =
    elim (known_regconfig explicit) [
      | some mapped ↦ mapped
      | none ↦ elim (known_regconfig user_preference) [
        | some mapped ↦ mapped
        | none ↦ or_else (detected detector text_for_detection) simple
      ]
    ]

-- `str(data.get(key) or "")`
abbrev pub field_text : String → Data → Text
field_text key d = codes (or_else (text_at key d) "")

-- `goal or desc`
abbrev first_text : Text → Text → Text
first_text [] t = t
first_text (c ∷ s) t = c ∷ s

unfoldable pub compose_detection_text : String → Data → Text
compose_detection_text entry_type d =
    let kind = lower (codes entry_type) in
    let desc = field_text "description" d in
    if text_eq kind (codes "pattern")
    then strip (desc ++ b' ' ∷ field_text "effect" d)
    else if text_eq kind (codes "note")
    then strip (desc ++ b' ' ∷ field_text "content" d)
    else if text_eq kind (codes "intention")
    then first_text (field_text "goal" d) desc
    else desc
