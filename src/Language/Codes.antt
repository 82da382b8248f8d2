-- ===== src/Language/Codes.antt =====
-- The two maps of src/mcp_awareness/language.py against each other, and the language of an entry.
use mcp_awareness.Base.{
  ◌≡◌, ◌≢◌, ◌⊎◌, refl, ap, Bool, Bool-cases, inl, inr, true, String, [], ◌∷◌, Option, none, some,
  arith, str_eq, eq_iff, or_else, Option-cases, elim-cases, all, All,
}
use mathlib.Core.Path.{subst}
use mcp_awareness.Base.Text.{Text, codes, text_eq, text_eq_iff}
use mcp_awareness.Base.Dict.{Dict, lookup, insert}
use mcp_awareness.Store.{equals}
use mcp_awareness.Language.{
  simple, regconfigs, inverted, get_text, normalized, iso_to_regconfig, regconfig_to_iso, Detector,
  detect_language, detect_language_iso, known_regconfig, detected, resolve_language,
}

get_text-All :
    (P : String → String → Type 0) (k : Text) (v : String) (d : Dict String)
    → All (λ r. P r.0 r.1) d
    → get_text k d ≡ some v
    → (j : String) × (codes j ≡ k) × P j v
unfolding get_text
get_text-All P k v [] a h = absurd (ground arith)
get_text-All P k v ((j, w) ∷ d) a h = elim (Bool-cases (text_eq (codes j) k)) [
  | inl hit ↦
      let same : w ≡ v = ground (arith, rw (get_text, hit) at h) in
      (j, (text_eq_iff (codes j) k).0 hit, subst (P j) same a.0)
  | inr miss ↦ get_text-All P k v d a.1 (rw (get_text, miss) at h)
]

lookup-All :
    (P : String → String → Type 0) (k v : String) (d : Dict String)
    → All (λ r. P r.0 r.1) d
    → lookup k d ≡ some v
    → P k v
unfolding lookup
lookup-All P k v [] a h = absurd (ground arith)
lookup-All P k v ((j, w) ∷ d) a h = elim (Bool-cases (str_eq j k)) [
  | inl hit ↦
      let same : w ≡ v = ground (arith, rw (lookup, hit) at h) in
      subst (λ x. P x v) ((eq_iff j k).0 hit) (subst (P j) same a.0)
  | inr miss ↦ lookup-All P k v d a.1 (rw (lookup, miss) at h)
]

all→All :
    (p : String × String → Bool) (P : String × String → Type 0) (d : Dict String)
    → ((r : String × String) → p r ≡ true → P r)
    → all p d ≡ true
    → All P d
all→All p P [] f h = tt
all→All p P (r ∷ d) f h = (f r (ground (arith, h)), all→All p P d f (ground (arith, h)))

-- the code of the configuration is this one
abbrev inverts : String × String → Bool
inverts r = equals r.0 (regconfig_to_iso (some r.1))

all_invert : all inverts regconfigs ≡ true
unfolding regconfig_to_iso inverted lookup insert
all_invert = refl

equals→eq : (k : String) (o : Option String) → equals k o ≡ true → o ≡ some k
equals→eq k none h = absurd (ground arith)
equals→eq k (some j) h = ap some ((eq_iff j k).0 h)

inverse : All (λ r. regconfig_to_iso (some r.1) ≡ some r.0) regconfigs
inverse = all→All inverts _ regconfigs (λ r h. equals→eq r.0 _ h) all_invert

-- A code that is known, in any case and with white space around it, gives a configuration whose
-- ISO code is that code, stripped and in lower case.
regconfig_to_iso-iso_to_regconfig :
    (s : String)
    → iso_to_regconfig (some s) ≢ simple
    → (iso : String) × (codes iso ≡ normalized s)
      × (regconfig_to_iso (some (iso_to_regconfig (some s))) ≡ some iso)
unfolding iso_to_regconfig
regconfig_to_iso-iso_to_regconfig s known = elim (Bool-cases (str_eq s "")) [
  | inl empty ↦ absurd (known (rw (iso_to_regconfig, empty) refl))
  | inr given ↦ elim (Option-cases (get_text (normalized s) regconfigs)) [
    | inl missing ↦ absurd (known (rw (iso_to_regconfig, given, missing) refl))
    | inr (v, found) ↦
        let same : iso_to_regconfig (some s) ≡ v = rw (iso_to_regconfig, given, found) refl in
        rw same (
          get_text-All (λ k r. regconfig_to_iso (some r) ≡ some k) (normalized s) v regconfigs
            inverse found)
  ]
]

-- the fallback, or the configuration of a code
abbrev pub Regconfig : String → Type 0
Regconfig r = (r ≡ simple) ⊎ ((iso : String) × (regconfig_to_iso (some r) ≡ some iso))

known_regconfig-Regconfig :
    (s : Option String) (r : String) → known_regconfig s ≡ some r → Regconfig r
unfolding known_regconfig
known_regconfig-Regconfig none r h = absurd (ground arith)
known_regconfig-Regconfig (some s) r h =
    elim (Bool-cases (str_eq (iso_to_regconfig (some s)) simple)) [
      | inl same ↦ absurd (ground (arith, rw (known_regconfig, same) at h))
      | inr other ↦
          let is_r : iso_to_regconfig (some s) ≡ r =
            ground (arith, rw (known_regconfig, other) at h) in
          let found =
            regconfig_to_iso-iso_to_regconfig s
              (λ e. ground (arith, e, other, eq_iff (iso_to_regconfig (some s)) simple)) in
          inr (found.0, subst (λ x. regconfig_to_iso (some x) ≡ some found.0) is_r found.2)
    ]

detected-Regconfig :
    (detector : Detector) (s : Option Text) (r : String)
    → detected detector s ≡ some r
    → Regconfig r
unfolding detected detect_language
detected-Regconfig detector none r h = absurd (ground arith)
detected-Regconfig detector (some s) r h = elim (Option-cases (detect_language_iso detector s)) [
  | inl missing ↦ absurd (ground (arith, rw (detect_language, missing) at h))
  | inr (iso, found) ↦ inr (
    iso,
    lookup-All (λ k v. regconfig_to_iso (some v) ≡ some k) iso r regconfigs inverse
        (rw (detect_language, found) at h),
  )
]

or_simple :
    (o : Option String) → ((r : String) → o ≡ some r → Regconfig r) → Regconfig (or_else o simple)
or_simple none f = inl refl
or_simple (some r) f = f r refl

-- The language of an entry is always the fallback or the configuration of an ISO code, whatever
-- the caller, the preference and the detector give.
pub resolve_language-Regconfig :
    (detector : Detector) (explicit user_preference : Option String) (s : Option Text)
    → Regconfig (resolve_language detector explicit user_preference s)
unfolding resolve_language
resolve_language-Regconfig detector explicit user_preference s =
    elim-cases Regconfig (known_regconfig explicit) _ _
      (elim-cases Regconfig (known_regconfig user_preference) _ _
        (or_simple (detected detector s) (λ r h. detected-Regconfig detector s r h))
        (λ r h. known_regconfig-Regconfig user_preference r h))
      (λ r h. known_regconfig-Regconfig explicit r h)
