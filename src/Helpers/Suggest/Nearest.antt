-- ===== src/Helpers/Suggest/Nearest.antt =====
-- What a suggestion is: the nearest valid value, if one is near enough.
use mathlib.Core.Path.{subst}
use mcp_awareness.Base.{
  ℕ, ◌≤◌, ◌<◌, ◌≡◌, refl, ◌⊎◌, inl, inr, true, false, String, List, [], ◌∷◌, Option, none, some,
  arith, All, Any, here, there, ltb, ltb→lt, Bool-cases, ◌↔◌,
}
use mcp_awareness.Base.Text.{Text, lower_codes}
use mcp_awareness.Helpers.Suggest.{is_in, gap, suggest_from, suggest}

-- No value of the list is nearer than d.
abbrev pub NoneNearer : Text → ℕ → List String → Type 0
NoneNearer target d = All (λ w. d ≤ gap target w)

NoneNearer-mono :
    (target : Text) (d e : ℕ) (vs : List String)
    → d ≤ e
    → NoneNearer target e vs
    → NoneNearer target d vs
NoneNearer-mono target d e [] h k = tt
NoneNearer-mono target d e (v ∷ vs) h k = (omega (arith, k.0), NoneNearer-mono target d e vs h k.1)

suggest_from-none :
    (target : Text) (vs : List String) (best : Option String) (d : ℕ)
    → suggest_from target vs best d ≡ none
    → (best ≡ none) × NoneNearer target d vs
unfolding suggest_from
suggest_from-none target [] best d h = (h, tt)
suggest_from-none target (v ∷ vs) best d h = elim (Bool-cases (ltb (gap target v) d)) [
  | inl near ↦
      let (same, rest) = suggest_from-none target vs (some v) (gap target v) (rw near at h) in cc
  | inr far ↦
      let (same, rest) = suggest_from-none target vs best d (rw far at h) in
      (same, (ground arith, rest))
]

suggest_from_keep :
    (target : Text) (vs : List String) (best : Option String) (d : ℕ)
    → NoneNearer target d vs
    → suggest_from target vs best d ≡ best
unfolding suggest_from
suggest_from_keep target [] best d far = refl
suggest_from_keep target (v ∷ vs) best d far =
    ground (arith, suggest_from_keep target vs best d far.1)

-- What the loop returns: the value it was given, if nothing is nearer, or a nearest one.
suggest_from-some :
    (target : Text) (vs : List String) (best : Option String) (d : ℕ) (v : String)
    → suggest_from target vs best d ≡ some v
    → ((best ≡ some v) × NoneNearer target d vs)
      ⊎ (Any (λ w. w ≡ v) vs × (gap target v < d) × NoneNearer target (gap target v) vs)
unfolding suggest_from
suggest_from-some target [] best d v h = inl (h, tt)
suggest_from-some target (w ∷ vs) best d v h = elim (Bool-cases (ltb (gap target w) d)) [
  | inl near ↦ elim (suggest_from-some target vs (some w) (gap target w) v (rw near at h)) [
    | inl (same, rest) ↦
        let e : w ≡ v = cc in
        inr (
          here e,
          subst (λ u. gap target u < d) e (ltb→lt _ _ near),
          subst (λ u. NoneNearer target (gap target u) (w ∷ vs)) e (omega arith, rest),
        )
    | inr (found, less, rest) ↦
        inr (there found, omega (arith, ltb→lt (gap target w) d near), (omega arith, rest))
  ]
  | inr far ↦ elim (suggest_from-some target vs best d v (rw far at h)) [
    | inl (same, rest) ↦ inl (same, (ground arith, rest))
    | inr (found, less, rest) ↦ inr (there found, less, (ground arith, rest))
  ]
]

-- A suggestion is a valid value at distance 2 at most, and no valid value is nearer. It is made
-- only for a value that is not valid itself.
pub suggest_nearest :
    (value : String) (valid : List String) (v : String)
    → suggest value valid ≡ some v
    → (is_in value valid ≡ false)
      × Any (λ w. w ≡ v) valid
      × (gap (lower_codes value) v ≤ 2)
      × NoneNearer (lower_codes value) (gap (lower_codes value) v) valid
unfolding suggest
suggest_nearest value valid v h = elim (Bool-cases (is_in value valid)) [
  | inl old ↦ cc (rw old at h)
  | inr new ↦ elim (suggest_from-some (lower_codes value) valid none 3 v (rw new at h)) [
    | inl (same, rest) ↦ cc
    | inr (found, less, rest) ↦ (new, found, omega arith, rest)
  ]
]

-- There is no suggestion exactly if the value is valid or no valid value is within distance 2.
pub suggest-eq-none_iff :
    (value : String) (valid : List String)
    → (suggest value valid ≡ none)
      ↔ ((is_in value valid ≡ true) ⊎ NoneNearer (lower_codes value) 3 valid)
unfolding suggest
suggest-eq-none_iff value valid = (forth, back)
  where
    forth :
        suggest value valid ≡ none
        → (is_in value valid ≡ true) ⊎ NoneNearer (lower_codes value) 3 valid
    forth h = elim (Bool-cases (is_in value valid)) [
      | inl old ↦ inl old
      | inr new ↦ inr ((suggest_from-none (lower_codes value) valid none 3 (rw new at h)).1)
    ]

    back :
        (is_in value valid ≡ true) ⊎ NoneNearer (lower_codes value) 3 valid
        → suggest value valid ≡ none
    back (inl old) = rw old
    back (inr far) = elim (Bool-cases (is_in value valid)) [
      | inl old ↦ rw old
      | inr new ↦ rw new (suggest_from_keep (lower_codes value) valid none 3 far)
    ]
