-- ===== src/Helpers/Suggest.antt =====
-- `_suggest`, `_validate_enum` and the fields of `_error_response` of
-- src/mcp_awareness/helpers.py. A set of valid values is the list of them in the order in which
-- the loop meets them. The wording of a message is not modelled.
pub mod Nearest
use mcp_awareness.Base.{
  ℕ, Bool, true, false, String, List, [], ◌∷◌, Option, none, some, ltb, str_eq, if◌then◌else◌, any,
}
use mcp_awareness.Base.Text.{Text, codes, lower, lower_codes}
use mcp_awareness.Helpers.Levenshtein.{levenshtein}

-- `value in valid_values`
abbrev pub is_in : String → List String → Bool
is_in value = any (λ v. str_eq v value)

-- the edit distance that one round computes
abbrev pub gap : Text → String → ℕ
gap target v = levenshtein target (lower_codes v)

-- the loop: `best` and `best_dist`
unfoldable pub suggest_from : Text → List String → Option String → ℕ → Option String
suggest_from target [] best best_dist = best
suggest_from target (v ∷ vs) best best_dist =
    let near = ltb (gap target v) best_dist in
    suggest_from target vs (if near then some v else best)
      (if near then gap target v else best_dist)

unfoldable pub suggest : String → List String → Option String
unfolding suggest_from
suggest value valid_values =
    if is_in value valid_values then none else suggest_from (lower_codes value) valid_values none 3

-- The structured fields of an error; an optional field that is `none` is left out of the JSON.
pub record ErrorEnvelope : Type 0 where
  pub error_code : String
  pub retryable : Bool
  pub param : Option String
  pub value : Option String
  pub valid : Option (List String)
  pub suggestion : Option String
  pub help_url : Option String

-- What a validator does: it returns, or it raises ToolError with an envelope.
pub data Checked {ℓ} (A : Type ℓ) : Type ℓ where
  ok : A → Checked A
  raise : ErrorEnvelope → Checked A

infixl 5 ◌>>=◌
abbrev pub ◌>>=◌ {ℓ κ} : {A : Type ℓ} {B : Type κ} → Checked A → (A → Checked B) → Checked B
ok a >>= f = f a
raise e >>= f = raise e

-- str's order, by code points
text_before : Text → Text → Bool
text_before [] t = true
text_before (c ∷ s) [] = false
text_before (c ∷ s) (d ∷ t) = if ltb c d then true else if ltb d c then false else text_before s t

insert_sorted : String → List String → List String
unfolding text_before
insert_sorted s [] = s ∷ []
insert_sorted s (t ∷ ts) =
    if text_before (codes s) (codes t) then s ∷ t ∷ ts else t ∷ insert_sorted s ts

-- sorted(values)
unfoldable pub sorted : List String → List String
unfolding insert_sorted
sorted [] = []
sorted (s ∷ ss) = insert_sorted s (sorted ss)

unfoldable pub invalid_enum : String → String → List String → ErrorEnvelope
invalid_enum value param valid_values = record {
  error_code = "invalid_parameter";
  retryable = false;
  param = some param;
  value = some value;
  valid = some (sorted valid_values);
  suggestion = suggest value valid_values;
  help_url = none;
}

unfoldable pub validate_enum : String → String → List String → Checked (Unit {0})
validate_enum value param valid_values =
    if is_in value valid_values then ok tt else raise (invalid_enum value param valid_values)
