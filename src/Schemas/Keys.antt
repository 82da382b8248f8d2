-- ===== src/Schemas/Keys.antt =====
-- The logical key of a schema, composed and split.
use mcp_awareness.Base.{◌≡◌, refl, Bool, false, ◌==◌, [], ◌∷◌, none, some, arith, any}
use mcp_awareness.Base.Text.{Text}
use mcp_awareness.Schemas.{compose_schema_logical_key, rpartition}

abbrev pub has_colon : Text → Bool
has_colon = any (λ c. c == b':')

rpartition-none : (s : Text) → has_colon s ≡ false → rpartition s ≡ none
unfolding rpartition
rpartition-none [] h = refl
rpartition-none (c ∷ s) h = ground (arith, rpartition-none s)

-- Splitting the logical key of a schema at its last colon gives back the family and the version,
-- where the version has no colon; the family may have some.
pub rpartition-compose_schema_logical_key :
    (family version : Text)
    → has_colon version ≡ false
    → rpartition (compose_schema_logical_key family version) ≡ some (family, version)
unfolding rpartition
rpartition-compose_schema_logical_key [] version h = rw (rpartition-none version h) refl
rpartition-compose_schema_logical_key (c ∷ family) version h =
    rw (rpartition-compose_schema_logical_key family version h) refl
