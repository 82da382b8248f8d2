-- ===== src/Deletion/Protection.antt =====
-- The deletion of one entry, and of a schema that records refer to.
use mcp_awareness.Base.{
  ℕ, ◌≡◌, refl, ◌∙◌, ap, Bool, false, String, List, [], ◌∷◌, Option, some, arith, str_eq, ltb,
  if◌then◌else◌, length, map, take,
}
use mcp_awareness.Base.Text.{Text, codes}
use mcp_awareness.Schema.{EntryType}
use mcp_awareness.Schema.Dicts.{type_name}
use mcp_awareness.Store.{Stored, Table, StoreEnv, get_entry_by_id}
use mcp_awareness.Store.Trash.{soft_delete_by_id}
use mcp_awareness.Schemas.{
  Deletable, compose_schema_logical_key, count_records_referencing, referencing,
  assert_schema_deletable,
}
use mcp_awareness.Schemas.Keys.{has_colon, rpartition-compose_schema_logical_key}
use mcp_awareness.Deletion.{DeleteResult, check_deletable, delete_by_id, delete_entry}

-- what the references to a schema make of its deletion
abbrev verdict : List Stored → Deletable
verdict [] = Deletable.deletable
verdict (e ∷ es) = Deletable.in_use (length (e ∷ es)) (map (λ f. f.id) (take 10 (e ∷ es)))

verdict_lem :
    (es : List Stored)
    → (if ltb 0 (length es)
        then Deletable.in_use (length es) (map (λ f. f.id) (take 10 es))
        else Deletable.deletable)
      ≡ verdict es
verdict_lem [] = refl
verdict_lem (e ∷ es) = ground arith

assert_schema_deletable-compose :
    (owner : String) (f v : ℕ) (family version : Text) (t : Table)
    → has_colon (v ∷ version) ≡ false
    → assert_schema_deletable owner (compose_schema_logical_key (f ∷ family) (v ∷ version)) t
      ≡ verdict (referencing owner (f ∷ family) (v ∷ version) t)
unfolding assert_schema_deletable count_records_referencing
assert_schema_deletable-compose owner f v family version t h =
    rw (rpartition-compose_schema_logical_key family (v ∷ version) h)
      (verdict_lem (referencing owner (f ∷ family) (v ∷ version) t))

check_deletable-schema :
    (owner i key : String) (t : Table) (e : Stored)
    → get_entry_by_id owner i t ≡ some e
    → e.entry_type ≡ EntryType.schema
    → e.logical_key ≡ some key
    → check_deletable owner i t ≡ assert_schema_deletable owner (codes key) t
unfolding check_deletable type_name
check_deletable-schema owner i key t e found kind holds =
    rw (check_deletable, found, kind, holds) refl

-- what `delete_entry` gives for a schema with these references
abbrev pub delete_verdict :
    StoreEnv → ℕ → String → String → List Stored → Table → DeleteResult × Table
delete_verdict env now owner i [] t =
    (DeleteResult.acknowledged i, (soft_delete_by_id env now owner i t).0)
delete_verdict env now owner i (e ∷ es) t =
    (DeleteResult.schema_in_use (length (e ∷ es)) (map (λ f. f.id) (take 10 (e ∷ es))), t)

delete_by_id-verdict :
    (env : StoreEnv) (now : ℕ) (owner i : String) (es : List Stored) (t : Table)
    → check_deletable owner i t ≡ verdict es
    → delete_by_id env now owner i t ≡ delete_verdict env now owner i es t
unfolding delete_by_id
delete_by_id-verdict env now owner i [] t h = rw (delete_by_id, h) refl
delete_by_id-verdict env now owner i (e ∷ es) t h = rw (delete_by_id, h) refl

-- Deleting a schema by its id is refused, with the table as it was and up to ten of the records
-- named, as long as a visible record of the owner refers to the schema's family and version, and
-- moves it to the trash once none does. The version must have no colon, and neither may be empty.
pub delete_entry-schema :
    (env : StoreEnv) (now : ℕ) (owner i key : String) (source entry_type : Option String)
    (tags : List String) (confirm : Bool) (f v : ℕ) (family version : Text) (t : Table) (e : Stored)
    → str_eq i "" ≡ false
    → get_entry_by_id owner i t ≡ some e
    → e.entry_type ≡ EntryType.schema
    → e.logical_key ≡ some key
    → codes key ≡ compose_schema_logical_key (f ∷ family) (v ∷ version)
    → has_colon (v ∷ version) ≡ false
    → delete_entry env now owner source entry_type (some i) tags confirm t
      ≡ delete_verdict env now owner i (referencing owner (f ∷ family) (v ∷ version) t) t
unfolding delete_entry
delete_entry-schema env now owner i key source entry_type tags confirm f v family version t e given
      found kind holds composed plain =
    by_id tags
    ∙ delete_by_id-verdict env now owner i _ t (
        check_deletable-schema owner i key t e found kind holds
        ∙ ap (λ s. assert_schema_deletable owner s t) composed
        ∙ assert_schema_deletable-compose owner f v family version t plain)
  where
    by_id :
        (ts : List String)
        → delete_entry env now owner source entry_type (some i) ts confirm t
          ≡ delete_by_id env now owner i t
    by_id [] = rw (delete_entry, given) refl
    by_id (tag ∷ ts) = rw (delete_entry, given) refl
