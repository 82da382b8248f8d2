-- ===== src/Embeddings.antt =====
-- Embeddings: `compose_embedding_text` and `should_embed` of src/mcp_awareness/embeddings.py, the
-- table `embeddings` of `PostgresStore` (src/mcp_awareness/postgres_store.py) with the statements of
-- sql/upsert_embedding.sql, sql/get_entries_without_embeddings.sql and
-- sql/get_stale_embeddings.sql, `_do_embed` of src/mcp_awareness/server.py and the tool
-- backfill_embeddings of src/mcp_awareness/tools.py. The provider, the hash and the vectors are
-- parameters.
pub mod Texts
pub mod Hashes
pub mod Backfill
mod Tests
use mcp_awareness.Base.{
  ℕ, ◌+◌, Bool, true, false, not, ◌&&◌, ◌||◌, String, List, [], ◌∷◌, ◌++◌, Option, none, some,
  str_eq, ltb, if◌then◌else◌, or_else, is_some, any, keep, map, length, take,
}
use mcp_awareness.Base.Text.{Text}
use mcp_awareness.Base.Json.{Json}
use mcp_awareness.Base.Dict.{Dict, lookup}
use mcp_awareness.Schema.{EntryType, last_change}
use mcp_awareness.Embeddings.Texts.{compose_embedding_text, should_embed}
use mcp_awareness.Store.{Stored, Row, Table, visible, same_type, order_by, select}

-- The provider. `str_of` is Python's str of a value that is no text, `embed` gives
-- `none` where it raises, and `fits` is the dimension check of the column.
pub record EmbedEnv (V : Type 0) : Type 0 where
  pub str_of : Json → Text
  pub text_hash : Text → String
  pub model_name : String
  pub dimensions : ℕ
  pub is_available : Bool
  pub embed : List Text → Option (List V)
  pub fits : V → Bool

-- a row of the table
pub record Embedding (V : Type 0) : Type 0 where
  pub owner_id : String
  pub entry_id : String
  pub model : String
  pub dimensions : ℕ
  pub text_hash : String
  pub embedding : V

module _ {V : Type 0} (env : EmbedEnv V) where
  abbrev pub hash_of : Stored → String
  hash_of e = env.text_hash (compose_embedding_text env.str_of e)

  -- `e.id = emb.entry_id AND emb.model = %s`
  abbrev pub is_of : String → Embedding V → Bool
  is_of i m = str_eq m.entry_id i && str_eq m.model env.model_name

  -- ON CONFLICT (entry_id, model) DO UPDATE
  unfoldable pub put_embedding :
      String → String → String → V → List (Embedding V) → List (Embedding V)
  put_embedding owner_id i hash v [] =
      record {
        owner_id = owner_id;
        entry_id = i;
        model = env.model_name;
        dimensions = env.dimensions;
        text_hash = hash;
        embedding = v;
      }
      ∷ []
  put_embedding owner_id i hash v (m ∷ ms) =
      if is_of i m
      then record m { dimensions = env.dimensions; text_hash = hash; embedding = v } ∷ ms
      else m ∷ put_embedding owner_id i hash v ms

  -- `none` is the exception of an entry that does not exist, or of a vector that does not fit
  unfoldable pub upsert_embedding :
      String → String → String → V → Table → List (Embedding V) → Option (List (Embedding V))
  unfolding put_embedding
  upsert_embedding owner_id i hash v t ms =
      if is_some (lookup i t) && env.fits v then some (put_embedding owner_id i hash v ms) else none

  -- the hash of the entry's embedding
  unfoldable pub stored_hash : String → List (Embedding V) → Option String
  stored_hash i [] = none
  stored_hash i (m ∷ ms) = if is_of i m then some m.text_hash else stored_hash i ms

  abbrev pub has_embedding : List (Embedding V) → Stored → Bool
  has_embedding ms e = is_some (stored_hash e.id ms)

  unfoldable pub get_entries_without_embeddings :
      String → ℕ → Table → List (Embedding V) → List Stored
  unfolding stored_hash order_by select
  get_entries_without_embeddings owner_id limit t ms = take limit (
      order_by last_change (
        select
          (λ row.
            visible owner_id row
            && not (has_embedding ms row.entry)
            && not (same_type row.entry.entry_type EntryType.suppression))
          t))

  -- `current_hash != r["emb_text_hash"]`
  abbrev pub is_outdated : List (Embedding V) → Stored → Bool
  is_outdated ms e = elim (stored_hash e.id ms) [
    | none ↦ false
    | some h ↦ not (str_eq (hash_of e) h)
  ]

  -- The limit is that of the statement, before the hashes are compared.
  unfoldable pub get_stale_embeddings : String → ℕ → Table → List (Embedding V) → List Stored
  unfolding stored_hash order_by select
  get_stale_embeddings owner_id limit t ms = keep (is_outdated ms) (
      take limit (
        order_by last_change
          (select (λ row. visible owner_id row && has_embedding ms row.entry) t)))

  -- the loop over the entries with their vectors: the upserts that succeed, and their number
  unfoldable pub embed_each :
      String → List Stored → List V → Table → List (Embedding V) → ℕ × List (Embedding V)
  unfolding upsert_embedding
  embed_each owner_id [] vs t ms = (0, ms)
  embed_each owner_id (e ∷ es) [] t ms = (0, ms)
  embed_each owner_id (e ∷ es) (v ∷ vs) t ms =
      let after = or_else (upsert_embedding owner_id e.id (hash_of e) v t ms) ms in
      let (n, ms') = embed_each owner_id es vs t after in
      ((if is_some (upsert_embedding owner_id e.id (hash_of e) v t ms) then n + 1 else n), ms')

  -- one phase: no call of the provider for no entries, and no vectors if it raises
  unfoldable pub embed_all :
      String → List Stored → Table → List (Embedding V) → ℕ × List (Embedding V)
  unfolding embed_each
  embed_all owner_id [] t ms = (0, ms)
  embed_all owner_id (e ∷ es) t ms =
      embed_each owner_id (e ∷ es)
        (or_else (env.embed (map (compose_embedding_text env.str_of) (e ∷ es))) []) t ms

  -- Both phases: the numbers of new and refreshed embeddings and of those that remain, at most 1.
  unfoldable pub both_phases :
      String → ℕ → Table → List (Embedding V) → (ℕ × ℕ × ℕ) × List (Embedding V)
  unfolding get_entries_without_embeddings embed_all get_stale_embeddings
  both_phases owner_id limit t ms =
      let (new_count, ms') =
        embed_all owner_id (get_entries_without_embeddings owner_id limit t ms) t ms in
      let (refreshed_count, ms'') =
        embed_all owner_id (get_stale_embeddings owner_id limit t ms') t ms' in
      (
        (new_count, refreshed_count, length (get_entries_without_embeddings owner_id 1 t ms'')),
        ms'',
      )

  -- `none` is the error that no provider is available
  unfoldable pub backfill_embeddings :
      String → ℕ → Table → List (Embedding V) → Option (ℕ × ℕ × ℕ) × List (Embedding V)
  unfolding both_phases
  backfill_embeddings owner_id limit t ms =
      if env.is_available
      then (some (both_phases owner_id limit t ms).0, (both_phases owner_id limit t ms).1)
      else (none, ms)

  abbrev first_vector : Option (List V) → Option V
  first_vector none = none
  first_vector (some []) = none
  first_vector (some (v ∷ vs)) = some v

  -- `_generate_embedding` and `_do_embed`, of an entry as it was when it was written
  unfoldable pub generate_embedding :
      String → Stored → Table → List (Embedding V) → List (Embedding V)
  unfolding should_embed upsert_embedding
  generate_embedding owner_id e t ms =
      if should_embed e && env.is_available
      then (elim (first_vector (env.embed (compose_embedding_text env.str_of e ∷ []))) [
        | none ↦ ms
        | some v ↦ or_else (upsert_embedding owner_id e.id (hash_of e) v t ms) ms
      ])
      else ms
