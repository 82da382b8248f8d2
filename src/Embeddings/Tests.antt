-- ===== src/Embeddings/Tests.antt =====
-- A note without embedding, and the theorem of the backfill at it.
use mcp_awareness.Base.{
  ℕ, ◌≤◌, ◌≡◌, refl, true, List, [], ◌∷◌, none, some, arith, ltb, if◌then◌else◌, all, map, length,
  length-map,
}
use mcp_awareness.Base.Text.{codes}
use mcp_awareness.Base.Dict.{lookup}
use mcp_awareness.Base.Json.{text}
use mcp_awareness.Schema.{EntryType}
use mcp_awareness.Schema.Dicts.{type_name}
use mcp_awareness.Store.{Table, select, visible}
use mcp_awareness.Store.Rows.{Keyed}
use mcp_awareness.Store.Writes.{fresh_entry}
use mcp_awareness.Embeddings.Texts.{compose_embedding_text, join_texts}
use mcp_awareness.Embeddings.{
  EmbedEnv, Embedding, get_entries_without_embeddings, get_stale_embeddings, backfill_embeddings,
}
use mcp_awareness.Embeddings.Hashes.{Works}
use mcp_awareness.Embeddings.Backfill.{remaining, backfill_embeddings_complete}

abbrev test_env : EmbedEnv ℕ
test_env = record {
  str_of = λ j. [];
  text_hash = λ s. if ltb (length s) 40 then "short" else "long";
  model_name = "granite";
  dimensions = 1;
  is_available = true;
  embed = λ texts. some (map (λ s. length s) texts);
  fits = λ v. true;
}

abbrev one_note : Table
one_note =
    (
      "a",
      record {
        owner_id = "ann";
        deleted = none;
        entry = fresh_entry "a" 3 EntryType.note "nas" [] (("description", text "quiet") ∷ []);
      },
    )
    ∷ []

-- the embedding of an older text
abbrev old_embedding : List (Embedding ℕ)
old_embedding =
    record {
      owner_id = "ann";
      entry_id = "a";
      model = "granite";
      dimensions = 1;
      text_hash = "long";
      embedding = 9;
    }
    ∷ []

all_fit : (vs : List ℕ) → all (λ v. true) vs ≡ true
all_fit [] = refl
all_fit (v ∷ vs) = all_fit vs

test_Works : Works test_env "ann" one_note
test_Works texts = (
  map (λ s. length s) texts,
  refl,
  length-map (λ s. length s) texts,
  all_fit (map (λ s. length s) texts),
)

one_Keyed : Keyed one_note
unfolding lookup
one_Keyed = ((refl, tt), (refl, tt))

one_visible : length (select (visible "ann") one_note) ≤ 50
unfolding select
one_visible = omega arith

backfill_embeddings_complete_example :
    (get_entries_without_embeddings test_env "ann" 7 one_note
        (backfill_embeddings test_env "ann" 50 one_note old_embedding).1
      ≡ [])
    × (get_stale_embeddings test_env "ann" 7 one_note
          (backfill_embeddings test_env "ann" 50 one_note old_embedding).1
        ≡ [])
    × (remaining (backfill_embeddings test_env "ann" 50 one_note old_embedding).0 ≡ some 0)
backfill_embeddings_complete_example =
    backfill_embeddings_complete test_env "ann" one_note one_Keyed 50 one_visible old_embedding 7
      refl test_Works

-- The text of the note.
composed :
    compose_embedding_text
      (λ j. [])
      (fresh_entry "a" 3 EntryType.note "nas" [] (("description", text "quiet") ∷ []))
    ≡ codes "type: note\nsource: nas\nquiet"
unfolding compose_embedding_text join_texts type_name lookup
composed = refl
