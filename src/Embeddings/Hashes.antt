-- ===== src/Embeddings/Hashes.antt =====
-- The hashes that the loops of backfill_embeddings (src/mcp_awareness/tools.py) leave.
use mcp_awareness.Base.{
  ℕ, suc, ◌≤◌, ◌≡◌, refl, sym, ◌∙◌, ap, Bool, true, false, not, ◌&&◌, String, List, [], ◌∷◌, Option,
  none, some, arith, str_eq, eq_iff, eq_refl, if◌then◌else◌, is_some, any, all, map, length,
  length-map, All,
}
use mcp_awareness.Base.Text.{Text}
use mcp_awareness.Base.Dict.{lookup}
use mcp_awareness.Store.{Stored, Row, Table, insert_by, order_by, select}
use mcp_awareness.Embeddings.Texts.{compose_embedding_text}
use mcp_awareness.Embeddings.{
  EmbedEnv, Embedding, hash_of, put_embedding, upsert_embedding, stored_hash, embed_each, embed_all,
}

-- the entry stands in the table under its id
abbrev pub Own : Table → Stored → Type 0
Own t e = (row : Row) × (lookup e.id t ≡ some row) × (row.entry ≡ e)

pub Own-eq : (t : Table) (e f : Stored) → Own t e → Own t f → e.id ≡ f.id → e ≡ f
Own-eq t e f (r, a, b) (s, c, d) same = sym b ∙ ap (λ (x : Row). x.entry) rows ∙ d
  where
    rows : r ≡ s
    rows = ground (arith, a, c, same, ap (λ i. lookup i t) same)

pub length-select_mono :
    (p q : Row → Bool) (t : Table)
    → ((row : Row) → p row ≡ true → q row ≡ true)
    → length (select p t) ≤ length (select q t)
unfolding select
length-select_mono p q [] f = omega arith
length-select_mono p q ((i, row) ∷ t) f = ground (arith, f row, length-select_mono p q t f)

pub length-insert_by :
    (key : Stored → ℕ) (e : Stored) (es : List Stored)
    → length (insert_by key e es) ≡ suc (length es)
unfolding insert_by
length-insert_by key e [] = refl
length-insert_by key e (f ∷ fs) = ground (arith, length-insert_by key e fs)

pub length-order_by : (key : Stored → ℕ) (es : List Stored) → length (order_by key es) ≡ length es
unfolding order_by
length-order_by key [] = refl
length-order_by key (e ∷ es) =
    length-insert_by key e (order_by key es) ∙ ap suc (length-order_by key es)

-- `is_outdated` of a hash
abbrev pub differs : String → Option String → Bool
differs h s = elim s [ none ↦ false | some g ↦ not (str_eq h g) ]

pub lacks_none :
    (seen kind : Bool) (h : String) (s0 s1 s2 : Option String)
    → s1 ≡ (if seen && not (is_some s0) && kind then some h else s0)
    → s2 ≡ (if (seen && is_some s1) && differs h s1 then some h else s1)
    → seen && not (is_some s2) && kind ≡ false
lacks_none false kind h s0 s1 s2 p q = refl
lacks_none true false h s0 s1 s2 p q = ground (arith)
lacks_none true true h s0 none s2 p q = absurd (ground (arith, p))
lacks_none true true h s0 (some g) s2 p q = ground (arith, q)

pub stale_none :
    (seen : Bool) (h : String) (s1 s2 : Option String)
    → seen ≡ true
    → s2 ≡ (if (seen && is_some s1) && differs h s1 then some h else s1)
    → differs h s2 ≡ false
stale_none seen h none s2 v q = ground (arith, v, q)
stale_none seen h (some g) s2 v q = ground (arith, v, q, eq_refl h)

module _ {V : Type 0} (env : EmbedEnv V) where
  pub stored-put :
      (owner i j h : String) (v : V) (ms : List (Embedding V))
      → stored_hash env j (put_embedding env owner i h v ms)
        ≡ (if str_eq i j then some h else stored_hash env j ms)
  unfolding stored_hash put_embedding
  stored-put owner i j h v [] = ground (arith, eq_refl env.model_name)
  stored-put owner i j h v (m ∷ ms) =
      ground
        (arith, eq_iff m.entry_id i, eq_iff m.entry_id j, eq_iff i j, stored-put owner i j h v ms)

  module _ (owner : String) (t : Table) where
    pub upserts :
        (e : Stored) (v : V) (ms : List (Embedding V))
        → Own t e
        → env.fits v ≡ true
        → upsert_embedding env owner e.id (hash_of env e) v t ms
          ≡ some (put_embedding env owner e.id (hash_of env e) v ms)
    unfolding upsert_embedding
    upserts e v ms (row, found, same) fit = rw (found, fit) refl

    pub embed_each-stored :
        (es : List Stored) (vs : List V) (ms : List (Embedding V)) (f : Stored)
        → length vs ≡ length es
        → all env.fits vs ≡ true
        → All (Own t) es
        → Own t f
        → stored_hash env f.id (embed_each env owner es vs t ms).1 ≡ (
            if any (λ e. str_eq e.id f.id) es
            then some (hash_of env f)
            else stored_hash env f.id ms)
    unfolding embed_each
    embed_each-stored [] vs ms f len fit own of = refl
    embed_each-stored (e ∷ es) [] ms f len fit own of = absurd (ground (arith, len))
    embed_each-stored (e ∷ es) (v ∷ vs) ms f len fit own of =
        rw (upserts e v ms own.0 (ground (arith, fit))) (
          embed_each-stored es vs (put_embedding env owner e.id (hash_of env e) v ms) f
            (ground (arith, len)) (ground (arith, fit)) own.1 of
          ∙ (ground (
            arith,
            stored-put owner e.id f.id (hash_of env e) v ms,
            eq_iff e.id f.id,
            same_hash,
          )))
      where
        same_hash : e.id ≡ f.id → hash_of env e ≡ hash_of env f
        same_hash same = ap (hash_of env) (Own-eq t e f own.0 of same)

    -- The provider gives a vector of the right dimension for each text.
    abbrev pub Works : Type 0
    Works =
        (texts : List Text)
        → (vs : List V) × (env.embed texts ≡ some vs)
          × (length vs ≡ length texts)
          × (all env.fits vs ≡ true)

    pub embed_all-stored :
        (es : List Stored) (ms : List (Embedding V)) (f : Stored)
        → Works
        → All (Own t) es
        → Own t f
        → stored_hash env f.id (embed_all env owner es t ms).1 ≡ (
            if any (λ e. str_eq e.id f.id) es
            then some (hash_of env f)
            else stored_hash env f.id ms)
    unfolding embed_all
    embed_all-stored [] ms f works own of = refl
    embed_all-stored (e ∷ es) ms f works own of =
        let (vs, embeds, len, fit) = works (map (compose_embedding_text env.str_of) (e ∷ es)) in
        rw embeds (
          embed_each-stored (e ∷ es) vs ms f
            (len ∙ length-map (compose_embedding_text env.str_of) (e ∷ es)) fit own of)
