-- ===== src/Helpers/Pages.antt =====
-- `_validate_pagination` and `_paginate` of src/mcp_awareness/helpers.py, and the page of rows
-- that the store's LIMIT and OFFSET give them.
pub mod Tiling
use mcp_awareness.Base.{
  ℕ, ◌+◌, ◌⊎◌, inl, inr, Bool, true, false, String, List, Option, none, some, ltb, if◌then◌else◌,
  or_else, length, take, drop,
}
use mcp_awareness.Base.Int.{ℤ, pos, negsuc, is_negative}

abbrev pub default_query_limit : ℕ
default_query_limit = 100

-- `x is not None and x < 0`
abbrev is_below_zero : Option ℤ → Bool
is_below_zero none = false
is_below_zero (some n) = is_negative n

abbrev natural : ℤ → ℕ
natural (pos n) = n
natural (negsuc n) = 0

abbrev natural? : Option ℤ → Option ℕ
natural? none = none
natural? (some n) = some (natural n)

-- The error's text, or the limit and the offset; past the two tests neither is negative.
unfoldable pub validate_pagination : Option ℤ → Option ℤ → ℕ → String ⊎ (ℕ × Option ℕ)
validate_pagination limit offset default_limit =
    if is_below_zero limit
    then inl "limit must be non-negative"
    else if is_below_zero offset
    then inl "offset must be non-negative"
    else inr (or_else (natural? limit) default_limit, natural? offset)

pub record Page {ℓ} (A : Type ℓ) : Type ℓ where
  pub entries : List A
  pub limit : ℕ
  pub offset : ℕ
  pub has_more : Bool

module _ {ℓ} {A : Type ℓ} where
  unfoldable pub paginate : List A → ℕ → Option ℕ → Page A
  paginate items limit offset = record {
    entries = take limit items;
    limit = limit;
    offset = or_else offset 0;
    has_more = ltb limit (length items);
  }

  -- the rows that a query with `LIMIT n OFFSET k` returns, of the rows that it selects
  unfoldable pub limit_clause : List A → Option ℕ → Option ℕ → List A
  limit_clause rows none none = rows
  limit_clause rows none (some k) = drop k rows
  limit_clause rows (some n) none = take n rows
  limit_clause rows (some n) (some k) = take n (drop k rows)

  -- a list tool: it asks the store for one row more than the page holds
  unfoldable pub list_page : List A → ℕ → Option ℕ → Page A
  unfolding paginate limit_clause
  list_page rows limit offset = paginate (limit_clause rows (some (limit + 1)) offset) limit offset
