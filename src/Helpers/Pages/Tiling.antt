-- ===== src/Helpers/Pages/Tiling.antt =====
-- A client that asks for page after page reads every row once, in order.
use mcp_awareness.Base.{
  inl, ℕ, zero, suc, ◌+◌, ◌≤◌, ◌<◌, ◌≡◌, refl, ap, inr, List, [], ◌∷◌, ◌++◌, Option, none, some,
  arith, ltb, if◌then◌else◌, length, take, drop, take-append-drop, drop-drop, length-take,
  length-drop, take_of_length-le, Bool-cases,
}
use mcp_awareness.Helpers.Pages.{list_page}

module _ {ℓ} {A : Type ℓ} where
  take-take : (m n : ℕ) (xs : List A) → m ≤ n → take m (take n xs) ≡ take m xs
  take-take zero n xs h = refl
  take-take (suc m) zero xs h = absurd (omega arith)
  take-take (suc m) (suc n) [] h = refl
  take-take (suc m) (suc n) (x ∷ xs) h = ap (◌∷◌ x) (take-take m n xs (omega arith))

  -- A page holds the rows from its offset on, as many as the limit allows.
  list_page-entries :
      (rows : List A) (limit k : ℕ)
      → (list_page rows limit (some k)).entries ≡ take limit (drop k rows)
  unfolding list_page
  list_page-entries rows limit k = take-take limit (limit + 1) (drop k rows) (omega arith)

  -- It says that there is more exactly if rows stand behind it.
  list_page-has_more :
      (rows : List A) (limit k : ℕ)
      → (list_page rows limit (some k)).has_more ≡ ltb (k + limit) (length rows)
  unfolding list_page
  list_page-has_more rows limit k =
      ground (arith, length-take (limit + 1) (drop k rows), length-drop k rows)

  abbrev with_rows : List A → Option (List A) → Option (List A)
  with_rows xs none = none
  with_rows xs (some ys) = some (xs ++ ys)

  -- The client: it asks from offset k on until a page says that nothing is left; `none` if the
  -- requests that it may send are used up before that.
  pub read_pages : ℕ → List A → ℕ → ℕ → Option (List A)
  read_pages zero rows limit k = none
  read_pages (suc fuel) rows limit k =
      let page = list_page rows limit (some k) in
      let rest = read_pages fuel rows limit (k + limit) in
      if page.has_more then with_rows page.entries rest else some page.entries

  read_pages_lem :
      (fuel : ℕ) (rows : List A) (limit k : ℕ)
      → 0 < limit
      → length rows < fuel + k
      → 0 < fuel
      → read_pages fuel rows limit k ≡ some (drop k rows)
  unfolding read_pages
  read_pages_lem zero rows limit k positive h some_left = absurd (omega arith)
  read_pages_lem (suc fuel) rows limit k positive h some_left =
      rw (list_page-entries, list_page-has_more)
        (elim (Bool-cases (ltb (k + limit) (length rows))) [
          | inl more ↦
              rw
                (
                  more,
                  read_pages_lem fuel rows limit (k + limit) positive (omega arith)
                      (ground (arith, more, h)),
                  ← drop-drop limit k rows,
                )
                (ap some (take-append-drop limit (drop k rows)))
          | inr done ↦
              rw done (
                ap some
                  (take_of_length-le limit (drop k rows) (ground (arith, length-drop k rows))))
        ])

  -- A client that starts at offset 0 and adds a positive limit while a page says that there is
  -- more comes to a page that says that there is no more, with at most as many requests as there
  -- are rows and one more, and has then read all rows, each once and in order. The rows do not
  -- change between the requests.
  pub read_pages_complete :
      (rows : List A) (limit : ℕ)
      → 0 < limit
      → read_pages (length rows + 1) rows limit 0 ≡ some rows
  read_pages_complete rows limit positive =
      read_pages_lem (length rows + 1) rows limit 0 positive (omega arith) (omega arith)
