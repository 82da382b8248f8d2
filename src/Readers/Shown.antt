-- ===== src/Readers/Shown.antt =====
-- What get_knowledge (src/mcp_awareness/tools.py) shows counts as read.
use mcp_awareness.Base.{ℕ, ◌≡◌, true, String, List, [], Option, is_some, take, All}
use mcp_awareness.Base.Dict.{Dict, lookup}
use mcp_awareness.Store.{Stored, Table}
use mcp_awareness.Store.Queries
use mcp_awareness.Readers.{Reply, ok, refused, ids_of}

-- the id of an entry stands for a row
abbrev Present : Table → Stored → Type 0
Present t e = is_some (lookup e.id t) ≡ true

abbrev Rows : Type 0
Rows = List Stored × Dict ℕ × ℕ × Option ℕ

-- the rows of an answer stand in the table
abbrev AllPresent : Table → Reply Rows → Type 0
AllPresent t (ok r) = All (Present t) r.0
AllPresent t (refused c p) = Unit

-- the ids of the entries that the page shows
abbrev pub shown_ids : Reply Rows → List String
shown_ids (ok (rows, scores, n, from)) = ids_of (take n rows)
shown_ids (refused c p) = []
