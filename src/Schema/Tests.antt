-- ===== src/Schema/Tests.antt =====
-- Instants as texts of as many characters, and the JSON form of an entry with them.
use Prim.Native.Nat.{zero}
use mcp_awareness.Base.{ℕ, suc, ◌≡◌, refl, ap, String, [], ◌∷◌, Option, none, some, length}
use mcp_awareness.Base.Text.{codes}
use mcp_awareness.Base.Json.{Json, null}
use mcp_awareness.Schema.{Entry, EntryType}
use mcp_awareness.Schema.Dicts.{to_dict, from_dict, from_dict-to_dict}

unary : ℕ → String
unary zero = ""
unary (suc n) = String.◌∷◌ "x" (unary n)

read_unary : String → Option ℕ
read_unary s = some (length (codes s))

length-unary : (n : ℕ) → length (codes (unary n)) ≡ n
unfolding unary
length-unary zero = refl
length-unary (suc n) = ap suc (length-unary n)

read-unary : (n : ℕ) → read_unary (unary n) ≡ some n
unfolding read_unary
read-unary n = ap some (length-unary n)

abbrev test_note : Entry Json
test_note = record {
  id = "n1";
  entry_type = EntryType.note;
  source = "personal";
  tags = "home" ∷ "garden" ∷ [];
  created = 5;
  updated = some 7;
  expires = none;
  payload = null;
  logical_key = some "garden-plan";
  language = "german";
}

from_dict-to_dict_example : from_dict read_unary (to_dict unary test_note) ≡ some test_note
from_dict-to_dict_example = from_dict-to_dict unary read_unary read-unary test_note
