-- ===== src/Base/Json.antt =====
-- JSON values, as Python's json module makes them. Numbers are integers.
use mcp_awareness.Base.Int.{ℤ, eq_ℤ}
use mcp_awareness.Base.Tests.{◌==◌, if◌then◌else◌}
use mathlib.Core.List.{List, [], ◌∷◌}
use mathlib.Core.Option.{Option, none, some}
use package.text.Mathlib.Text.{◌==◌ as str_eq}
use Prim.Native.Nat.{ℕ, ◌+◌}
use Prim.Native.String.{String}
use mathlib.Core.Bool.{Bool, true, false, not, ◌&&◌}

mutual
  pub data Json : Type 0 where
    null : Json
    bool : Bool → Json
    num : ℤ → Json
    text : String → Json
    arr : Items → Json
    obj : Fields → Json

  pub data Items : Type 0 where
    nil : Items
    cons : Json → Items → Items

  pub data Fields : Type 0 where
    end : Fields
    field : String → Json → Fields → Fields

pub find_field : String → Fields → Option Json
find_field k end = none
find_field k (field j v fs) = if str_eq j k then some v else find_field k fs

unfoldable pub count_fields : Fields → ℕ
count_fields end = 0
count_fields (field j v fs) = count_fields fs + 1

-- Python's ==, where the order of an object's keys does not count
unfoldable mutual
  pub json_eq : Json → Json → Bool
  json_eq null null = true
  json_eq (bool a) (bool b) = if a then b else not b
  json_eq (num a) (num b) = eq_ℤ a b
  json_eq (text s) (text t) = str_eq s t
  json_eq (arr is') (arr js) = items_eq is' js
  json_eq (obj fs) (obj gs) = count_fields fs == count_fields gs && fields_eq fs gs
  json_eq _ _ = false

  pub items_eq : Items → Items → Bool
  items_eq nil nil = true
  items_eq nil (cons j js) = false
  items_eq (cons i is') nil = false
  items_eq (cons i is') (cons j js) = json_eq i j && items_eq is' js

  pub fields_eq : Fields → Fields → Bool
  fields_eq end gs = true
  fields_eq (field k v fs) gs =
      (elim (find_field k gs) [ none ↦ false | some w ↦ json_eq v w ]) && fields_eq fs gs

-- the items with one more at the end
unfoldable pub append_item : Items → Json → Items
append_item nil x = cons x nil
append_item (cons j js) x = cons j (append_item js x)

-- the JSON object of a dict
unfoldable pub fields_of : List (String × Json) → Fields
fields_of [] = end
fields_of ((k, v) ∷ d) = field k v (fields_of d)
