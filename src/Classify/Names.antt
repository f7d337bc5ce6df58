-- ===== src/Classify/Names.antt =====
-- Names in the parse tree: `strings`, `type_name_text`, `dotted_name`, `qualified_name` and
-- `split_qualified` of crates/ownpg-core/src/classify.rs.
pub mod Laws
pub mod Tests
use Prim.Native.String.{◌++◌ as str_append}
use mathlib.Core.List.{reverse}
use ownpg.Base.{
  ℕ, zero, suc, String, Option, none, some, List, [], ◌∷◌, length, is_empty, if◌then◌else◌,
}
use ownpg.Base.Text.{join, split}
use ownpg.Json.{Value, get, pointer, as_str, as_array, ◌>>=◌, unwrap_or, filter_map, array_at}

pub record RelationName : Type 0 where
  pub schema : Option String
  pub name : String

-- `item.pointer("/node/String/sval").and_then(Value::as_str)`
unfoldable pub sval : Value → Option String
unfolding pointer as_str
sval item = pointer ("node" ∷ "String" ∷ "sval" ∷ []) item >>= as_str

unfoldable pub strings : Option Value → List String
unfolding sval as_array
strings value = filter_map sval (unwrap_or [] (value >>= as_array))

-- The loop that appends one "[]" for each dimension.
with_dimensions : ℕ → String → String
with_dimensions zero text = text
with_dimensions (suc n) text = with_dimensions n (str_append text "[]")

unfoldable pub type_name_text : Value → String
unfolding strings join get as_array with_dimensions
type_name_text type_name =
    with_dimensions (length (array_at "array_bounds" type_name))
      (join "." (strings (get "names" type_name)))

unfoldable pub dotted_name : Option Value → Option String
unfolding sval as_array join
dotted_name value = do
  found ← value
  listed ← as_array found
  let parts = filter_map sval listed
  if is_empty parts then none else some (join "." parts)

abbrev from_last : List String → Option RelationName
from_last [] = none
from_last (name ∷ []) = some (record { schema = none; name = name })
from_last (name ∷ schema ∷ _) = some (record { schema = some schema; name = name })

-- The two `pop`s take the parts from the end.
unfoldable pub split_qualified : String → Option RelationName
unfolding split
split_qualified joined = from_last (reverse (split b'.' joined))

abbrev first_or : String → List String → String
first_or d [] = d
first_or d (x ∷ _) = x

-- `function.rsplit('.').next().unwrap_or(function)`
unfoldable pub bare_name : String → String
unfolding split
bare_name function = first_or function (reverse (split b'.' function))

abbrev named : String → RelationName
named name = record { schema = none; name = name }

unfoldable pub qualified_name : Value → Option RelationName
unfolding pointer dotted_name split_qualified sval
qualified_name value = elim (pointer ("node" ∷ "List" ∷ "items" ∷ []) value) [
  | some list ↦ dotted_name (some list) >>= split_qualified
  | none ↦ elim (pointer ("node" ∷ "ObjectWithArgs" ∷ "objname" ∷ []) value) [
    | some objname ↦ dotted_name (some objname) >>= split_qualified
    | none ↦ sval value >>= λ name. some (named name)
  ]
]
