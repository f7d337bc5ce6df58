-- ===== src/Classify/Rows.antt =====
-- Does a WHERE or ON condition hold on every row, and which ALTER TABLE commands destroy:
-- the analysis at the end of crates/ownpg-core/src/classify.rs.
-- The source recurs on parts that it finds by name. The model takes fuel, the depth of the node.
pub mod Fuel
pub mod Tests
use Prim.Native.Nat.{max}
use ownpg.Base.{
  ℕ, zero, suc, String, Bool, true, false, not, Option, none, some, List, [], ◌∷◌, ◌==◌, ◌&&◌, ◌||◌,
  any, all, is_empty, if◌then◌else◌,
}
use ownpg.Json.{
  ℤ, pos, negsuc, Value, Items, Fields, null, bool, int, real, text, arr, obj, nil, cons, end,
  field, get, pointer, as_str, as_i64, as_array, is_null, ◌>>=◌, filter_map, is_i64, i64_at,
  array_at,
}

abbrev bool_eq : Bool → Bool → Bool
bool_eq true b = b
bool_eq false b = not b

abbrev ℤ_eq : ℤ → ℤ → Bool
ℤ_eq (pos m) (pos n) = elim (Prim.Native.Nat.compare m n) [
  | Prim.Native.Nat.Ordering.eq ↦ true
  | _ ↦ false
]
ℤ_eq (negsuc m) (negsuc n) = elim (Prim.Native.Nat.compare m n) [
  | Prim.Native.Nat.Ordering.eq ↦ true
  | _ ↦ false
]
ℤ_eq _ _ = false

-- The derived `PartialEq` of the tree.
unfoldable mutual
  pub value_eq : Value → Value → Bool
  value_eq null null = true
  value_eq (bool a) (bool b) = bool_eq a b
  value_eq (int m) (int n) = ℤ_eq m n
  value_eq (real s) (real t) = s == t
  value_eq (text s) (text t) = s == t
  value_eq (arr xs) (arr ys) = items_eq xs ys
  value_eq (obj fs) (obj gs) = fields_eq fs gs
  value_eq _ _ = false

  pub items_eq : Items → Items → Bool
  items_eq nil nil = true
  items_eq (cons v vs) (cons w ws) = value_eq v w && items_eq vs ws
  items_eq _ _ = false

  pub fields_eq : Fields → Fields → Bool
  fields_eq end end = true
  fields_eq (field k v fs) (field j w gs) = (k == j) && value_eq v w && fields_eq fs gs
  fields_eq _ _ = false

unfoldable mutual
  pub depth : Value → ℕ
  depth null = 0
  depth (bool b) = 0
  depth (int n) = 0
  depth (real s) = 0
  depth (text s) = 0
  depth (arr xs) = suc (depth_items xs)
  depth (obj fs) = suc (depth_fields fs)

  pub depth_items : Items → ℕ
  depth_items nil = 0
  depth_items (cons v vs) = max (depth v) (depth_items vs)

  pub depth_fields : Fields → ℕ
  depth_fields end = 0
  depth_fields (field k v fs) = max (depth v) (depth_fields fs)

abbrev pub none_or : (Value → Bool) → Option Value → Bool
none_or p none = true
none_or p (some v) = p v

abbrev pub some_and : (Value → Bool) → Option Value → Bool
some_and p none = false
some_and p (some v) = p v

abbrev pub all_of : (Value → Bool) → Option (List Value) → Bool
all_of p none = false
all_of p (some vs) = all p vs

abbrev pub is_some : Option Value → Bool
is_some none = false
is_some (some v) = true

-- The cast, the expression or the Boolean expression that the node holds, in this order.
abbrev pub constant_parts : (Value → Bool) → Option Value → Option Value → Option Value → Bool
constant_parts rec (some cast) _ _ = some_and rec (get "arg" cast)
constant_parts rec none (some expr) _ =
    none_or rec (get "lexpr" expr) && none_or rec (get "rexpr" expr)
constant_parts rec none none (some expr) = all_of rec (get "args" expr >>= as_array)
constant_parts rec none none none = false

-- One level of `is_constant_expression`, over the function for its parts.
unfoldable pub constant_step : (Value → Bool) → Value → Bool
unfolding pointer get as_array
constant_step rec node =
    if is_some (pointer ("node" ∷ "AConst" ∷ []) node)
    then true
    else constant_parts rec (pointer ("node" ∷ "TypeCast" ∷ []) node)
        (pointer ("node" ∷ "AExpr" ∷ []) node) (pointer ("node" ∷ "BoolExpr" ∷ []) node)

pub constant_on : ℕ → Value → Bool
constant_on zero node = false
constant_on (suc fuel) node = constant_step (constant_on fuel) node

unfoldable pub is_constant_expression : Value → Bool
unfolding constant_on constant_step depth
is_constant_expression node = constant_on (suc (depth node)) node

abbrev is_comparison : Option String → Bool
is_comparison none = false
is_comparison (some s) = (s == "=") || (s == "<=") || (s == ">=")

abbrev same_column : Option Value → Option Value → Bool
same_column (some l) (some r) = value_eq l r
same_column _ _ = false

abbrev pub bool_op : (Value → Bool) → Option ℤ → List Value → Bool
bool_op rec op args =
    if is_i64 2 op
    then any rec args
    else if is_i64 1 op
    then not (is_empty args) && all rec args
    else false

abbrev operator : Value → Option String
operator expr = pointer ("name" ∷ "0" ∷ "node" ∷ "String" ∷ "sval" ∷ []) expr >>= as_str

abbrev self_comparison : Value → Bool
self_comparison expr =
    let kind = i64_at "kind" expr in
    if is_i64 5 kind then true else if is_i64 1 kind then is_comparison (operator expr) else false

abbrev column : String → Value → Option Value
column side expr = pointer (side ∷ "node" ∷ "ColumnRef" ∷ "fields" ∷ []) expr

-- The Boolean expression or the comparison that the node holds, in this order.
abbrev pub every_row_parts : (Value → Bool) → Option Value → Option Value → Bool
every_row_parts rec (some expr) _ = bool_op rec (i64_at "boolop" expr) (array_at "args" expr)
every_row_parts rec none (some expr) =
    self_comparison expr && same_column (column "lexpr" expr) (column "rexpr" expr)
every_row_parts rec none none = false

-- One level of `matches_every_row`.
unfoldable pub every_row_step : (Value → Bool) → Value → Bool
unfolding is_constant_expression pointer get as_str as_i64 as_array value_eq
every_row_step rec node =
    if is_constant_expression node
    then true
    else every_row_parts rec (pointer ("node" ∷ "BoolExpr" ∷ []) node)
        (pointer ("node" ∷ "AExpr" ∷ []) node)

pub every_row_on : ℕ → Value → Bool
every_row_on zero node = false
every_row_on (suc fuel) node = every_row_step (every_row_on fuel) node

unfoldable pub matches_every_row : Value → Bool
unfolding every_row_on every_row_step depth
matches_every_row node = every_row_on (suc (depth node)) node

abbrev absent_or_every_row : Option Value → Bool
absent_or_every_row none = true
absent_or_every_row (some clause) = if is_null clause then true else matches_every_row clause

unfoldable pub where_is_absent_or_constant : Value → Bool
unfolding get is_null matches_every_row
where_is_absent_or_constant statement = absent_or_every_row (get "where_clause" statement)

unfoldable pub merge_matches_every_row : Value → Bool
unfolding get is_null matches_every_row
merge_matches_every_row statement = absent_or_every_row (get "join_condition" statement)

abbrev is_mutating : Value → Bool
is_mutating clause =
    let command = i64_at "command_type" clause in is_i64 3 command || is_i64 5 command

unfoldable pub merge_has_mutating_clause : Value → Bool
unfolding get as_array as_i64 pointer
merge_has_mutating_clause statement = any is_mutating (
    filter_map (pointer ("node" ∷ "MergeWhenClause" ∷ []))
      (array_at "merge_when_clauses" statement))

abbrev rewrites_data : Value → Bool
rewrites_data command = elim (pointer ("def" ∷ "node" ∷ "ColumnDef" ∷ "raw_default" ∷ []) command) [
  | none ↦ false
  | some using ↦ not (is_null using)
]

unfoldable pub destructive_alter : Value → Option String
unfolding get as_i64 pointer is_null
destructive_alter command =
    let subtype = i64_at "subtype" command in
    if is_i64 15 subtype
    then some "ALTER TABLE ... DROP COLUMN removes a column and its data"
    else if is_i64 24 subtype
    then some "ALTER TABLE ... DROP CONSTRAINT removes a constraint"
    else if is_i64 26 subtype
    then (if rewrites_data command
        then some "ALTER TABLE ... TYPE ... USING rewrites a column's data"
        else none)
    else if is_i64 32 subtype
    then some "ALTER TABLE ... SET UNLOGGED drops crash safety for the table"
    else if is_i64 62 subtype || is_i64 63 subtype
    then some "ALTER TABLE ... DETACH PARTITION removes a partition from the table"
    else none
