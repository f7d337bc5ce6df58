-- ===== src/Classify/Cascade.antt =====
-- What a DROP … CASCADE or an ALTER TABLE … CASCADE names: `object_address_type` and
-- `cascade_targets` of crates/ownpg-core/src/classify.rs.
use ownpg.Base.{
  ℕ, String, Bool, false, Option, none, some, List, [], ◌∷◌, ◌++◌, ◌==◌, ◌&&◌, map, eqb,
  if◌then◌else◌,
}
use ownpg.Json.{
  ℤ, pos, negsuc, Value, get, pointer, as_str, as_bool, as_i64, as_array, ◌>>=◌, unwrap_or,
  filter_map, is_i64, is_true, str_at, i64_at, bool_at, array_at,
}
use ownpg.Classify.Names.{sval, strings, type_name_text}

pub record CascadeTarget : Type 0 where
  pub kind : String
  pub names : List String
  pub args : Option (List String)
  pub missing_ok : Bool

-- The result of the analysis: its targets, or the rule that refuses the statement.
pub data Targets : Type 0 where
  found : List CascadeTarget → Targets
  unchecked : String → Targets

unfoldable pub address_of : ℕ → List (ℕ × String) → Option String
address_of n [] = none
address_of n ((m, kind) ∷ rest) = if eqb m n then some kind else address_of n rest

abbrev addresses : List (ℕ × String)
addresses =
    (5, "aggregate")
    ∷ (8, "collation")
    ∷ (13, "domain")
    ∷ (16, "extension")
    ∷ (19, "foreign table")
    ∷ (20, "function")
    ∷ (21, "index")
    ∷ (24, "materialized view")
    ∷ (29, "policy")
    ∷ (30, "procedure")
    ∷ (35, "routine")
    ∷ (36, "rule")
    ∷ (37, "schema")
    ∷ (38, "sequence")
    ∷ (40, "statistics object")
    ∷ (42, "table")
    ∷ (45, "trigger")
    ∷ (50, "type")
    ∷ (52, "view")
    ∷ []

unfoldable pub object_address_type : ℤ → Option String
unfolding address_of
object_address_type (pos n) = address_of n addresses
object_address_type (negsuc n) = none

-- The closure `cascades`, with DROP_CASCADE = 2.
unfoldable pub cascades : Value → Bool
unfolding get as_i64
cascades node = is_i64 2 (i64_at "behavior" node)

abbrev unspecified : Value → Bool
unspecified routine = is_true (bool_at "args_unspecified" routine)

unfoldable pub routine_args : Value → Option (List String)
unfolding get as_bool as_array pointer type_name_text
routine_args routine =
    if unspecified routine
    then none
    else some (
        map type_name_text
          (filter_map (pointer ("node" ∷ "TypeName" ∷ [])) (array_at "objargs" routine)))

abbrev one : Option String → List String
one none = []
one (some name) = name ∷ []

-- The names and arguments of one object of a DROP.
unfoldable pub drop_object : Value → List String × Option (List String)
unfolding pointer get strings routine_args sval
drop_object object = elim (pointer ("node" ∷ "List" ∷ "items" ∷ []) object) [
  | some list ↦ (strings (some list), none)
  | none ↦ elim (pointer ("node" ∷ "TypeName" ∷ []) object) [
    | some type_name ↦ (strings (get "names" type_name), none)
    | none ↦ elim (pointer ("node" ∷ "ObjectWithArgs" ∷ []) object) [
      | some routine ↦ (strings (get "objname" routine), routine_args routine)
      | none ↦ (one (sval object), none)
    ]
  ]
]

abbrev unchecked_rule : String
unchecked_rule =
    "CASCADE on this kind of object cannot be checked for dependents outside the served schema; drop the dependent objects first, then drop it without CASCADE"

unfoldable pub drop_target : String → Bool → Value → CascadeTarget
unfolding drop_object
drop_target kind missing_ok object =
    let (names, args) = drop_object object in
    record { kind = kind; names = names; args = args; missing_ok = missing_ok }

unfoldable pub drop_targets : Value → Targets
unfolding get as_i64 as_bool as_array object_address_type drop_target
drop_targets body =
    let missing_ok = unwrap_or false (bool_at "missing_ok" body) in
    elim (object_address_type (unwrap_or (pos 0) (i64_at "remove_type" body))) [
      | none ↦ unchecked unchecked_rule
      | some kind ↦ found (map (drop_target kind missing_ok) (array_at "objects" body))
    ]

abbrev non_empty : List String → List String
non_empty [] = []
non_empty (s ∷ ss) = if s == "" then non_empty ss else s ∷ non_empty ss

abbrev table_part : Option Value → String → Option String
table_part relation key = relation >>= λ r. str_at key r

-- The table that an ALTER TABLE names, without an empty schema.
unfoldable pub altered_table : Value → List String
unfolding get as_str
altered_table body =
    non_empty (filter_map (table_part (get "relation" body)) ("schemaname" ∷ "relname" ∷ []))

abbrev command_kind : Option ℤ → Option String
command_kind subtype =
    if is_i64 15 subtype
    then some "table column"
    else if is_i64 24 subtype
    then some "table constraint"
    else none

unfoldable pub command_target : List String → Value → Option CascadeTarget
unfolding get as_str as_i64 as_bool
command_target table command = do
  kind ← command_kind (i64_at "subtype" command)
  name ← str_at "name" command
  some (record {
    kind = kind;
    names = table ++ name ∷ [];
    args = none;
    missing_ok = is_true (bool_at "missing_ok" command);
  })

abbrev only_cascading : Value → Option Value
only_cascading command = if cascades command then some command else none

unfoldable pub alter_targets : Value → List CascadeTarget
unfolding get as_array pointer cascades altered_table command_target
alter_targets body = filter_map (command_target (altered_table body)) (
    filter_map only_cascading
      (filter_map (pointer ("node" ∷ "AlterTableCmd" ∷ [])) (array_at "cmds" body)))

unfoldable pub cascade_targets : String → Value → Targets
unfolding cascades drop_targets alter_targets
cascade_targets kind body =
    if kind == "DropStmt" && cascades body
    then drop_targets body
    else if kind == "AlterTableStmt"
    then found (alter_targets body)
    else found []
