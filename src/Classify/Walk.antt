-- ===== src/Classify/Walk.antt =====
-- The walk over the parse tree: `Findings`, `note_destructive` and `walk` of
-- crates/ownpg-core/src/classify.rs.
pub mod Grows
pub mod Visits
pub mod Finds
pub mod Destroys
use ownpg.Base.{
  String, Bool, true, false, not, Option, none, some, List, [], ◌∷◌, ◌++◌, ◌==◌, ◌&&◌, ◌||◌,
  is_empty, if◌then◌else◌,
}
use ownpg.Base.Text.{ends_with}
use ownpg.Json.{
  Value, Items, Fields, text, arr, obj, nil, cons, end, field, get, pointer, as_str, as_bool,
  as_i64, as_array, is_object, is_null, ◌>>=◌, unwrap_or, get_field, is_i64, is_text, is_true,
  str_at, i64_at, bool_at, array_at,
}
use ownpg.Classify.Names.{RelationName, dotted_name, qualified_name, split_qualified}
use ownpg.Classify.Rows.{
  where_is_absent_or_constant, merge_matches_every_row, merge_has_mutating_clause,
  destructive_alter,
}

pub record CopyDetails : Type 0 where
  pub is_program : Bool
  pub is_from : Bool
  pub filename : String

pub record Findings : Type 0 where
  pub statement_kinds : List String
  pub functions : List String
  pub relations : List RelationName
  pub cte_names : List String
  pub copies : List CopyDetails
  pub destructive_reason : Option String
  pub returning : Bool
  pub outside_transaction : Bool

-- `Findings::default()`
abbrev pub default : Findings
default = record {
  statement_kinds = [];
  functions = [];
  relations = [];
  cte_names = [];
  copies = [];
  destructive_reason = none;
  returning = false;
  outside_transaction = false;
}

-- The pushes and assignments on `found`.
unfoldable pub push_kind : String → Findings → Findings
push_kind k f = record f { statement_kinds = f.statement_kinds ++ k ∷ [] }

unfoldable pub push_function : String → Findings → Findings
push_function n f = record f { functions = f.functions ++ n ∷ [] }

unfoldable pub push_relation : RelationName → Findings → Findings
push_relation r f = record f { relations = f.relations ++ r ∷ [] }

unfoldable pub push_cte : String → Findings → Findings
push_cte n f = record f { cte_names = f.cte_names ++ n ∷ [] }

unfoldable pub push_copy : CopyDetails → Findings → Findings
push_copy c f = record f { copies = f.copies ++ c ∷ [] }

unfoldable pub set_outside : Findings → Findings
set_outside f = record f { outside_transaction = true }

unfoldable pub set_returning : Findings → Findings
set_returning f = record f { returning = true }

unfoldable pub note_destructive : String → Findings → Findings
note_destructive reason f = record f {
  destructive_reason = elim f.destructive_reason [ none ↦ some reason | some r ↦ some r ];
}

-- `if let Some(x) = value { … }`
abbrev pub with_some {ℓ} : {A : Type ℓ} → (A → Findings → Findings) → Option A → Findings → Findings
with_some k none f = f
with_some k (some a) f = k a f

abbrev pub note_if : Bool → String → Findings → Findings
note_if b reason f = if b then note_destructive reason f else f

-- `for object_name in … { if let Some(name) = qualified_name(object_name) { … } }`
unfoldable pub push_objects : List Value → Findings → Findings
push_objects [] f = f
push_objects (v ∷ vs) f = push_objects vs (with_some push_relation (qualified_name v) f)

-- The `relname` and `schemaname` of one object.
unfoldable pub relation_of : Option Value → Option Value → Option RelationName
relation_of (some (text relname)) (some (text schemaname)) =
    some (record { schema = if schemaname == "" then none else some schemaname; name = relname })
relation_of _ _ = none

unfoldable pub note_relation : Fields → Findings → Findings
unfolding relation_of get_field
note_relation fs f =
    with_some push_relation (relation_of (get_field "relname" fs) (get_field "schemaname" fs)) f

unfoldable pub copy_of : Value → CopyDetails
unfolding get as_bool as_str
copy_of child = record {
  is_program = unwrap_or false (bool_at "is_program" child);
  is_from = unwrap_or false (bool_at "is_from" child);
  filename = unwrap_or "" (str_at "filename" child);
}

unfoldable pub note_drop : Value → Findings → Findings
unfolding get as_array push_objects
note_drop child f =
    push_objects (array_at "objects" child) (note_destructive "DROP removes an object" f)

abbrev pub present : Option Value → Bool
present none = false
present (some into) = not (is_null into)

unfoldable pub note_publication : Value → Findings → Findings
unfolding get as_i64
note_publication child f =
    let action = i64_at "action" child in
    if is_i64 2 action
    then note_destructive "ALTER PUBLICATION DROP TABLE stops replicating the named tables" f
    else if is_i64 3 action
    then note_destructive
        "ALTER PUBLICATION SET TABLE replaces the whole table list; any table left out stops replicating"
        f
    else f

abbrev is_present : Option Value → Bool
is_present none = false
is_present (some v) = true

abbrev or_else : Option Value → Option Value → Option Value
or_else none b = b
or_else (some a) b = some a

unfoldable pub runs_concurrently : Value → Bool
unfolding get as_bool pointer
runs_concurrently child =
    unwrap_or false (bool_at "concurrent" child) || is_present (pointer ("params" ∷ []) child)

unfoldable pub routine_name : Value → Option RelationName
unfolding get pointer dotted_name split_qualified
routine_name child =
    dotted_name (or_else (get "funcname" child) (pointer ("func" ∷ "objname" ∷ []) child))
    >>= split_qualified

unfoldable pub selects_into : Value → Bool
unfolding get is_null
selects_into child = present (get "into_clause" child)

unfoldable pub for_all_tables : Value → Bool
unfolding get as_bool
for_all_tables child = is_true (bool_at "for_all_tables" child)

-- The first half of `match key.as_str()`: names and statements that destroy.
unfoldable pub note_names : String → Value → Findings → Findings
unfolding dotted_name get pointer as_str copy_of
note_names key child f =
    if key == "FuncCall"
    then with_some push_function (dotted_name (get "funcname" child)) f
    else if key == "CallStmt"
    then with_some push_function
        (get "funccall" child >>= λ call. dotted_name (get "funcname" call)) f
    else if key == "TypeCast"
    then with_some push_function (dotted_name (pointer ("type_name" ∷ "names" ∷ []) child)) f
    else if key == "AExpr"
    then with_some push_function (dotted_name (get "name" child)) f
    else if key == "CommonTableExpr"
    then with_some push_cte (str_at "ctename" child) f
    else if key == "CopyStmt"
    then push_copy (copy_of child) f
    else f

unfoldable pub note_statement : String → Value → Findings → Findings
unfolding note_drop note_publication
note_statement key child f =
    if key == "DropStmt"
    then note_drop child f
    else if key == "TruncateStmt"
    then note_destructive "TRUNCATE removes every row" f
    else if key == "DropdbStmt"
    then set_outside (note_destructive "DROP DATABASE removes a database" f)
    else if key == "SelectStmt"
    then (if selects_into child then push_kind "CreateTableAsStmt" f else f)
    else if key == "DropRoleStmt"
    then note_destructive "DROP ROLE removes a role" f
    else if key == "DropOwnedStmt"
    then note_destructive "DROP OWNED removes everything a role owns" f
    else if key == "ReassignOwnedStmt"
    then note_destructive "REASSIGN OWNED changes the owner of everything a role owns" f
    else if key == "DeleteStmt"
    then note_if (where_is_absent_or_constant child)
        "DELETE without a narrowing WHERE clause removes every row" f
    else if key == "UpdateStmt"
    then note_if (where_is_absent_or_constant child)
        "UPDATE without a narrowing WHERE clause changes every row" f
    else if key == "MergeStmt"
    then note_if (merge_matches_every_row child && merge_has_mutating_clause child)
        "MERGE with no narrowing ON condition updates or deletes every matched row" f
    else f

abbrev outside_kinds : List String
outside_kinds =
    "VacuumStmt" ∷ "CreatedbStmt" ∷ "CreateTableSpaceStmt" ∷ "DropTableSpaceStmt"
    ∷ "AlterSystemStmt" ∷ "CreateSubscriptionStmt" ∷ []

abbrev publication_reason : String
publication_reason =
    "CREATE PUBLICATION FOR ALL TABLES publishes every table in every schema, including tables created later, and UPDATE and DELETE then fail on any published table without a replica identity"

unfoldable pub note_schema_change : String → Value → Findings → Findings
unfolding ownpg.Base.contains note_publication
note_schema_change key child f =
    if key == "AlterTableCmd"
    then with_some note_destructive (destructive_alter child) f
    else if key == "CreatePublicationStmt"
    then note_if (for_all_tables child) publication_reason f
    else if key == "AlterPublicationStmt"
    then note_publication child f
    else if key == "IndexStmt" || key == "ReindexStmt"
    then (if runs_concurrently child then set_outside f else f)
    else if ownpg.Base.contains outside_kinds key
    then set_outside f
    else if key == "CreateFunctionStmt" || key == "AlterFunctionStmt"
    then with_some push_relation (routine_name child) f
    else f

-- `match key.as_str()`: no key stands in two of its three parts.
unfoldable pub note_key : String → Value → Findings → Findings
note_key key child f =
    note_schema_change key child (note_statement key child (note_names key child f))

unfoldable pub note_kind : String → Value → Findings → Findings
note_kind key child f = if ends_with key "Stmt" && is_object child then push_kind key f else f

unfoldable pub non_empty_array : Value → Bool
unfolding as_array
non_empty_array child = elim (as_array child) [ none ↦ false | some vs ↦ not (is_empty vs) ]

unfoldable pub note_returning : String → Value → Findings → Findings
note_returning key child f =
    if key == "returning_list" && non_empty_array child then set_returning f else f

-- What one entry adds before the walk goes down into it.
unfoldable pub visit : String → Value → Findings → Findings
visit key child f = note_returning key child (note_kind key child (note_key key child f))

-- The `continue`: options named `set` or `reset` are not walked.
unfoldable pub is_skipped : String → Value → Bool
unfolding get as_str
is_skipped key child =
    key == "DefElem"
    && (is_text "set" (str_at "defname" child) || is_text "reset" (str_at "defname" child))

unfoldable mutual
  pub walk : Value → Findings → Findings
  walk (obj fs) f = walk_fields fs (note_relation fs f)
  walk (arr xs) f = walk_items xs f
  walk _ f = f

  pub walk_items : Items → Findings → Findings
  walk_items nil f = f
  walk_items (cons v vs) f = walk_items vs (walk v f)

  pub walk_fields : Fields → Findings → Findings
  walk_fields end f = f
  walk_fields (field k v fs) f = walk_fields fs (if is_skipped k v then f else walk v (visit k v f))
