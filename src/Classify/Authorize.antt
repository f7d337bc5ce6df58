-- ===== src/Classify/Authorize.antt =====
-- `authorize` of crates/ownpg-core/src/classify.rs: may a classified statement run in a mode and
-- a schema scope?
pub mod Decides
use Prim.Native.String.{◌++◌ as str_append}
use text.Mathlib.Text.{starts_with}
use ownpg.Base.{
  String, Bool, true, false, not, Option, none, some, List, [], ◌∷◌, ◌==◌, ◌&&◌, contains,
  if◌then◌else◌,
}
use ownpg.Errors.{Error, Result, ok, err, statement_refused, ◌>>=◌, ◌>>◌}
use ownpg.Config.Mode
use ownpg.Config.Mode.{Mode}
use ownpg.Classify.Kinds
use ownpg.Classify.Kinds.{allowed_in, catalog_schemas}
use ownpg.Classify.Names.{RelationName, split_qualified}
use ownpg.Classify.Statement.{Classification}

pub record SchemaScope : Type 0 where
  pub schema : String
  pub require_qualified_names : Bool

-- `schema != scope.schema && !CATALOG_SCHEMAS.contains(&schema)`
unfoldable pub is_outside : SchemaScope → String → Bool
is_outside scope schema = not (schema == scope.schema) && not (contains catalog_schemas schema)

infixr 66 ◌<>◌
abbrev ◌<>◌ : String → String → String
s <> t = str_append s t

-- The texts of the refusals.
object_rule : String → RelationName → SchemaScope → String
object_rule schema relation scope =
    "object outside scoped schema: `" <> schema <> "." <> relation.name <> "` (this server serves `"
    <> scope.schema <> "`)"

unqualified_rule : RelationName → String
unqualified_rule relation =
    "`" <> relation.name <> "` is not schema-qualified, and a pooled connection has no search_path"

function_rule : String → RelationName → SchemaScope → String
function_rule schema qualified scope =
    "function outside scoped schema: `" <> schema <> "." <> qualified.name
    <> "` (this server serves `" <> scope.schema <> "`)"

class_rule : Classification → String
class_rule c = "a " <> Kinds.as_str c.class <> " statement (" <> c.kind <> ") is not allowed"

abbrev rows_rule : String
rows_rule =
    "a SELECT returns table rows, which this mode does not allow even when the statement also writes"

-- The closure `refuse`.
unfoldable pub refuse : {A : Type 0} → Mode → String → Result A
refuse mode rule = err (statement_refused rule (Mode.as_str mode))

unfoldable pub allow_unless : Bool → Mode → String → Result (Unit {0})
unfolding refuse
allow_unless true mode rule = refuse mode rule
allow_unless false mode rule = ok tt

unfoldable pub no_refusal : Mode → List String → Result (Unit {0})
unfolding refuse
no_refusal mode [] = ok tt
no_refusal mode (rule ∷ rules) = refuse mode rule

unfoldable pub check_relation : Mode → SchemaScope → RelationName → Result (Unit {0})
unfolding object_rule unqualified_rule
check_relation mode scope relation = elim relation.schema [
  | some schema ↦ allow_unless (is_outside scope schema) mode (object_rule schema relation scope)
  | none ↦
      allow_unless (scope.require_qualified_names && not (starts_with relation.name "pg_")) mode
        (unqualified_rule relation)
]

unfoldable pub check_relations : Mode → SchemaScope → List RelationName → Result (Unit {0})
check_relations mode scope [] = ok tt
check_relations mode scope (r ∷ rs) = do check_relation mode scope r; check_relations mode scope rs

abbrev check_qualified : Mode → SchemaScope → Option RelationName → Result (Unit {0})
check_qualified mode scope none = ok tt
check_qualified mode scope (some qualified) = elim qualified.schema [
  | none ↦ ok tt
  | some schema ↦ allow_unless (is_outside scope schema) mode (function_rule schema qualified scope)
]

unfoldable pub check_function : Mode → SchemaScope → String → Result (Unit {0})
unfolding function_rule
check_function mode scope function = check_qualified mode scope (split_qualified function)

unfoldable pub check_functions : Mode → SchemaScope → List String → Result (Unit {0})
check_functions mode scope [] = ok tt
check_functions mode scope (n ∷ ns) = do check_function mode scope n; check_functions mode scope ns

unfoldable pub authorize : Classification → Mode → SchemaScope → Result (Unit {0})
unfolding class_rule
authorize c mode scope = do
  no_refusal mode c.refusals
  check_relations mode scope c.relations
  check_functions mode scope c.functions
  allow_unless (not (allowed_in c.class mode)) mode (class_rule c)
  allow_unless (c.returns_rows && not (Mode.allows_reads mode)) mode rows_rule
