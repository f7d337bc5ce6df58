-- ===== src/Classify/Safety/Tests.antt =====
-- The guarantees at two concrete trees: a SELECT with a function call, and a DROP TABLE.
use ownpg.Base.{[], String, ◌≡◌, refl, ◌↔◌, true, false, some, inl, inr, contains}
use ownpg.Errors.{ok}
use ownpg.Json.{
  Value, Fields, int, pos, text, arr, obj, is_object, get, get_field, nil, cons, end, field,
}
use ownpg.Config.Mode.{read_only}
use ownpg.Classify.Kinds.{class_of, max, allowed_in, denied_functions}
use ownpg.Classify.Walk.{
  walk, visit, note_relation, note_key, note_names, note_statement, note_schema_change, note_kind,
  note_returning, push_kind, push_function, push_relation, note_destructive, set_outside,
  push_objects, selects_into, is_skipped, non_empty_array, relation_of,
}
use ownpg.Classify.Names.{qualified_name, split_qualified}
use ownpg.Classify.Cascade.{cascade_targets}
use ownpg.Base.Text.{ends_with}
use ownpg.Config.Mode
use ownpg.Classify.Walk.Visits.{Visits}
use ownpg.Classify.Walk.Finds.{part_nodes}
use ownpg.Classify.Names.Laws.{IsPlain}
use ownpg.Base.Text.{to_ascii_lowercase}
use ownpg.Classify.Statement.{
  Parser, given, Classification, top_node, classify_tree, classify, bare_lower, grade, grade_kinds,
  grade_kind, raise, forbid, grade_functions, grade_function, grade_locking, contains_key,
  grade_targets, grade_copies, retain_relations, explain_analyzes, destructive,
}
use ownpg.Classify.Authorize.{
  SchemaScope, authorize, no_refusal, check_relations, check_relation, check_functions,
  check_function, allow_unless, is_outside,
}
use ownpg.Classify.Authorize.Decides.{Serves, IsAuthorized, authorize_iff}
use ownpg.Classify.Safety.{
  IsClassified, classify-IsClassified, authorized_functions, authorized_relations,
}

abbrev parser_of : Value → Parser
parser_of tree = record {
  count = λ sql. given 1;
  tree = λ sql. given tree;
  fingerprint = λ sql. given "f";
  normalize = λ sql. given sql;
  sha256_trimmed = λ sql. "h";
}

abbrev entry : String → Value → Value
entry k v = obj (field k v end)

abbrev name_node : String → Value
name_node s = entry "node" (entry "String" (entry "sval" (text s)))

abbrev statement : String → Value → Value
statement kind body = entry "stmts" (arr (cons (entry "stmt" (entry "node" (entry kind body))) nil))

abbrev call : Value
call = entry "funcname" (arr (cons (name_node "lower") nil))

abbrev range : Fields
range = field "relname" (text "orders") (field "schemaname" (text "app") end)

abbrev select_body : Value
select_body = obj (field "target" (entry "FuncCall" call) (field "relation" (obj range) end))

abbrev select_tree : Value
select_tree = statement "SelectStmt" select_body

abbrev drop_body : Value
drop_body = obj (
    field "objects"
      (arr (
        cons
          (entry "node" (
            entry "List"
              (entry "items" (arr (cons (name_node "app") (cons (name_node "orders") nil))))))
          nil))
      (field "remove_type" (int (pos 42)) (field "behavior" (int (pos 1)) end)))

abbrev drop_tree : Value
drop_tree = statement "DropStmt" drop_body

abbrev app : SchemaScope
app = record { schema = "app"; require_qualified_names = true }

abbrev select_class : Classification
select_class =
    classify_tree (parser_of select_tree) "SELECT lower(a) FROM app.orders" "SelectStmt" select_body
      select_tree

abbrev drop_class : Classification
drop_class =
    classify_tree (parser_of drop_tree) "DROP TABLE app.orders" "DropStmt" drop_body drop_tree

select_classified :
    classify (parser_of select_tree) "SELECT lower(a) FROM app.orders" ≡ ok select_class
unfolding classify
select_classified = refl

drop_classified : classify (parser_of drop_tree) "DROP TABLE app.orders" ≡ ok drop_class
unfolding classify
drop_classified = refl

select_top : top_node select_tree ≡ some ("SelectStmt", select_body)
unfolding top_node
select_top = refl

-- Whatever a run of the classifier calls.
program : Unit {0}
unfolding authorize no_refusal check_relations check_relation check_functions check_function
    allow_unless is_outside allowed_in Mode.allows_reads Mode.allows_writes classify_tree walk visit
    note_relation note_key note_names note_statement note_schema_change note_kind note_returning
    push_kind push_function push_relation note_destructive set_outside push_objects qualified_name
    selects_into is_skipped non_empty_array relation_of ends_with grade grade_kinds grade_kind
    class_of contains raise forbid max grade_functions grade_function bare_lower grade_locking
    contains_key grade_targets cascade_targets grade_copies retain_relations split_qualified
    explain_analyzes destructive is_object
program = tt

select_authorized : authorize select_class read_only app ≡ ok tt
unfolding program
select_authorized = refl

call_seen : Visits "FuncCall" call select_tree
unfolding Visits
call_seen = inl (
  inl (λ e. cc),
  inr (
      inl (
        inl (
          inl (λ e. cc),
          inr (
              inl (
                inl (λ e. cc),
                inr (
                    inl (
                      inl (λ e. cc),
                      inr (inl (inl (λ e. cc), inr (inl (inl (λ e. cc), inl (refl, refl))))),
                    )),
              )),
        ))),
)

range_seen : Visits "relation" (obj range) select_tree
unfolding Visits
range_seen = inl (
  inl (λ e. cc),
  inr (
      inl (
        inl (
          inl (λ e. cc),
          inr (
              inl (
                inl (λ e. cc),
                inr (inl (inl (λ e. cc), inr (inr (inl (inl (λ e. cc), inl (refl, refl)))))),
              )),
        ))),
)

IsPlain-lower : IsPlain "lower"
IsPlain-lower = (refl, (refl, (refl, (refl, (refl, tt)))))

authorized_functions_example : contains denied_functions (to_ascii_lowercase "lower") ≡ false
unfolding part_nodes get
authorized_functions_example =
    authorized_functions (parser_of select_tree) "SELECT lower(a) FROM app.orders" select_class
      select_tree "SelectStmt" select_body read_only app select_classified refl select_top
      select_authorized "FuncCall" call [] "lower" call_seen (inl (refl, refl)) (IsPlain-lower, tt)

authorized_relations_example : Serves app "app"
unfolding get_field
authorized_relations_example =
    authorized_relations (parser_of select_tree) "SELECT lower(a) FROM app.orders" select_class
      select_tree "SelectStmt" select_body read_only app select_classified refl select_top
      select_authorized "relation" range "orders" "app" range_seen (refl, refl, λ e. cc)

classify-IsClassified_example :
    IsClassified (parser_of drop_tree) "DROP TABLE app.orders" drop_class
classify-IsClassified_example =
    classify-IsClassified (parser_of drop_tree) "DROP TABLE app.orders" drop_class drop_classified

authorize_iff_example :
    (authorize select_class read_only app ≡ ok tt) ↔ IsAuthorized select_class read_only app
authorize_iff_example = authorize_iff select_class read_only app
