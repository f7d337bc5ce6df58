-- ===== src/Classify/Statement.antt =====
-- `classify` of crates/ownpg-core/src/classify.rs: one statement, its class, its refusals and
-- whether it destroys. The parser is PostgreSQL's own and is not in the repository: a parameter.
pub mod Grades
use Prim.Native.String.{◌++◌ as str_append}
use ownpg.Base.{
  ℕ, String, Bool, true, false, not, Option, none, some, List, [], ◌∷◌, ◌++◌, ◌==◌, ◌&&◌, ◌||◌, ltb,
  eqb, contains, if◌then◌else◌,
}
use ownpg.Base.Text.{to_ascii_lowercase}
use ownpg.Errors.{Error, Result, ok, err, statement_unparsable, statement_multiple, ◌>>=◌}
use ownpg.Json.{
  Value, Items, Fields, arr, obj, nil, cons, end, field, get, pointer, as_str, as_bool, as_i64,
  as_array, is_i64, unwrap_or, ◌>>=◌ as and_then,
}
use ownpg.Classify.Kinds.{
  StatementClass, Verdict, read, write, class, refuse, class_of, max, denied_functions,
  notify_and_lock_functions, transaction_lock_functions, statistics_reset_functions,
}
use ownpg.Classify.Names.{RelationName, bare_name}
use ownpg.Classify.Walk.{CopyDetails, Findings, default, walk}
use ownpg.Classify.Cascade.{CascadeTarget, Targets, found, unchecked, cascade_targets}

-- The crate `pg_query` and the hash: a text, or the reason why there is none.
pub data Reply {ℓ} (A : Type ℓ) : Type ℓ where
  given : A → Reply A
  failed : String → Reply A

pub record Parser : Type 0 where
  -- `split_with_parser`: how many statements the text holds
  pub count : String → Reply ℕ
  -- `parse` and the conversion of its tree to JSON
  pub tree : String → Reply Value
  pub fingerprint : String → Reply String
  pub normalize : String → Reply String
  -- `sha256_hex` of the trimmed text
  pub sha256_trimmed : String → String

pub record Classification : Type 0 where
  pub class : StatementClass
  pub kind : String
  pub destructive_reason : Option String
  pub refusals : List String
  pub relations : List RelationName
  pub functions : List String
  pub fingerprint : String
  pub sql_sha256 : String
  pub normalized : String
  pub runs_outside_transaction : Bool
  pub explain_analyze : Bool
  pub returning : Bool
  pub returns_rows : Bool
  pub cascade_targets : List CascadeTarget

abbrev pub unparsable {ℓ} : {A : Type ℓ} → Reply A → Result A
unparsable (given a) = ok a
unparsable (failed reason) = err (statement_unparsable reason)

abbrev text_or_empty : Reply String → String
text_or_empty (given s) = s
text_or_empty (failed reason) = ""

unfoldable pub statement_count : Parser → String → Result ℕ
statement_count p sql = unparsable (p.count sql)

abbrev first_entry : Option Value → Option (String × Value)
first_entry (some (obj (field k v fs))) = some (k, v)
first_entry _ = none

-- The node of the first statement: its kind and its body.
unfoldable pub top_node : Value → Option (String × Value)
unfolding pointer
top_node tree = first_entry (pointer ("stmts" ∷ "0" ∷ "stmt" ∷ "node" ∷ []) tree)

abbrev pub is_named : List String → String → Bool
is_named names name = contains names name

-- `relations.retain(…)`: an unqualified name of a common table expression is no relation.
unfoldable pub retain_relations : List String → List RelationName → List RelationName
retain_relations ctes [] = []
retain_relations ctes (r ∷ rs) =
    let rest = retain_relations ctes rs in
    elim r.schema [
      | some schema ↦ r ∷ rest
      | none ↦ if is_named ctes r.name then rest else r ∷ rest
    ]

-- The two things that the loops of `classify` build.
pub record Grade : Type 0 where
  pub strongest : StatementClass
  pub refusals : List String

unfoldable pub raise : StatementClass → Grade → Grade
raise c g = record g { strongest = max g.strongest c }

unfoldable pub forbid : String → Grade → Grade
forbid rule g = record g { refusals = g.refusals ++ rule ∷ [] }

unfoldable pub grade_verdict : Verdict → Grade → Grade
unfolding raise forbid
grade_verdict (class c) g = raise c g
grade_verdict (refuse rule) g = forbid rule g

unfoldable pub grade_kind : String → Grade → Grade
unfolding grade_verdict
grade_kind kind g = grade_verdict (class_of kind) g

unfoldable pub grade_kinds : List String → Grade → Grade
grade_kinds [] g = g
grade_kinds (k ∷ ks) g = grade_kinds ks (grade_kind k g)

abbrev arg_text : Value → String
arg_text arg = elim (and_then (pointer ("node" ∷ "String" ∷ "sval" ∷ []) arg) as_str) [
  | some s ↦ s
  | none ↦
      unwrap_or ""
        (and_then (pointer ("node" ∷ "AConst" ∷ "val" ∷ "Sval" ∷ "sval" ∷ []) arg) as_str)
]

abbrev is_false : Option Bool → Bool
is_false none = false
is_false (some b) = not b

abbrev false_words : List String
false_words = "false" ∷ "off" ∷ "0" ∷ "no" ∷ "f" ∷ []

unfoldable pub arg_is_false : Option Value → Bool
unfolding pointer as_str as_bool as_i64 to_ascii_lowercase contains
arg_is_false none = false
arg_is_false (some arg) =
    contains false_words (to_ascii_lowercase (arg_text arg))
    || is_false
        (and_then (pointer ("node" ∷ "AConst" ∷ "val" ∷ "Boolval" ∷ "boolval" ∷ []) arg) as_bool)
    || is_i64 0 (and_then (pointer ("node" ∷ "Integer" ∷ "ival" ∷ []) arg) as_i64)

unfoldable pub option_analyzes : Value → Bool
unfolding pointer as_str arg_is_false to_ascii_lowercase
option_analyzes option =
    to_ascii_lowercase
        (unwrap_or "" (and_then (pointer ("node" ∷ "DefElem" ∷ "defname" ∷ []) option) as_str))
      == "analyze"
    && not (arg_is_false (pointer ("node" ∷ "DefElem" ∷ "arg" ∷ []) option))

abbrev any_of : (Value → Bool) → Option (List Value) → Bool
any_of p none = false
any_of p (some vs) = ownpg.Base.any p vs

unfoldable pub explain_analyzes : Value → Bool
unfolding get as_array option_analyzes
explain_analyzes body = any_of option_analyzes (and_then (get "options" body) as_array)

unfoldable mutual
  pub contains_key : Value → String → Bool
  contains_key (obj fs) key = fields_contain_key fs key
  contains_key (arr vs) key = items_contain_key vs key
  contains_key _ key = false

  pub items_contain_key : Items → String → Bool
  items_contain_key nil key = false
  items_contain_key (cons v vs) key = contains_key v key || items_contain_key vs key

  pub fields_contain_key : Fields → String → Bool
  fields_contain_key end key = false
  fields_contain_key (field k v fs) key =
      ((k == key) || contains_key v key) || fields_contain_key fs key

abbrev kind_or_empty : Option (String × Value) → String
kind_or_empty none = ""
kind_or_empty (some (k, v)) = k

-- The kind of the statement that an EXPLAIN explains.
unfoldable pub explained_kind : Value → String
unfolding pointer
explained_kind body = kind_or_empty (first_entry (pointer ("query" ∷ "node" ∷ []) body))

-- The branch `kind == "ExplainStmt"`: without ANALYZE nothing runs, so the class is read.
unfoldable pub explain_verdict : Verdict → Bool → Grade → Grade
unfolding raise forbid
explain_verdict (class c) true g = raise c g
explain_verdict (class c) false g = record g { strongest = read }
explain_verdict (refuse rule) true g = raise read (forbid rule g)
explain_verdict (refuse rule) false g = record (forbid rule g) { strongest = read }

unfoldable pub grade_explain : Value → Grade → Grade
unfolding explain_analyzes explained_kind explain_verdict
grade_explain body g = explain_verdict (class_of (explained_kind body)) (explain_analyzes body) g

unfoldable pub denied_rule : String → String
denied_rule bare = str_append "the function `" (str_append bare "` reaches outside the database")

unfoldable pub notify_rule : String → String
notify_rule bare = str_append "the function `" (
    str_append bare
      "` sends a notification or takes an advisory lock that outlives the transaction, which this server does not run")

unfoldable pub bare_lower : String → String
unfolding bare_name to_ascii_lowercase
bare_lower function = to_ascii_lowercase (bare_name function)

unfoldable pub grade_function : String → Grade → Grade
unfolding raise forbid denied_rule notify_rule
grade_function function g =
    let bare = bare_lower function in
    if contains denied_functions bare
    then forbid (denied_rule bare) g
    else if contains notify_and_lock_functions bare
    then forbid (notify_rule bare) g
    else if contains statistics_reset_functions bare || contains transaction_lock_functions bare
    then raise write g
    else g

unfoldable pub grade_functions : List String → Grade → Grade
grade_functions [] g = g
grade_functions (n ∷ ns) g = grade_functions ns (grade_function n g)

unfoldable pub grade_copy : CopyDetails → Grade → Grade
unfolding raise forbid
grade_copy copy g =
    let g' = if copy.is_from then raise write g else g in
    if copy.is_program
    then forbid "COPY ... PROGRAM runs a command on the database host" g'
    else if copy.filename == ""
    then g'
    else forbid "COPY to or from a file touches the database host's filesystem" g'

unfoldable pub grade_copies : List CopyDetails → Grade → Grade
grade_copies [] g = g
grade_copies (c ∷ cs) g = grade_copies cs (grade_copy c g)

unfoldable pub grade_targets : Targets → Grade → Grade
unfolding forbid
grade_targets (found targets) g = g
grade_targets (unchecked rule) g = forbid rule g

abbrev targets_of : Targets → List CascadeTarget
targets_of (found targets) = targets
targets_of (unchecked rule) = []

abbrev pub is_explain : String → Bool
is_explain kind = kind == "ExplainStmt"

abbrev pub start : Grade
start = record { strongest = read; refusals = [] }

unfoldable pub analyzes : String → Value → Bool
analyzes kind body = is_explain kind && explain_analyzes body

unfoldable pub grade_locking : String → Value → Grade → Grade
grade_locking kind body g =
    if (not (is_explain kind) || explain_analyzes body) && contains_key body "LockingClause"
    then raise write g
    else g

-- The class and the refusals, in the order in which `classify` finds them.
unfoldable pub grade : String → Value → Findings → Grade
grade kind body f =
    let kinds = grade_kinds f.statement_kinds start in
    let explained = if is_explain kind then grade_explain body kinds else kinds in
    let called = grade_functions f.functions explained in
    let locked = grade_locking kind body called in
    let targeted = grade_targets (cascade_targets kind body) locked in
    grade_copies f.copies targeted

abbrev procedural_reason : String
procedural_reason = "the body is a procedural language block the classifier cannot see inside"

abbrev procedural_kinds : List String
procedural_kinds = "DoStmt" ∷ "CallStmt" ∷ "CreateFunctionStmt" ∷ []

abbrev pub is_read : StatementClass → Bool
is_read read = true
is_read _ = false

abbrev pub or_reason : Option String → Option String → Option String
or_reason (some r) other = some r
or_reason none other = other

-- A read destroys nothing; a block that cannot be read is taken to destroy.
unfoldable pub destructive : StatementClass → String → Findings → Option String
unfolding contains
destructive c kind f =
    or_reason (if is_read c then none else f.destructive_reason)
      (if contains procedural_kinds kind then some procedural_reason else none)

unfoldable pub classify_tree : Parser → String → String → Value → Value → Classification
classify_tree p sql kind body tree =
    let f = walk tree default in
    let g = grade kind body f in
    record {
      class = g.strongest;
      kind = kind;
      destructive_reason = destructive g.strongest kind f;
      refusals = g.refusals;
      relations = retain_relations f.cte_names f.relations;
      functions = f.functions;
      fingerprint = text_or_empty (p.fingerprint sql);
      sql_sha256 = p.sha256_trimmed sql;
      normalized = text_or_empty (p.normalize sql);
      runs_outside_transaction = f.outside_transaction;
      explain_analyze = analyzes kind body;
      returning = f.returning;
      returns_rows = kind == "SelectStmt";
      cascade_targets = targets_of (cascade_targets kind body);
    }

abbrev no_statement : Error
no_statement = statement_unparsable "the input holds no statement"

unfoldable pub with_top : Parser → String → Value → Option (String × Value) → Result Classification
with_top p sql tree none = err no_statement
with_top p sql tree (some (kind, body)) = ok (classify_tree p sql kind body tree)

unfoldable pub check_count : ℕ → Result (Unit {0})
check_count n =
    if eqb n 0 then err no_statement else if ltb 1 n then err (statement_multiple n) else ok tt

unfoldable pub classify : Parser → String → Result Classification
unfolding statement_count check_count top_node with_top
classify p sql = do
  n ← statement_count p sql
  single ← check_count n
  tree ← unparsable (p.tree sql)
  with_top p sql tree (top_node tree)
