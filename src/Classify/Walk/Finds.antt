-- ===== src/Classify/Walk/Finds.antt =====
-- What the walk finds of each visited entry: its kind, the function it calls, and the relation it
-- names.
use ownpg.Base.{
  String, ◌≡◌, refl, ◌≢◌, true, false, some, List, [], ◌∷◌, ◌++◌, ◌⊎◌, inl, inr, In,
  In-append_right, ap, is_empty,
}
use ownpg.Base.Text.{ends_with, join}
use ownpg.Json.{
  Value, Items, Fields, null, bool, int, real, text, arr, obj, nil, cons, end, field, get,
  get_field, is_object, is_null, filter_map, items,
}
use ownpg.Classify.Names.{RelationName, dotted_name, sval}
use ownpg.Classify.Walk.{
  Findings, push_kind, push_function, push_relation, relation_of, note_relation, note_names,
  note_statement, note_key, note_kind, visit, walk, present, selects_into,
}
use ownpg.Classify.Walk.Grows.{
  Grows, Grows-trans, Grows-note_kind, Grows-note_returning, Grows-note_statement,
  Grows-note_schema_change, Grows-walk, Grows-rest,
}
use ownpg.Classify.Walk.Visits.{Visits, walk-visited, neq-test}

-- A node that is a statement.
abbrev pub IsStatement : String → Value → Type 0
IsStatement k c = (ends_with k "Stmt" ≡ true) × (is_object c ≡ true)

after_kind :
    (k : String) (c : Value) (f : Findings)
    → Grows (note_kind k c (note_key k c f)) (walk c (visit k c f))
unfolding visit
after_kind k c f =
    Grows-trans (Grows-note_returning k c (note_kind k c (note_key k c f)))
      (Grows-walk c (visit k c f))

after_key : (k : String) (c : Value) (f : Findings) → Grows (note_key k c f) (walk c (visit k c f))
after_key k c f = Grows-trans (Grows-note_kind k c (note_key k c f)) (after_kind k c f)

statement_of_key :
    (k : String) (c : Value) (f : Findings)
    → Grows (note_statement k c (note_names k c f)) (note_key k c f)
unfolding note_key
statement_of_key k c f = Grows-note_schema_change k c (note_statement k c (note_names k c f))

pub after_statement :
    (k : String) (c : Value) (f : Findings)
    → Grows (note_statement k c (note_names k c f)) (walk c (visit k c f))
after_statement k c f = Grows-trans (statement_of_key k c f) (after_key k c f)

after_names :
    (k : String) (c : Value) (f : Findings) → Grows (note_names k c f) (walk c (visit k c f))
after_names k c f =
    Grows-trans (Grows-note_statement k c (note_names k c f)) (after_statement k c f)

In-push_kind :
    (k : String) (c : Value) (f : Findings)
    → IsStatement k c
    → In k (note_kind k c f).statement_kinds
unfolding note_kind push_kind
In-push_kind k c f (stmt, object) =
    rw (stmt, object) (In-append_right k f.statement_kinds (k ∷ []) (inl refl))

-- `SELECT … INTO`, which makes a table.
abbrev pub SelectsInto : Value → Type 0
SelectsInto c = (into : Value) × (get "into_clause" c ≡ some into) × (into ≢ null)

present-value : (into : Value) → into ≢ null → present (some into) ≡ true
unfolding is_null
present-value null h = absurd (h refl)
present-value (bool b) h = refl
present-value (int n) h = refl
present-value (real s) h = refl
present-value (text s) h = refl
present-value (arr vs) h = refl
present-value (obj fs) h = refl

In-push_into :
    (c : Value) (f : Findings)
    → SelectsInto c
    → In "CreateTableAsStmt" (note_statement "SelectStmt" c f).statement_kinds
unfolding note_statement selects_into push_kind
In-push_into c f (into, e, there) = rw e (
    rw (present-value into there)
      (In-append_right "CreateTableAsStmt" f.statement_kinds ("CreateTableAsStmt" ∷ []) (inl refl)))

-- An entry is a statement of the kind `name`: a statement by its key, or a SELECT INTO, which is a
-- CREATE TABLE AS as well.
abbrev pub StandsFor : String → Value → String → Type 0
StandsFor k c name =
    (IsStatement k c × (name ≡ k))
    ⊎ ((k ≡ "SelectStmt") × SelectsInto c × (name ≡ "CreateTableAsStmt"))

-- The kind of every visited statement is among the kinds found.
pub walk-kinds :
    (k : String) (c tree : Value) (name : String) (f : Findings)
    → Visits k c tree
    → StandsFor k c name
    → In name (walk tree f).statement_kinds
walk-kinds k c tree name f h (inl (s, same)) = rw same (
    walk-visited (λ g. In k g.statement_kinds) (λ f g grows. grows.kinds k) k c
      (λ g. (after_kind k c g).kinds k (In-push_kind k c (note_key k c g) s)) tree f h)
walk-kinds k c tree name f h (inr (select, into, same)) = rw same (
    walk-visited (λ g. In "CreateTableAsStmt" g.statement_kinds)
      (λ f g grows. grows.kinds "CreateTableAsStmt") "SelectStmt" c
      (λ g.
        (after_statement "SelectStmt" c g).kinds "CreateTableAsStmt"
          (In-push_into c (note_names "SelectStmt" c g) into))
      tree f (rw select at h))

-- The nodes of the parts of a dotted name, as the parser gives them.
unfoldable pub part_nodes : List String → Items
part_nodes [] = nil
part_nodes (p ∷ ps) =
    cons (obj (field "node" (obj (field "String" (obj (field "sval" (text p) end)) end)) end))
      (part_nodes ps)

-- The function of a call: the name's parts are `before`, the schema or nothing, and `name`.
abbrev pub IsNameOf : List String → String → Value → Type 0
IsNameOf before name call = get "funcname" call ≡ some (arr (part_nodes (before ++ name ∷ [])))

-- A function call, or a CALL of a procedure.
abbrev pub Calls : String → Value → List String → String → Type 0
Calls k c before name =
    ((k ≡ "FuncCall") × IsNameOf before name c)
    ⊎ ((k ≡ "CallStmt")
        × ((call : Value) × (get "funccall" c ≡ some call) × IsNameOf before name call))

In-push_function :
    (c : Value) (n : String) (f : Findings)
    → dotted_name (get "funcname" c) ≡ some n
    → In n (note_names "FuncCall" c f).functions
unfolding note_names push_function
In-push_function c n f e = rw e (In-append_right n f.functions (n ∷ []) (inl refl))

In-push_procedure :
    (c call : Value) (n : String) (f : Findings)
    → get "funccall" c ≡ some call
    → dotted_name (get "funcname" call) ≡ some n
    → In n (note_names "CallStmt" c f).functions
unfolding note_names push_function
In-push_procedure c call n f g e = rw g (rw e (In-append_right n f.functions (n ∷ []) (inl refl)))

part_nodes-sval : (ps : List String) → filter_map sval (items (part_nodes ps)) ≡ ps
unfolding part_nodes sval
part_nodes-sval [] = refl
part_nodes-sval (p ∷ ps) = ap (λ (l : List String). p ∷ l) (part_nodes-sval ps)

is_empty-snoc : (before : List String) (name : String) → is_empty (before ++ name ∷ []) ≡ false
is_empty-snoc [] name = refl
is_empty-snoc (b ∷ bs) name = refl

IsNameOf-dotted_name :
    (before : List String) (name : String) (call : Value)
    → IsNameOf before name call
    → dotted_name (get "funcname" call) ≡ some (join "." (before ++ name ∷ []))
unfolding dotted_name
IsNameOf-dotted_name before name call h =
    rw h (rw (part_nodes-sval (before ++ name ∷ [])) (rw (is_empty-snoc before name) refl))

-- The name of every visited call is among the functions found.
pub walk-functions :
    (k : String) (c tree : Value) (before : List String) (name : String) (f : Findings)
    → Visits k c tree
    → Calls k c before name
    → In (join "." (before ++ name ∷ [])) (walk tree f).functions
walk-functions k c tree before name f h (inl (is_call, e)) =
    let n = join "." (before ++ name ∷ []) in
    walk-visited (λ g. In n g.functions) (λ f g grows. grows.functions n) "FuncCall" c
      (λ g.
        (after_names "FuncCall" c g).functions n
          (In-push_function c n g (IsNameOf-dotted_name before name c e)))
      tree f (rw is_call at h)
walk-functions k c tree before name f h (inr (is_call, (call, g, e))) =
    let n = join "." (before ++ name ∷ []) in
    walk-visited (λ x. In n x.functions) (λ f x grows. grows.functions n) "CallStmt" c
      (λ x.
        (after_names "CallStmt" c x).functions n
          (In-push_procedure c call n x g (IsNameOf-dotted_name before name call e)))
      tree f (rw is_call at h)

-- The relation that a node names by `relname` and `schemaname`, with a schema.
abbrev pub Names : Fields → String → String → Type 0
Names fs schema name =
    (get_field "relname" fs ≡ some (text name))
    × (get_field "schemaname" fs ≡ some (text schema))
    × (schema ≢ "")

relation_of-Names :
    (fs : Fields) (schema name : String)
    → Names fs schema name
    → relation_of (get_field "relname" fs) (get_field "schemaname" fs)
      ≡ some (record { schema = some schema; name = name })
unfolding relation_of
relation_of-Names fs schema name (r, s, full) = rw (r, s) (rw (neq-test schema "" full) refl)

In-push_relation :
    (fs : Fields) (r : RelationName) (f : Findings)
    → relation_of (get_field "relname" fs) (get_field "schemaname" fs) ≡ some r
    → In r (note_relation fs f).relations
unfolding note_relation push_relation
In-push_relation fs r f e = rw e (In-append_right r f.relations (r ∷ []) (inl refl))

In-walk_relation :
    (fs : Fields) (r : RelationName) (f : Findings)
    → relation_of (get_field "relname" fs) (get_field "schemaname" fs) ≡ some r
    → In r (walk (obj fs) f).relations
unfolding walk
In-walk_relation fs r f e =
    (Grows-rest fs (note_relation fs f)).relations r (In-push_relation fs r f e)

-- Every relation that a visited node names is among the relations found.
pub walk-relations :
    (k : String) (fs : Fields) (tree : Value) (schema name : String) (f : Findings)
    → Visits k (obj fs) tree
    → Names fs schema name
    → In (record { schema = some schema; name = name }) (walk tree f).relations
walk-relations k fs tree schema name f h named =
    let r : RelationName = record { schema = some schema; name = name } in
    let e = relation_of-Names fs schema name named in
    walk-visited (λ g. In r g.relations) (λ f g grows. grows.relations r) k (obj fs)
      (λ g. In-walk_relation fs r (visit k (obj fs) g) e) tree f h
