-- ===== src/Classify/Safety.antt =====
-- What an authorised statement can do: the guarantees that `classify` and `authorize` of
-- crates/ownpg-core/src/classify.rs give together, over every parse tree.
pub mod Tests
use ownpg.Base.{
  ℕ, suc, String, ◌≡◌, refl, sym, Bool, false, Option, none, some, List, [], ◌∷◌, ◌++◌, ◌==◌, arith,
  ◌⊎◌, inl, inr, In, All, contains, if◌then◌else◌, eqb, ltb, Option-cases, Bool-cases, ap, ◌∙◌,
  if-keeps, All-In,
}
use ownpg.Errors.{Error, Result, ok, err, ◌>>=◌}
use ownpg.Json.{Value, Fields, obj}
use ownpg.Config.Mode
use ownpg.Config.Mode.{Mode}
use ownpg.Classify.Kinds.{denied_functions}
use ownpg.Classify.Names.{RelationName}
use ownpg.Classify.Names.Laws.{ArePlain, bare_name-join}
use ownpg.Base.Text.{join, to_ascii_lowercase}
use ownpg.Classify.Walk.{Findings, default, walk}
use ownpg.Classify.Walk.Visits.{Visits}
use ownpg.Classify.Walk.Destroys.{Destroys}
use ownpg.Classify.Walk.Finds.{Calls, Names, walk-functions, walk-relations}
use ownpg.Classify.Statement.{
  Parser, Reply, given, failed, Classification, Grade, unparsable, top_node, with_top, check_count,
  statement_count, classify_tree, classify, is_explain, explain_analyzes, grade, bare_lower,
  denied_rule, retain_relations, is_named,
}
use ownpg.Classify.Statement.Grades.{functions-refusals}
use ownpg.Classify.Authorize.{SchemaScope, authorize}
use ownpg.Classify.Authorize.Decides.{Serves, IsScoped, IsAuthorized, authorize_iff}

-- How a classification came about.
pub record IsClassified (p : Parser) (sql : String) (c : Classification) : Type 0 where
  pub tree : Value
  pub kind : String
  pub body : Value
  pub single : p.count sql ≡ given 1
  pub parsed : p.tree sql ≡ given tree
  pub top : top_node tree ≡ some (kind, body)
  pub built : c ≡ classify_tree p sql kind body tree

count-eq-one : (n : ℕ) → check_count n ≡ ok tt → n ≡ 1
unfolding check_count
count-eq-one n h = ground arith

module _ (p : Parser) (sql : String) (c : Classification) where
  built_from :
      (tree : Value) (n : ℕ) (o : Option (String × Value))
      → p.count sql ≡ given n
      → n ≡ 1
      → p.tree sql ≡ given tree
      → top_node tree ≡ o
      → with_top p sql tree o ≡ ok c
      → IsClassified p sql c
  unfolding with_top
  built_from tree n none counted one parsed top h = cc
  built_from tree n (some (kind, body)) counted one parsed top h = record {
    tree = tree;
    kind = kind;
    body = body;
    single = rw (← one) counted;
    parsed = parsed;
    top = top;
    built = cc;
  }

  parsed_from :
      (r : Reply Value) (n : ℕ)
      → p.count sql ≡ given n
      → n ≡ 1
      → p.tree sql ≡ r
      → (unparsable r >>= λ tree. with_top p sql tree (top_node tree)) ≡ ok c
      → IsClassified p sql c
  parsed_from (failed reason) n counted one e h = cc
  parsed_from (given tree) n counted one e h = built_from tree n _ counted one e refl h

  counted_from :
      (r : Reply ℕ)
      → p.count sql ≡ r
      → (unparsable r >>= λ n. check_count n >>= λ _.
          unparsable (p.tree sql) >>= λ tree. with_top p sql tree (top_node tree))
        ≡ ok c
      → IsClassified p sql c
  counted_from (failed reason) e h = cc
  counted_from (given n) e h = checked_from (check_count n) refl h
    where
      checked_from :
          (r : Result (Unit {0}))
          → check_count n ≡ r
          → (r >>= λ _. unparsable (p.tree sql) >>= λ tree. with_top p sql tree (top_node tree))
            ≡ ok c
          → IsClassified p sql c
      checked_from (err x) d k = cc
      checked_from (ok tt) d k = parsed_from (p.tree sql) n e (count-eq-one n d) refl k

  -- A text that is classified holds exactly one statement, and the classification is that of its
  -- tree.
  pub classify-IsClassified : classify p sql ≡ ok c → IsClassified p sql c
  unfolding classify statement_count
  classify-IsClassified h = counted_from (p.count sql) refl h

given-injective : {a b : Value} → given a ≡ given b → a ≡ b
given-injective h = cc

-- The classification of a text whose tree and first statement are known.
classify-built :
    (p : Parser) (sql : String) (c : Classification) (tree : Value) (kind : String) (body : Value)
    → classify p sql ≡ ok c
    → p.tree sql ≡ given tree
    → top_node tree ≡ some (kind, body)
    → c ≡ classify_tree p sql kind body tree
classify-built p sql c tree kind body h parsed top =
    let s = classify-IsClassified p sql c h in
    let same : s.tree ≡ tree = cc in
    let top' : top_node s.tree ≡ some (kind, body) = rw same top in
    let kinds : s.kind ≡ kind = cc in
    let bodies : s.body ≡ body = cc in rw (← same) (rw (← kinds) (rw (← bodies) s.built))

no-member : (x : String) (xs : List String) → xs ≡ [] → In x xs → ⊥
no-member x xs e h = rw e at h

-- A relation with a schema is not taken for a common table expression.
In-retain_relations :
    (ctes : List String) (rs : List RelationName) (r : RelationName) (schema : String)
    → r.schema ≡ some schema
    → In r rs
    → In r (retain_relations ctes rs)
unfolding retain_relations
In-retain_relations ctes [] r schema e h = absurd h
In-retain_relations ctes (q ∷ rs) r schema e (inl same) =
    let known : q.schema ≡ some schema = rw same at e in rw known (inl same)
In-retain_relations ctes (q ∷ rs) r schema e (inr h) =
    retain_keeps q.schema (In-retain_relations ctes rs r schema e h)
  where
    retain_keeps :
        (o : Option String)
        → In r (retain_relations ctes rs)
        → In r (elim o [
          | some s ↦ q ∷ retain_relations ctes rs
          | none ↦
              if is_named ctes q.name
              then retain_relations ctes rs
              else q ∷ retain_relations ctes rs
        ])
    retain_keeps (some s) m = inr m
    retain_keeps none m =
        if-keeps {A = List RelationName} (In r) (is_named ctes q.name) (λ _. m) (λ _. inr m)

module _ (p : Parser) (sql : String) (c : Classification) (tree : Value) (kind : String)
    (body : Value) (mode : Mode) (scope : SchemaScope) (classified : classify p sql ≡ ok c)
    (parsed : p.tree sql ≡ given tree) (top : top_node tree ≡ some (kind, body))
    (authorized : authorize c mode scope ≡ ok tt) where
  abbrev found : Findings
  found = walk tree default

  abbrev graded : Grade
  graded = grade kind body found

  built : c ≡ classify_tree p sql kind body tree
  built = classify-built p sql c tree kind body classified parsed top

  allowed : IsAuthorized c mode scope
  allowed = (authorize_iff c mode scope).0 authorized

  unrefused : graded.refusals ≡ []
  unfolding classify_tree
  unrefused = rw built at allowed.unrefused

  relations-eq : c.relations ≡ retain_relations found.cte_names found.relations
  unfolding classify_tree
  relations-eq = ap (λ (x : Classification). x.relations) built

  -- No function of the list that reaches outside the database is called by a function call or by a
  -- CALL in the tree of an authorised text, whatever the mode, the case of its name and the schema
  -- written before it. The parts of the name hold no dot, and calls inside an option (DefElem)
  -- named `set` or `reset` are not spoken of.
  pub authorized_functions :
      (k : String) (child : Value) (before : List String) (name : String)
      → Visits k child tree
      → Calls k child before name
      → ArePlain (before ++ name ∷ [])
      → contains denied_functions (to_ascii_lowercase name) ≡ false
  unfolding bare_lower
  authorized_functions k child before name seen calls plain =
      let n = join "." (before ++ name ∷ []) in
      elim (Bool-cases (contains denied_functions (bare_lower n))) [
        | inl denied ↦ absurd (
            no-member _ _ unrefused (
              functions-refusals kind body found n
                (walk-functions k child tree before name default seen calls) denied))
        | inr fine ↦
            ap (λ (s : String). contains denied_functions (to_ascii_lowercase s))
              (sym (bare_name-join before name plain))
            ∙ fine
      ]

  -- Every relation that an object of the tree of an authorised text names by a `relname` and a
  -- nonempty `schemaname` is in the served schema or in a system catalog. Objects inside an option
  -- (DefElem) named `set` or `reset`, and names that stand as lists of strings, are not spoken of.
  pub authorized_relations :
      (k : String) (fs : Fields) (name schema : String)
      → Visits k (obj fs) tree
      → Names fs schema name
      → Serves scope schema
  authorized_relations k fs name schema seen names =
      let r : RelationName = record { schema = some schema; name = name } in
      All-In (IsScoped scope) r c.relations allowed.relations (
        rw relations-eq (
          In-retain_relations found.cte_names found.relations r schema refl
            (walk-relations k fs tree schema name default seen names)))
