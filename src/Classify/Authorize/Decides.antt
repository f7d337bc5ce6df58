-- ===== src/Classify/Authorize/Decides.antt =====
-- What `authorize` accepts, stated without its control flow.
use text.Mathlib.Text.{starts_with}
use ownpg.Base.{
  String, ◌≡◌, refl, ◌↔◌, ◌⊎◌, Bool, true, false, Option, none, some, List, [], ◌∷◌, ◌==◌, ◌&&◌,
  not, arith, All, contains,
}
use ownpg.Errors.{Result, ok, err, ◌>>◌}
use ownpg.Config.Mode
use ownpg.Config.Mode.{Mode}
use ownpg.Classify.Kinds.{allowed_in, catalog_schemas}
use ownpg.Classify.Names.{RelationName, split_qualified}
use ownpg.Classify.Statement.{Classification}
use ownpg.Classify.Authorize.{
  SchemaScope, is_outside, allow_unless, no_refusal, check_relation, check_relations,
  check_function, check_functions, class_rule, rows_rule, authorize,
}

-- The served schema or a system catalog.
abbrev pub Serves : SchemaScope → String → Type 0
Serves scope schema = ((schema == scope.schema) ≡ true) ⊎ (contains catalog_schemas schema ≡ true)

abbrev pub IsScoped : SchemaScope → RelationName → Type 0
IsScoped scope r = elim r.schema [
  | some schema ↦ Serves scope schema
  | none ↦ (scope.require_qualified_names ≡ false) ⊎ (starts_with r.name "pg_" ≡ true)
]

abbrev Qualifies : SchemaScope → Option RelationName → Type 0
Qualifies scope none = Unit
Qualifies scope (some q) = elim q.schema [ none ↦ Unit | some schema ↦ Serves scope schema ]

abbrev pub IsScopedFunction : SchemaScope → String → Type 0
IsScopedFunction scope n = Qualifies scope (split_qualified n)

pub record IsAuthorized (c : Classification) (mode : Mode) (scope : SchemaScope) : Type 0 where
  pub unrefused : c.refusals ≡ []
  pub relations : All (IsScoped scope) c.relations
  pub functions : All (IsScopedFunction scope) c.functions
  pub class : allowed_in c.class mode ≡ true
  pub rows : (c.returns_rows ≡ false) ⊎ (Mode.allows_reads mode ≡ true)

pub >>-eq-ok : (m k : Result (Unit {0})) → (m >> k) ≡ ok tt → (m ≡ ok tt) × (k ≡ ok tt)
>>-eq-ok (ok tt) k h = (refl, h)
>>-eq-ok (err e) k h = ground arith

module _ (mode : Mode) (scope : SchemaScope) where
  no_refusal_iff : (rules : List String) → (no_refusal mode rules ≡ ok tt) ↔ (rules ≡ [])
  unfolding no_refusal
  no_refusal_iff [] = ground arith
  no_refusal_iff (r ∷ rs) = ground arith

  allow-Serves_iff :
      (schema rule : String)
      → (allow_unless (is_outside scope schema) mode rule ≡ ok tt) ↔ Serves scope schema
  unfolding allow_unless is_outside
  allow-Serves_iff schema rule = ground arith

  check_relation_iff : (r : RelationName) → (check_relation mode scope r ≡ ok tt) ↔ IsScoped scope r
  unfolding check_relation allow_unless is_outside
  check_relation_iff r = ground arith

  check_relations_iff :
      (rs : List RelationName) → (check_relations mode scope rs ≡ ok tt) ↔ All (IsScoped scope) rs
  unfolding check_relations
  check_relations_iff [] = (λ _. tt, λ _. refl)
  check_relations_iff (r ∷ rs) = (
    λ h. let (p, q) = >>-eq-ok _ _ h in ((check_relation_iff r).0 p, (check_relations_iff rs).0 q),
    λ (p, q). rw ((check_relation_iff r).1 p) ((check_relations_iff rs).1 q),
  )

  check_function_iff :
      (n : String) → (check_function mode scope n ≡ ok tt) ↔ IsScopedFunction scope n
  unfolding check_function allow_unless is_outside
  check_function_iff n = ground arith

  check_functions_iff :
      (ns : List String) → (check_functions mode scope ns ≡ ok tt) ↔ All (IsScopedFunction scope) ns
  unfolding check_functions
  check_functions_iff [] = (λ _. tt, λ _. refl)
  check_functions_iff (n ∷ ns) = (
    λ h. let (p, q) = >>-eq-ok _ _ h in ((check_function_iff n).0 p, (check_functions_iff ns).0 q),
    λ (p, q). rw ((check_function_iff n).1 p) ((check_functions_iff ns).1 q),
  )

class_of_allowed :
    (mode : Mode) (b : Bool) (rule : String) → allow_unless (not b) mode rule ≡ ok tt → b ≡ true
unfolding allow_unless
class_of_allowed mode b rule h = ground arith

rows_of_allowed :
    (mode : Mode) (a b : Bool) (rule : String)
    → allow_unless (a && not b) mode rule ≡ ok tt
    → (a ≡ false) ⊎ (b ≡ true)
unfolding allow_unless
rows_of_allowed mode a b rule h = ground arith

-- `authorize` accepts exactly the classifications with no refusal, all of whose relations and
-- functions are in the served schema or a catalog (unqualified relations where the scope admits
-- them), whose class the mode allows, and that return rows only where the mode allows reads.
pub authorize_iff :
    (c : Classification) (mode : Mode) (scope : SchemaScope)
    → (authorize c mode scope ≡ ok tt) ↔ IsAuthorized c mode scope
unfolding authorize allow_unless
authorize_iff c mode scope = (
  λ h.
      let (p, h1) = >>-eq-ok _ _ h in
      let (q, h2) = >>-eq-ok _ _ h1 in
      let (r, h3) = >>-eq-ok _ _ h2 in
      let (s, t) =
        >>-eq-ok (allow_unless (not (allowed_in c.class mode)) mode (class_rule c))
          (allow_unless (c.returns_rows && not (Mode.allows_reads mode)) mode rows_rule) h3 in
      record {
        unrefused = (no_refusal_iff mode scope c.refusals).0 p;
        relations = (check_relations_iff mode scope c.relations).0 q;
        functions = (check_functions_iff mode scope c.functions).0 r;
        class = class_of_allowed mode (allowed_in c.class mode) (class_rule c) s;
        rows = rows_of_allowed mode c.returns_rows (Mode.allows_reads mode) rows_rule t;
      },
  λ a.
      rw
        (
          (no_refusal_iff mode scope c.refusals).1 a.unrefused,
          (check_relations_iff mode scope c.relations).1 a.relations,
          (check_functions_iff mode scope c.functions).1 a.functions,
          a.class,
        )
        (ground (arith, a.rows)),
)
