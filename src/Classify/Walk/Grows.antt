-- ===== src/Classify/Walk/Grows.antt =====
-- The walk only adds: nothing that a visit found is lost later.
use ownpg.Base.{
  String, ◌≡◌, ◌≢◌, Bool, true, Option, none, some, List, [], ◌∷◌, arith, In, In-append_left,
  if◌then◌else◌, if-keeps,
}
use ownpg.Json.{Value, Items, Fields, arr, obj, nil, cons, end, field, array_at}
use ownpg.Classify.Names.{RelationName, qualified_name}
use ownpg.Classify.Walk.{
  CopyDetails, Findings, push_kind, push_function, push_relation, push_cte, push_copy, set_outside,
  set_returning, note_destructive, with_some, note_if, push_objects, note_relation, note_drop,
  note_publication, note_names, note_statement, note_schema_change, note_key, note_kind,
  note_returning, visit, is_skipped, walk, walk_items, walk_fields,
}

pub record Grows (f g : Findings) : Type 0 where
  pub kinds : (k : String) → In k f.statement_kinds → In k g.statement_kinds
  pub functions : (n : String) → In n f.functions → In n g.functions
  pub relations : (r : RelationName) → In r f.relations → In r g.relations
  pub copies : (c : CopyDetails) → In c f.copies → In c g.copies
  pub reason : f.destructive_reason ≢ none → g.destructive_reason ≢ none
  pub outside : f.outside_transaction ≡ true → g.outside_transaction ≡ true
  pub returning : f.returning ≡ true → g.returning ≡ true

pub Grows-refl : (f : Findings) → Grows f f
Grows-refl f = record {
  kinds = λ k h. h;
  functions = λ n h. h;
  relations = λ r h. h;
  copies = λ c h. h;
  reason = λ h. h;
  outside = λ h. h;
  returning = λ h. h;
}

pub Grows-trans : {f g h : Findings} → Grows f g → Grows g h → Grows f h
Grows-trans p q = record {
  kinds = λ k m. q.kinds k (p.kinds k m);
  functions = λ n m. q.functions n (p.functions n m);
  relations = λ r m. q.relations r (p.relations r m);
  copies = λ c m. q.copies c (p.copies c m);
  reason = λ m. q.reason (p.reason m);
  outside = λ m. q.outside (p.outside m);
  returning = λ m. q.returning (p.returning m);
}

Grows-push_kind : (k : String) (f : Findings) → Grows f (push_kind k f)
unfolding push_kind
Grows-push_kind k f = search (In-append_left)

Grows-push_function : (n : String) (f : Findings) → Grows f (push_function n f)
unfolding push_function
Grows-push_function n f = search (In-append_left)

Grows-push_relation : (r : RelationName) (f : Findings) → Grows f (push_relation r f)
unfolding push_relation
Grows-push_relation r f = search (In-append_left)

Grows-push_cte : (n : String) (f : Findings) → Grows f (push_cte n f)
unfolding push_cte
Grows-push_cte n f = search arith

Grows-push_copy : (c : CopyDetails) (f : Findings) → Grows f (push_copy c f)
unfolding push_copy
Grows-push_copy c f = search (In-append_left)

some-ne-none :
    (reason : String) (o : Option String) → elim o [ none ↦ some reason | some r ↦ some r ] ≢ none
some-ne-none reason none = cc
some-ne-none reason (some r) = cc

pub note_destructive-reason :
    (reason : String) (f : Findings) → (note_destructive reason f).destructive_reason ≢ none
unfolding note_destructive
note_destructive-reason reason f = some-ne-none reason f.destructive_reason

Grows-note_destructive : (reason : String) (f : Findings) → Grows f (note_destructive reason f)
unfolding note_destructive
Grows-note_destructive reason f = record {
  kinds = λ k h. h;
  functions = λ n h. h;
  relations = λ r h. h;
  copies = λ c h. h;
  reason = λ h. some-ne-none reason f.destructive_reason;
  outside = λ h. h;
  returning = λ h. h;
}

pub Grows-set_outside : (f : Findings) → Grows f (set_outside f)
unfolding set_outside
Grows-set_outside f = search arith

Grows-set_returning : (f : Findings) → Grows f (set_returning f)
unfolding set_returning
Grows-set_returning f = search arith

Grows-if :
    {f : Findings} (b : Bool) (x y : Findings)
    → Grows f x
    → Grows f y
    → Grows f (if b then x else y)
Grows-if {f} b x y p q = if-keeps (Grows f) b (λ _. p) (λ _. q)

Grows-note_if : (b : Bool) (reason : String) (f : Findings) → Grows f (note_if b reason f)
Grows-note_if b reason f = Grows-if b _ _ (Grows-note_destructive reason f) (Grows-refl f)

Grows-with_some :
    {A : Type 0} (k : A → Findings → Findings)
    → ((a : A) (f : Findings) → Grows f (k a f))
    → (o : Option A) (f : Findings) → Grows f (with_some k o f)
Grows-with_some k h none f = Grows-refl f
Grows-with_some k h (some a) f = h a f

Grows-function_in : (o : Option String) (f : Findings) → Grows f (with_some push_function o f)
Grows-function_in = Grows-with_some push_function Grows-push_function

Grows-relation_in : (o : Option RelationName) (f : Findings) → Grows f (with_some push_relation o f)
Grows-relation_in = Grows-with_some push_relation Grows-push_relation

Grows-cte_in : (o : Option String) (f : Findings) → Grows f (with_some push_cte o f)
Grows-cte_in = Grows-with_some push_cte Grows-push_cte

Grows-reason_in : (o : Option String) (f : Findings) → Grows f (with_some note_destructive o f)
Grows-reason_in = Grows-with_some note_destructive Grows-note_destructive

pub Grows-push_objects : (vs : List Value) (f : Findings) → Grows f (push_objects vs f)
unfolding push_objects
Grows-push_objects [] f = Grows-refl f
Grows-push_objects (v ∷ vs) f =
    Grows-trans (Grows-relation_in (qualified_name v) f) (Grows-push_objects vs _)

Grows-note_relation : (fs : Fields) (f : Findings) → Grows f (note_relation fs f)
unfolding note_relation
Grows-note_relation fs f = Grows-relation_in _ f

pub Grows-note_drop : (v : Value) (f : Findings) → Grows f (note_drop v f)
unfolding note_drop
Grows-note_drop v f =
    Grows-trans (Grows-note_destructive "DROP removes an object" f)
      (Grows-push_objects (array_at "objects" v) _)

ruleset grow_rules = (
  Grows-refl, Grows-if, Grows-note_destructive, Grows-set_outside, Grows-note_if, Grows-push_kind,
  Grows-push_copy, Grows-function_in, Grows-relation_in, Grows-cte_in, Grows-reason_in,
  Grows-note_drop,
)

Grows-note_names : (k : String) (v : Value) (f : Findings) → Grows f (note_names k v f)
unfolding note_names
Grows-note_names k v f = search grow_rules depth 12

Grows-note_publication : (v : Value) (f : Findings) → Grows f (note_publication v f)
unfolding note_publication
Grows-note_publication v f = search grow_rules depth 12

Grows-drop_database :
    (f : Findings) → Grows f (set_outside (note_destructive "DROP DATABASE removes a database" f))
Grows-drop_database f = Grows-trans (Grows-note_destructive _ f) (Grows-set_outside _)

pub Grows-note_statement : (k : String) (v : Value) (f : Findings) → Grows f (note_statement k v f)
unfolding note_statement
Grows-note_statement k v f = search (grow_rules, Grows-drop_database) depth 20

pub Grows-note_schema_change :
    (k : String) (v : Value) (f : Findings) → Grows f (note_schema_change k v f)
unfolding note_schema_change
Grows-note_schema_change k v f = search (grow_rules, Grows-note_publication) depth 20

pub Grows-note_key : (k : String) (v : Value) (f : Findings) → Grows f (note_key k v f)
unfolding note_key
Grows-note_key k v f =
    Grows-trans (Grows-note_names k v f)
      (Grows-trans (Grows-note_statement k v _) (Grows-note_schema_change k v _))

pub Grows-note_kind : (k : String) (v : Value) (f : Findings) → Grows f (note_kind k v f)
unfolding note_kind
Grows-note_kind k v f = Grows-if _ _ _ (Grows-push_kind k f) (Grows-refl f)

pub Grows-note_returning : (k : String) (v : Value) (f : Findings) → Grows f (note_returning k v f)
unfolding note_returning
Grows-note_returning k v f = Grows-if _ _ _ (Grows-set_returning f) (Grows-refl f)

pub Grows-visit : (k : String) (v : Value) (f : Findings) → Grows f (visit k v f)
unfolding visit
Grows-visit k v f =
    Grows-trans (Grows-note_key k v f)
      (Grows-trans (Grows-note_kind k v _) (Grows-note_returning k v _))

mutual
  unfolding walk

  Grows-walk_value : (v : Value) (f : Findings) → Grows f (walk v f)
  Grows-walk_value (obj fs) f =
      Grows-trans (Grows-note_relation fs f) (Grows-walk_fields fs (note_relation fs f))
  Grows-walk_value (arr vs) f = Grows-walk_items vs f
  Grows-walk_value _ f = Grows-refl f

  Grows-walk_items : (vs : Items) (f : Findings) → Grows f (walk_items vs f)
  Grows-walk_items nil f = Grows-refl f
  Grows-walk_items (cons v vs) f =
      Grows-trans (Grows-walk_value v f) (Grows-walk_items vs (walk v f))

  Grows-walk_fields : (fs : Fields) (f : Findings) → Grows f (walk_fields fs f)
  Grows-walk_fields end f = Grows-refl f
  Grows-walk_fields (field k v fs) f =
      Grows-trans
        (Grows-if (is_skipped k v) f (walk v (visit k v f)) (Grows-refl f)
          (Grows-trans (Grows-visit k v f) (Grows-walk_value v (visit k v f))))
        (Grows-walk_fields fs (if is_skipped k v then f else walk v (visit k v f)))

pub Grows-walk : (v : Value) (f : Findings) → Grows f (walk v f)
Grows-walk v f = Grows-walk_value v f

pub Grows-rest : (fs : Fields) (f : Findings) → Grows f (walk_fields fs f)
Grows-rest fs f = Grows-walk_fields fs f

pub Grows-items : (vs : Items) (f : Findings) → Grows f (walk_items vs f)
Grows-items vs f = Grows-walk_items vs f
