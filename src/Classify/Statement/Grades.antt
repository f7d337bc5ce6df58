-- ===== src/Classify/Statement/Grades.antt =====
-- Grading only strengthens: a class never falls and a refusal is never dropped, but for the one
-- step of an EXPLAIN that does not run its statement.
use ownpg.Base.{
  ◌≤◌, String, ◌≡◌, refl, Bool, true, false, List, [], ◌∷◌, arith, ◌⊎◌, inl, inr, In,
  In-append_left, In-append_right, contains, if◌then◌else◌, if-keeps,
}
use ownpg.Json.{Value}
use ownpg.Classify.Kinds.{
  StatementClass, Verdict, read, write, class, refuse, class_of, max, rank, denied_functions,
}
use ownpg.Classify.Walk.{CopyDetails, Findings}
use ownpg.Classify.Cascade.{Targets, found, unchecked, cascade_targets}
use ownpg.Classify.Statement.{
  Grade, raise, forbid, grade_verdict, grade_kind, grade_kinds, explain_verdict, explain_analyzes,
  explained_kind, grade_explain, denied_rule, bare_lower, grade_function, grade_functions,
  grade_copy, grade_copies, grade_targets, grade_locking, is_explain, start, grade,
}

pub record Rises (g h : Grade) : Type 0 where
  pub class : rank g.strongest ≤ rank h.strongest
  pub refusals : (rule : String) → In rule g.refusals → In rule h.refusals

pub Rises-refl : (g : Grade) → Rises g g
Rises-refl g = record { class = omega arith; refusals = λ rule h. h }

pub Rises-trans : {f g h : Grade} → Rises f g → Rises g h → Rises f h
Rises-trans p q = record {
  class = omega (arith, p.class, q.class);
  refusals = λ rule m. q.refusals rule (p.refusals rule m);
}

max-rank_left : (a b : StatementClass) → rank a ≤ rank (max a b)
unfolding max
max-rank_left a b = ground arith

pub max-rank_right : (a b : StatementClass) → rank b ≤ rank (max a b)
unfolding max
max-rank_right a b = ground arith

Rises-raise : (c : StatementClass) (g : Grade) → Rises g (raise c g)
unfolding raise
Rises-raise c g = record { class = max-rank_left g.strongest c; refusals = λ rule h. h }

pub Rises-forbid : (rule : String) (g : Grade) → Rises g (forbid rule g)
unfolding forbid
Rises-forbid rule g = record {
  class = omega arith;
  refusals = λ r h. In-append_left r g.refusals (rule ∷ []) h;
}

pub In-forbid : (rule : String) (g : Grade) → In rule (forbid rule g).refusals
unfolding forbid
In-forbid rule g = In-append_right rule g.refusals (rule ∷ []) (inl refl)

Rises-if :
    {g : Grade} (b : Bool) (x y : Grade) → Rises g x → Rises g y → Rises g (if b then x else y)
Rises-if {g} b x y p q = if-keeps (Rises g) b (λ _. p) (λ _. q)

Rises-grade_verdict : (v : Verdict) (g : Grade) → Rises g (grade_verdict v g)
unfolding grade_verdict
Rises-grade_verdict (class c) g = Rises-raise c g
Rises-grade_verdict (refuse rule) g = Rises-forbid rule g

Rises-grade_kind : (k : String) (g : Grade) → Rises g (grade_kind k g)
unfolding grade_kind
Rises-grade_kind k g = Rises-grade_verdict (class_of k) g

pub Rises-grade_kinds : (ks : List String) (g : Grade) → Rises g (grade_kinds ks g)
unfolding grade_kinds
Rises-grade_kinds [] g = Rises-refl g
Rises-grade_kinds (k ∷ ks) g =
    Rises-trans (Rises-grade_kind k g) (Rises-grade_kinds ks (grade_kind k g))

Rises-grade_function : (n : String) (g : Grade) → Rises g (grade_function n g)
unfolding grade_function
Rises-grade_function n g = search (Rises-refl, Rises-if, Rises-raise, Rises-forbid) depth 8

Rises-grade_functions : (ns : List String) (g : Grade) → Rises g (grade_functions ns g)
unfolding grade_functions
Rises-grade_functions [] g = Rises-refl g
Rises-grade_functions (n ∷ ns) g =
    Rises-trans (Rises-grade_function n g) (Rises-grade_functions ns (grade_function n g))

Rises-from : (copy : CopyDetails) (g : Grade) → Rises g (if copy.is_from then raise write g else g)
Rises-from copy g = Rises-if copy.is_from (raise write g) g (Rises-raise write g) (Rises-refl g)

Rises-from_forbid :
    (rule : String) (copy : CopyDetails) (g : Grade)
    → Rises g (forbid rule (if copy.is_from then raise write g else g))
Rises-from_forbid rule copy g = Rises-trans (Rises-from copy g) (Rises-forbid rule _)

Rises-grade_copy : (c : CopyDetails) (g : Grade) → Rises g (grade_copy c g)
unfolding grade_copy
Rises-grade_copy copy g = search (Rises-if, Rises-from, Rises-from_forbid) depth 8

Rises-grade_copies : (cs : List CopyDetails) (g : Grade) → Rises g (grade_copies cs g)
unfolding grade_copies
Rises-grade_copies [] g = Rises-refl g
Rises-grade_copies (c ∷ cs) g =
    Rises-trans (Rises-grade_copy c g) (Rises-grade_copies cs (grade_copy c g))

Rises-grade_targets : (t : Targets) (g : Grade) → Rises g (grade_targets t g)
unfolding grade_targets
Rises-grade_targets (found targets) g = Rises-refl g
Rises-grade_targets (unchecked rule) g = Rises-forbid rule g

Rises-grade_locking :
    (kind : String) (body : Value) (g : Grade) → Rises g (grade_locking kind body g)
unfolding grade_locking
Rises-grade_locking kind body g = search (Rises-refl, Rises-if, Rises-raise) depth 8

-- The branch of an EXPLAIN drops no refusal, and with ANALYZE it does not lower the class.
verdict_refusals :
    (v : Verdict) (b : Bool) (g : Grade) (rule : String)
    → In rule g.refusals
    → In rule (explain_verdict v b g).refusals
unfolding explain_verdict
verdict_refusals (class c) true g rule h = h
verdict_refusals (class c) false g rule h = h
verdict_refusals (refuse r) true g rule h = (Rises-forbid r g).refusals rule h
verdict_refusals (refuse r) false g rule h = (Rises-forbid r g).refusals rule h

Rises-explain_verdict : (v : Verdict) (g : Grade) → Rises g (explain_verdict v true g)
unfolding explain_verdict
Rises-explain_verdict (class c) g = Rises-raise c g
Rises-explain_verdict (refuse rule) g = Rises-trans (Rises-forbid rule g) (Rises-raise read _)

-- What the statement's kinds established stands in the final grade: every refusal, and the class
-- unless the statement is an EXPLAIN that does not run what it explains.
abbrev pub Executes : String → Value → Type 0
Executes kind body = (is_explain kind ≡ false) ⊎ (explain_analyzes body ≡ true)

explained : String → Value → Grade → Grade
explained kind body g = if is_explain kind then grade_explain body g else g

explained_refusals :
    (kind : String) (body : Value) (g : Grade) (rule : String)
    → In rule g.refusals
    → In rule (explained kind body g).refusals
unfolding explained grade_explain
explained_refusals kind body g rule h =
    if-keeps {A = Grade} (λ h. In rule h.refusals) (is_explain kind)
      (λ _. verdict_refusals (class_of (explained_kind body)) (explain_analyzes body) g rule h)
      (λ _. h)

Rises-explained :
    (kind : String) (body : Value) (g : Grade)
    → Executes kind body
    → Rises g (explained kind body g)
unfolding explained grade_explain
Rises-explained kind body g (inl plain) = rw plain (Rises-refl g)
Rises-explained kind body g (inr runs) =
    if-keeps (Rises g) (is_explain kind)
      (λ _. rw runs (Rises-explain_verdict (class_of (explained_kind body)) g)) (λ _. Rises-refl g)

-- What follows the branch of the EXPLAIN.
Rises-rest :
    (kind : String) (body : Value) (f : Findings)
    → Rises
        (grade_functions f.functions (explained kind body (grade_kinds f.statement_kinds start)))
        (grade kind body f)
unfolding grade explained
Rises-rest kind body f =
    let called =
      grade_functions f.functions (explained kind body (grade_kinds f.statement_kinds start)) in
    let locked = grade_locking kind body called in
    Rises-trans (Rises-grade_locking kind body called) (
      Rises-trans (Rises-grade_targets (cascade_targets kind body) locked)
        (Rises-grade_copies f.copies (grade_targets (cascade_targets kind body) locked)))

pub Rises-kinds :
    (kind : String) (body : Value) (f : Findings)
    → Executes kind body
    → Rises (grade_kinds f.statement_kinds start) (grade kind body f)
Rises-kinds kind body f runs =
    Rises-trans (Rises-explained kind body (grade_kinds f.statement_kinds start) runs)
      (Rises-trans (Rises-grade_functions f.functions _) (Rises-rest kind body f))

pub kinds-refusals :
    (kind : String) (body : Value) (f : Findings) (rule : String)
    → In rule (grade_kinds f.statement_kinds start).refusals
    → In rule (grade kind body f).refusals
kinds-refusals kind body f rule h =
    (Rises-trans (Rises-grade_functions f.functions _) (Rises-rest kind body f)).refusals rule
      (explained_refusals kind body (grade_kinds f.statement_kinds start) rule h)

-- A graded kind has its class below the strongest, or its rule among the refusals.
abbrev pub IsGraded : Verdict → Grade → Type 0
IsGraded (class c) g = rank c ≤ rank g.strongest
IsGraded (refuse rule) g = In rule g.refusals

pub IsGraded-Rises : (v : Verdict) {g h : Grade} → Rises g h → IsGraded v g → IsGraded v h
IsGraded-Rises (class c) r p = omega (arith, r.class)
IsGraded-Rises (refuse rule) r p = r.refusals rule p

verdict-IsGraded : (v : Verdict) (g : Grade) → IsGraded v (grade_verdict v g)
unfolding grade_verdict raise
verdict-IsGraded (class c) g = max-rank_right g.strongest c
verdict-IsGraded (refuse rule) g = In-forbid rule g

pub kinds-IsGraded :
    (ks : List String) (k : String) (g : Grade) → In k ks → IsGraded (class_of k) (grade_kinds ks g)
unfolding grade_kinds grade_kind
kinds-IsGraded [] k g h = absurd h
kinds-IsGraded (j ∷ ks) k g (inl e) = rw e (
    IsGraded-Rises (class_of j) (Rises-grade_kinds ks (grade_kind j g))
      (verdict-IsGraded (class_of j) g))
kinds-IsGraded (j ∷ ks) k g (inr h) = kinds-IsGraded ks k (grade_kind j g) h

-- A function that reaches outside the database is among the refusals.
In-grade_function :
    (n : String) (g : Grade)
    → contains denied_functions (bare_lower n) ≡ true
    → In (denied_rule (bare_lower n)) (grade_function n g).refusals
unfolding grade_function
In-grade_function n g e = rw e (In-forbid (denied_rule (bare_lower n)) g)

In-grade_functions :
    (ns : List String) (n : String) (g : Grade)
    → In n ns
    → contains denied_functions (bare_lower n) ≡ true
    → In (denied_rule (bare_lower n)) (grade_functions ns g).refusals
unfolding grade_functions
In-grade_functions [] n g h e = absurd h
In-grade_functions (m ∷ ns) n g (inl same) e =
    (Rises-grade_functions ns (grade_function m g)).refusals (denied_rule (bare_lower n))
      (rw (← same) (In-grade_function n g e))
In-grade_functions (m ∷ ns) n g (inr h) e = In-grade_functions ns n (grade_function m g) h e

pub functions-refusals :
    (kind : String) (body : Value) (f : Findings) (n : String)
    → In n f.functions
    → contains denied_functions (bare_lower n) ≡ true
    → In (denied_rule (bare_lower n)) (grade kind body f).refusals
functions-refusals kind body f n h e =
    (Rises-rest kind body f).refusals (denied_rule (bare_lower n))
      (In-grade_functions f.functions n _ h e)
