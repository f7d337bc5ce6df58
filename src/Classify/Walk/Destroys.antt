-- ===== src/Classify/Walk/Destroys.antt =====
-- What the walk finds of a statement that destroys: the reason why.
use ownpg.Base.{String, ◌≡◌, refl, ◌≢◌, true, none, some, [], ◌∷◌, ◌⊎◌, inl, inr, In, arith, ◌∙◌}
use ownpg.Json.{Value, null, get, array_at, pointer}
use ownpg.Classify.Rows.{
  where_is_absent_or_constant, matches_every_row, every_row_step, constant_step,
}
use ownpg.Classify.Rows.Fuel.{matches_every_row-step}
use ownpg.Classify.Walk.{Findings, note_destructive, note_drop, note_names, note_statement, walk}
use ownpg.Classify.Walk.Grows.{note_destructive-reason, Grows-push_objects, Grows-set_outside}
use ownpg.Classify.Walk.Visits.{Visits, walk-visited}
use ownpg.Classify.Walk.Finds.{after_statement}

-- A WHERE clause that narrows nothing: none at all, or a constant.
abbrev pub IsUnnarrowed : Value → Type 0
IsUnnarrowed c =
    (get "where_clause" c ≡ none)
    ⊎ (get "where_clause" c ≡ some null)
    ⊎ ((clause constant : Value) × (get "where_clause" c ≡ some clause)
        × (pointer ("node" ∷ "AConst" ∷ []) clause ≡ some constant))

constant-every_row :
    (clause constant : Value)
    → pointer ("node" ∷ "AConst" ∷ []) clause ≡ some constant
    → matches_every_row clause ≡ true
unfolding every_row_step constant_step
constant-every_row clause constant e =
    let (is_constant, every) = matches_every_row-step clause in every ∙ rw is_constant (rw e refl)

IsUnnarrowed-where : (c : Value) → IsUnnarrowed c → where_is_absent_or_constant c ≡ true
unfolding where_is_absent_or_constant
IsUnnarrowed-where c (inl absent) = rw absent refl
IsUnnarrowed-where c (inr (inl no_clause)) = rw no_clause refl
IsUnnarrowed-where c (inr (inr (clause, constant, e, is_constant))) =
    rw e (rw (constant-every_row clause constant is_constant) (ground arith))

-- Statements that destroy: the kinds that always do, and a DELETE or an UPDATE whose WHERE clause
-- is absent or a constant.
abbrev pub Destroys : String → Value → Type 0
Destroys k c =
    In k (
      "DropStmt" ∷ "TruncateStmt" ∷ "DropdbStmt" ∷ "DropRoleStmt" ∷ "DropOwnedStmt"
      ∷ "ReassignOwnedStmt" ∷ [])
    ⊎ (In k ("DeleteStmt" ∷ "UpdateStmt" ∷ []) × IsUnnarrowed c)

drop-reason : (c : Value) (f : Findings) → (note_drop c f).destructive_reason ≢ none
unfolding note_drop
drop-reason c f =
    (Grows-push_objects (array_at "objects" c) (note_destructive "DROP removes an object" f)).reason
      (note_destructive-reason "DROP removes an object" f)

statement-reason :
    (k : String) (c : Value) (f : Findings)
    → Destroys k c
    → (note_statement k c f).destructive_reason ≢ none
unfolding note_statement
statement-reason k c f (inl (inl e)) = rw e (drop-reason c f)
statement-reason k c f (inl (inr (inl e))) = rw e (note_destructive-reason _ f)
statement-reason k c f (inl (inr (inr (inl e)))) =
    rw e ((Grows-set_outside _).reason (note_destructive-reason _ f))
statement-reason k c f (inl (inr (inr (inr (inl e))))) = rw e (note_destructive-reason _ f)
statement-reason k c f (inl (inr (inr (inr (inr (inl e)))))) = rw e (note_destructive-reason _ f)
statement-reason k c f (inl (inr (inr (inr (inr (inr (inl e))))))) =
    rw e (note_destructive-reason _ f)
statement-reason k c f (inl (inr (inr (inr (inr (inr (inr x))))))) = absurd x
statement-reason k c f (inr (inl e, every)) =
    rw (e, IsUnnarrowed-where c every) (note_destructive-reason _ f)
statement-reason k c f (inr (inr (inl e), every)) =
    rw (e, IsUnnarrowed-where c every) (note_destructive-reason _ f)
statement-reason k c f (inr (inr (inr x), every)) = absurd x

-- A visited statement that destroys leaves a reason.
pub walk-reason :
    (k : String) (c tree : Value) (f : Findings)
    → Visits k c tree
    → Destroys k c
    → (walk tree f).destructive_reason ≢ none
walk-reason k c tree f h d =
    walk-visited (λ g. g.destructive_reason ≢ none) (λ f g grows. grows.reason) k c
      (λ g. (after_statement k c g).reason (statement-reason k c (note_names k c g) d)) tree f h
