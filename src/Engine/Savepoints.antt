-- ===== src/Engine/Savepoints.antt =====
-- The savepoints of a transaction handle: `check_savepoint` and `truncate_savepoints` of
-- crates/ownpg-core/src/engine.rs. Of a handle only the list of savepoints is read and changed.
pub mod Laws
pub mod Tests
use Prim.Native.String.{◌++◌ as str_append}
use ownpg.Base.{
  ℕ, zero, suc, String, Bool, true, false, Option, none, some, List, [], ◌∷◌, ◌==◌, any,
  if◌then◌else◌,
}
use ownpg.Errors.{Error, Result, ok, err, handle_state}

abbrev pub is_named : String → String → Bool
is_named name known = known == name

unfoldable pub check_savepoint : List String → String → String → Result (Unit {0})
check_savepoint savepoints id name =
    if any (is_named name) savepoints
    then ok tt
    else err (handle_state id (str_append "holding no savepoint named `" (str_append name "`")))

-- A later match goes before the one at the head.
abbrev pub position_before : Bool → Option ℕ → Option ℕ
position_before at_head (some later) = some (suc later)
position_before true none = some 0
position_before false none = none

-- `savepoints.iter().rposition(|known| known == name)`
unfoldable pub rposition : String → List String → Option ℕ
rposition name [] = none
rposition name (known ∷ rest) = position_before (is_named name known) (rposition name rest)

-- `savepoints.truncate(len)`
unfoldable pub truncate : ℕ → List String → List String
truncate zero savepoints = []
truncate (suc n) [] = []
truncate (suc n) (known ∷ rest) = known ∷ truncate n rest

unfoldable pub truncate_savepoints : List String → String → List String
unfolding rposition truncate
truncate_savepoints savepoints name = elim (rposition name savepoints) [
  | some position ↦ truncate (suc position) savepoints
  | none ↦ savepoints
]
