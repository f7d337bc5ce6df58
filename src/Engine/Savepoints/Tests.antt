-- ===== src/Engine/Savepoints/Tests.antt =====
-- Tests of the savepoints, with a name that is set twice.
use ownpg.Base.{String, ◌≡◌, refl, List, [], ◌∷◌}
use ownpg.Engine.Savepoints.{check_savepoint, rposition, truncate, truncate_savepoints}
use ownpg.Engine.Savepoints.Laws.{IsSplit, truncate_savepoints-IsSplit}

abbrev four : List String
four = "a" ∷ "b" ∷ "a" ∷ "c" ∷ []

back_to_a : truncate_savepoints four "a" ≡ "a" ∷ "b" ∷ "a" ∷ []
unfolding truncate_savepoints rposition truncate
back_to_a = refl

truncate_savepoints-IsSplit_example : IsSplit "b" four (truncate_savepoints four "b")
unfolding check_savepoint
truncate_savepoints-IsSplit_example = truncate_savepoints-IsSplit four "h1" "b" refl
