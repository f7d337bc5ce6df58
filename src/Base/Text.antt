-- ===== src/Base/Text.antt =====
-- What the source uses of `str`: joining, splitting at a character, ASCII case, suffixes.
use Prim.Native.Nat.{ℕ}
use Prim.Native.Char.{Char, code}
use Prim.Native.String
use Prim.Native.String.{String, [], ◌∷◌}
use mathlib.Core.Bool.{Bool, true, ◌||◌}
use mathlib.Core.Option.{Option, none, some}
use mathlib.Core.List.{List}
use mathlib.Core.Path.{◌≡◌, refl}
use text.Mathlib.Text.{◌==◌}
use ownpg.Base.Tests.{eqb, if◌then◌else◌}

abbrev pub push : String → Char → String
push s c = String.◌++◌ s (c ∷ [])

-- `parts.join(separator)`
unfoldable pub join : String → List String → String
join sep List.[] = ""
join sep (List.◌∷◌ p List.[]) = p
join sep (List.◌∷◌ p (List.◌∷◌ q ps)) = String.◌++◌ p (String.◌++◌ sep (join sep (List.◌∷◌ q ps)))

unfoldable pub split_from : ℕ → String → String → List String
split_from at cur [] = List.◌∷◌ cur List.[]
split_from at cur (c ∷ s) =
    let closed = List.◌∷◌ cur (split_from at "" s) in
    let longer = split_from at (push cur c) s in if eqb (code c) at then closed else longer

-- `text.split(c)`, for the character with the code `at`
unfoldable pub split : ℕ → String → List String
unfolding split_from
split at s = split_from at "" s

-- One ASCII letter, by the two alphabets.
lower_by : String → String → Char → Char
lower_by [] _ c = c
lower_by (u ∷ us) [] c = c
lower_by (u ∷ us) (l ∷ ls) c = if eqb (code c) (code u) then l else lower_by us ls c

-- `text.to_ascii_lowercase()`
unfoldable pub to_ascii_lowercase : String → String
unfolding lower_by
to_ascii_lowercase [] = []
to_ascii_lowercase (c ∷ s) =
    lower_by "ABCDEFGHIJKLMNOPQRSTUVWXYZ" "abcdefghijklmnopqrstuvwxyz" c ∷ to_ascii_lowercase s

-- `text.ends_with(suffix)`
unfoldable pub ends_with : String → String → Bool
ends_with [] t = [] == t
ends_with (c ∷ s) t = (c ∷ s) == t || ends_with s t

lowered : to_ascii_lowercase "PG_Read1" ≡ "pg_read1"
unfolding to_ascii_lowercase
lowered = refl

split_three : split b'.' "a..c" ≡ List.◌∷◌ "a" (List.◌∷◌ "" (List.◌∷◌ "c" List.[]))
unfolding split
split_three = refl

suffix : ends_with "SelectStmt" "Stmt" ≡ true
unfolding ends_with
suffix = refl

-- `text.strip_prefix(prefix)`
unfoldable pub strip_prefix : String → String → Option String
strip_prefix [] s = some s
strip_prefix (c ∷ p) [] = none
strip_prefix (c ∷ p) (d ∷ s) =
    let rest = strip_prefix p s in if eqb (code d) (code c) then rest else none

abbrev put_first : Char → Option (String × String) → Option (String × String)
put_first c none = none
put_first c (some (before, rest)) = some (c ∷ before, rest)

abbrev first_split : Option String → Option (String × String) → Option (String × String)
first_split (some rest) later = some ([], rest)
first_split none later = later

-- `text.split_once(separator)`
unfoldable pub split_once : String → String → Option (String × String)
unfolding strip_prefix
split_once sep [] = first_split (strip_prefix sep []) none
split_once sep (c ∷ s) = first_split (strip_prefix sep (c ∷ s)) (put_first c (split_once sep s))

-- What stands after the last separator, if there is one.
unfoldable pub find_last : String → String → Option String
unfolding strip_prefix
find_last sep [] = strip_prefix sep []
find_last sep (c ∷ s) = elim (find_last sep s) [
  | some rest ↦ some rest
  | none ↦ strip_prefix sep (c ∷ s)
]
