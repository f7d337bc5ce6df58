-- ===== src/Render.antt =====
-- The quoting of names and texts in SQL: `quote_ident` and `quote_literal` of
-- crates/ownpg-core/src/render.rs.
pub mod Quoted
pub mod Tests
use Prim.Native.Char.{Char, code}
use Prim.Native.String.{String, [], ◌∷◌, ◌++◌}
use ownpg.Base.{Bool, true, false, ◌||◌, eqb, if◌then◌else◌}

abbrev pub is : Char → Char → Bool
is c d = eqb (code d) (code c)

-- `text.replace(c, by)`
unfoldable pub replace : Char → String → String → String
replace c by [] = []
replace c by (d ∷ s) = let rest = replace c by s in if is c d then by ++ rest else d ∷ rest

-- `text.contains(c)`
unfoldable pub has_char : Char → String → Bool
has_char c [] = false
has_char c (d ∷ s) = is c d || has_char c s

abbrev pub double_quote : Char
double_quote = "\""

abbrev pub single_quote : Char
single_quote = "'"

abbrev pub backslash : Char
backslash = "\\"

-- The replacement of a character by two of it.
abbrev pub doubled : Char → String → String
doubled c s = replace c (c ∷ c ∷ []) s

unfoldable pub quote_ident : String → String
unfolding replace
quote_ident name = "\"" ++ (doubled double_quote name ++ "\"")

unfoldable pub quote_literal : String → String
unfolding replace has_char
quote_literal s =
    if has_char backslash s
    then "E'" ++ (doubled single_quote (doubled backslash s) ++ "'")
    else "'" ++ (doubled single_quote s ++ "'")
