-- ===== src/Render/Tests.antt =====
-- Tests of the quoting, on texts that try to leave their quotes.
use Prim.Native.String.{◌++◌}
use ownpg.Base.{◌≡◌, refl, true, false, some, arith}
use ownpg.Render.{replace, has_char, quote_ident, quote_literal}
use ownpg.Render.Quoted.{
  holds_nul, gap, goes_on, read_ident, read_literal, read_ident-quote_ident,
  read_literal-quote_literal,
}

ident : quote_ident "a\"b" ≡ "\"a\"\"b\""
unfolding quote_ident replace
ident = refl

literal : quote_literal "it's \\" ≡ "E'it''s \\\\'"
unfolding quote_literal replace has_char
literal = refl

read_ident-quote_ident_example :
    read_ident (quote_ident "x\"; DROP" ++ " WHERE") ≡ some ("x\"; DROP", " WHERE")
unfolding holds_nul
read_ident-quote_ident_example =
    read_ident-quote_ident "x\"; DROP" " WHERE" (omega arith) (omega arith) refl refl

read_literal-quote_literal_example :
    read_literal true (quote_literal "a\\'b" ++ ")") ≡ some ("a\\'b", ")")
unfolding holds_nul goes_on
read_literal-quote_literal_example = read_literal-quote_literal true "a\\'b" ")" refl refl refl

-- A quote on the next line goes on with the literal; a comma does not.
next_line : goes_on (gap false) " -- note\n'x'" ≡ true
unfolding goes_on
next_line = refl

next_value : goes_on (gap false) ",\n'x'" ≡ false
unfolding goes_on
next_value = refl
