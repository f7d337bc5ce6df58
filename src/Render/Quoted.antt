-- ===== src/Render/Quoted.antt =====
-- What the database reads of a quoted text, which is all of it and nothing after it.
use Prim.Native.Char.{Char, code}
use Prim.Native.String.{String, [], ◌∷◌, ◌++◌, len}
use text.Mathlib.TextEquality.{Char-path}
use text.Mathlib.TextLemmas.{nil-append, append_assoc, cons-append}
use ownpg.Base.{
  ◌≡◌, refl, sym, ap, ◌∙◌, Bool, true, false, Option, none, some, arith, Bool-cases, if◌then◌else◌,
  inl, inr, ◌<◌, ◌≤◌, ltb, leb, eqb, ◌&&◌, ◌||◌, not,
}
use ownpg.Render.{
  is, replace, has_char, double_quote, single_quote, backslash, doubled, quote_ident, quote_literal,
}

-- What was read, and the input after it.
abbrev Read : Type 0
Read = Option (String × String)

abbrev and_char : Char → Read → Read
and_char c none = none
and_char c (some (s, rest)) = some (c ∷ s, rest)

-- The lexical rule of SQL for a text in quotes `q`: two quotes stand for one, and a single one
-- ends the text. The flag says that a quote came just before.
unfoldable pub read_quoted : Char → Bool → String → Read
read_quoted q false [] = none
read_quoted q true [] = some ([], [])
read_quoted q false (c ∷ s) =
    let ended = read_quoted q true s in
    let longer = and_char c (read_quoted q false s) in if is q c then ended else longer
read_quoted q true (c ∷ s) =
    let longer = and_char c (read_quoted q false s) in if is q c then longer else some ([], c ∷ s)

-- The input does not begin with a quote.
abbrev pub Parts : Char → String → Type 0
Parts q [] = Unit
Parts q (c ∷ s) = is q c ≡ false

is-eq : (c d : Char) → is c d ≡ true → d ≡ c
is-eq c d h = Char-path d c (ground arith)

is_refl : (c : Char) → is c c ≡ true
is_refl c = ground arith

two-append : (c d : Char) (s t : String) → ((c ∷ d ∷ []) ++ s) ++ t ≡ c ∷ d ∷ (s ++ t)
two-append c d s t =
    append_assoc (c ∷ d ∷ []) s t
    ∙ cons-append c (d ∷ []) (s ++ t)
    ∙ ap (λ (u : String). c ∷ u)
        (cons-append d [] (s ++ t) ∙ ap (λ (u : String). d ∷ u) (nil-append (s ++ t)))

read_quoted-end :
    (q : Char) (rest : String) → Parts q rest → read_quoted q true rest ≡ some ([], rest)
unfolding read_quoted
read_quoted-end q [] h = refl
read_quoted-end q (c ∷ s) h = rw h refl

read_quoted-doubled :
    (q : Char) (s rest : String)
    → Parts q rest
    → read_quoted q false (doubled q s ++ (q ∷ rest)) ≡ some (s, rest)
unfolding read_quoted replace
read_quoted-doubled q [] rest h = rw nil-append (rw (is_refl q) (read_quoted-end q rest h))
read_quoted-doubled q (c ∷ s) rest h = elim (Bool-cases (is q c)) [
  | inl e ↦ rw e (
      rw two-append (
        rw (is_refl q) (
          ap (and_char q) (read_quoted-doubled q s rest h)
          ∙ ap (λ (d : Char). some (d ∷ s, rest)) (sym (is-eq q c e)))))
  | inr n ↦ rw n (rw cons-append (rw n (ap (and_char c) (read_quoted-doubled q s rest h))))
]

two-cons : (c d : Char) (s : String) → (c ∷ d ∷ []) ++ s ≡ c ∷ d ∷ s
two-cons c d s =
    cons-append c (d ∷ []) s
    ∙ ap (λ (u : String). c ∷ u) (cons-append d [] s ∙ ap (λ (u : String). d ∷ u) (nil-append s))

one-append : (c : Char) (u : String) → (c ∷ []) ++ u ≡ c ∷ u
one-append c u = cons-append c [] u ∙ ap (λ (v : String). c ∷ v) (nil-append u)

wrap-append : (q : Char) (s t : String) → ((q ∷ []) ++ (s ++ (q ∷ []))) ++ t ≡ q ∷ (s ++ (q ∷ t))
wrap-append q s t =
    append_assoc (q ∷ []) (s ++ (q ∷ [])) t
    ∙ one-append q ((s ++ (q ∷ [])) ++ t)
    ∙ ap (λ (u : String). q ∷ u)
        (append_assoc s (q ∷ []) t ∙ ap (λ (u : String). s ++ u) (one-append q t))

-- The character NUL, which no text of the database holds.
unfoldable pub holds_nul : String → Bool
holds_nul [] = false
holds_nul (c ∷ s) = eqb (code c) 0 || holds_nul s

-- A name that the database takes as it is: not empty, at most 63 bytes and without NUL.
abbrev is_legal : String → Bool
is_legal name = ltb 0 (len name) && leb (len name) 63 && not (holds_nul name)

abbrev legal_name : Read → Read
legal_name none = none
legal_name (some (name, rest)) = if is_legal name then some (name, rest) else none

abbrev read_name : String → Read
read_name [] = none
read_name (c ∷ s) = if is double_quote c then read_quoted double_quote false s else none

-- A quoted identifier. An empty name is refused, a longer one is not read as it is.
unfoldable pub read_ident : String → Read
unfolding read_quoted holds_nul
read_ident s = legal_name (read_name s)

-- A name that is not empty, has at most 63 bytes and holds no NUL is read by the database from its
-- quoted form exactly as it is, and what follows it, which must not begin with a double quote, is
-- left.
pub read_ident-quote_ident :
    (name rest : String)
    → 0 < len name
    → len name ≤ 63
    → holds_nul name ≡ false
    → Parts double_quote rest
    → read_ident (quote_ident name ++ rest) ≡ some (name, rest)
unfolding quote_ident read_ident
read_ident-quote_ident name rest some_byte short clean h =
    ap (λ (t : String). legal_name (read_name t))
      (wrap-append double_quote (doubled double_quote name) rest)
    ∙ ap legal_name (read_quoted-doubled double_quote name rest h)
    ∙ ground arith

-- Where a text with escapes is read: a quote or a backslash may have come just before.
pub data Lexer : Type 0 where
  inside after_quote after_backslash : Lexer

-- The lexical rule of PostgreSQL for E'...'. The escapes that it reads are those of a backslash and
-- of a quote; a text with another escape is not read here.
unfoldable pub read_escaped : Lexer → String → Read
read_escaped inside [] = none
read_escaped after_backslash [] = none
read_escaped after_quote [] = some ([], [])
read_escaped inside (c ∷ s) =
    let ended = read_escaped after_quote s in
    let escaped = read_escaped after_backslash s in
    let longer = and_char c (read_escaped inside s) in
    if is single_quote c then ended else if is backslash c then escaped else longer
read_escaped after_quote (c ∷ s) =
    let longer = and_char c (read_escaped inside s) in
    if is single_quote c then longer else some ([], c ∷ s)
read_escaped after_backslash (c ∷ s) =
    let longer = and_char c (read_escaped inside s) in
    if is backslash c then longer else if is single_quote c then longer else none

read_escaped-end :
    (rest : String) → Parts single_quote rest → read_escaped after_quote rest ≡ some ([], rest)
unfolding read_escaped
read_escaped-end [] h = refl
read_escaped-end (c ∷ s) h = rw h refl

read_escaped-doubled :
    (s rest : String)
    → Parts single_quote rest
    → read_escaped inside (doubled single_quote (doubled backslash s) ++ (single_quote ∷ rest))
      ≡ some (s, rest)
unfolding read_escaped replace
read_escaped-doubled [] rest h = rw nil-append (read_escaped-end rest h)
read_escaped-doubled (c ∷ s) rest h = elim (Bool-cases (is backslash c)) [
  | inl e ↦ rw e (
      rw two-cons (
        rw cons-append (
          rw cons-append (
            ap (and_char backslash) (read_escaped-doubled s rest h)
            ∙ ap (λ (d : Char). some (d ∷ s, rest)) (sym (is-eq backslash c e))))))
  | inr n ↦ elim (Bool-cases (is single_quote c)) [
    | inl e ↦ rw n (
        rw e (
          rw two-append (
            ap (and_char single_quote) (read_escaped-doubled s rest h)
            ∙ ap (λ (d : Char). some (d ∷ s, rest)) (sym (is-eq single_quote c e)))))
    | inr m ↦
        rw n (rw m (rw cons-append (rw m (rw n (ap (and_char c) (read_escaped-doubled s rest h))))))
  ]
]

no_backslash : (s : String) → has_char backslash s ≡ false → doubled backslash s ≡ s
unfolding has_char replace
no_backslash [] h = refl
no_backslash (c ∷ s) h = elim (Bool-cases (is backslash c)) [
  | inl e ↦ absurd (true-ne-false (rw e at h))
  | inr n ↦ rw n (ap (λ (t : String). c ∷ t) (no_backslash s (rw n at h)))
]
  where
    true-ne-false : true ≡ false → ⊥
    true-ne-false e = cc

abbrev read_e : String → Read
read_e [] = none
read_e (c ∷ s) = if is single_quote c then read_escaped inside s else none

-- Between a literal and what may go on with it: whitespace, where a new line was seen or not, the
-- first dash of a comment, or a comment.
pub data Gap : Type 0 where
  gap : Bool → Gap
  dash : Bool → Gap
  comment : Gap

abbrev is_new_line : Char → Bool
is_new_line c = eqb (code c) 10 || eqb (code c) 13

abbrev is_blank : Char → Bool
is_blank c = eqb (code c) 32 || eqb (code c) 9 || eqb (code c) 11 || eqb (code c) 12

-- The literal goes on in another one: there is a quote after whitespace and comments that hold a
-- new line.
unfoldable pub goes_on : Gap → String → Bool
goes_on state [] = false
goes_on (gap seen) (c ∷ s) =
    let after_new_line = goes_on (gap true) s in
    let after_blank = goes_on (gap seen) s in
    let after_dash = goes_on (dash seen) s in
    if is single_quote c
    then seen
    else if is_new_line c
    then after_new_line
    else if is_blank c
    then after_blank
    else if is "-" c
    then after_dash
    else false
goes_on (dash seen) (c ∷ s) = let within = goes_on comment s in if is "-" c then within else false
goes_on comment (c ∷ s) =
    let after_new_line = goes_on (gap true) s in
    let within = goes_on comment s in if is_new_line c then after_new_line else within

abbrev whole : Read → Read
whole none = none
whole (some (s, rest)) = if goes_on (gap false) rest || holds_nul s then none else some (s, rest)

abbrev read_first : Bool → String → Read
read_first escapes [] = none
read_first escapes (c ∷ s) =
    if is single_quote c
    then (if escapes then read_escaped inside s else read_quoted single_quote false s)
    else if is "E" c
    then read_e s
    else none

-- A literal. The flag is the setting of the database under which a backslash is an escape also
-- without the E (`standard_conforming_strings` off). A literal that goes on in another one, and one
-- with NUL, is not read here.
unfoldable pub read_literal : Bool → String → Read
unfolding read_escaped read_quoted goes_on holds_nul
read_literal escapes s = whole (read_first escapes s)

escaped-append :
    (s t : String) → ("E'" ++ (s ++ "'")) ++ t ≡ "E" ∷ single_quote ∷ (s ++ (single_quote ∷ t))
escaped-append s t =
    append_assoc "E'" (s ++ "'") t
    ∙ two-cons "E" single_quote ((s ++ "'") ++ t)
    ∙ ap (λ (u : String). "E" ∷ single_quote ∷ u)
        (append_assoc s "'" t ∙ ap (λ (u : String). s ++ u) (one-append single_quote t))

module _ (escapes : Bool) (s rest : String) (h : Parts single_quote rest) where
  read_first-quote_literal : read_first escapes (quote_literal s ++ rest) ≡ some (s, rest)
  unfolding quote_literal
  read_first-quote_literal = elim (Bool-cases (has_char backslash s)) [
    | inl has ↦ rw has (
        ap (read_first escapes) (escaped-append (doubled single_quote (doubled backslash s)) rest)
        ∙ read_escaped-doubled s rest h)
    | inr lacks ↦ rw lacks (
        ap (read_first escapes) (wrap-append single_quote (doubled single_quote s) rest)
        ∙ either escapes lacks)
  ]
    where
      either :
          (b : Bool)
          → has_char backslash s ≡ false
          → (if b
              then read_escaped inside (doubled single_quote s ++ (single_quote ∷ rest))
              else read_quoted single_quote false (doubled single_quote s ++ (single_quote ∷ rest)))
            ≡ some (s, rest)
      either false lacks = read_quoted-doubled single_quote s rest h
      either true lacks =
          ap (λ (t : String). read_escaped inside (doubled single_quote t ++ (single_quote ∷ rest)))
            (sym (no_backslash s lacks))
          ∙ read_escaped-doubled s rest h

-- A text without NUL is read by the database from its quoted form exactly as it is, whether it takes
-- a backslash for an escape or not, and what follows it is left. What follows must neither begin
-- with a quote nor go on with the literal, by a quote after whitespace or comments with a new line.
pub read_literal-quote_literal :
    (escapes : Bool) (s rest : String)
    → holds_nul s ≡ false
    → Parts single_quote rest
    → goes_on (gap false) rest ≡ false
    → read_literal escapes (quote_literal s ++ rest) ≡ some (s, rest)
unfolding read_literal
read_literal-quote_literal escapes s rest clean h last =
    ap whole (read_first-quote_literal escapes s rest h) ∙ rw (last, clean) refl
