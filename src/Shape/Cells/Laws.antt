-- ===== src/Shape/Cells/Laws.antt =====
-- What the shaping of a cell guarantees: its size, and that escaping can be undone.
use Prim.Native.Nat.{ℕ, ◌+◌, ◌-◌, ◌≤◌, ◌<◌}
use Prim.Native.Char.{Char, code}
use Prim.Native.String.{String, [], ◌∷◌, ◌++◌, len}
use mathlib.Core.Bool.{Bool, true, false}
use mathlib.Core.Path.{◌≡◌, refl, sym, ◌∙◌, ap, subst}
use mathlib.Core.Logic.{◌≢◌, ◌⊎◌, ◌↔◌, inl, inr}
use mathlib.Core.List.{List}
use native.Mathlib.Omega.{arith}
use text.Mathlib.TextPositions.{len-append}
use text.Mathlib.TextEquality.{Char-path}
use text.Mathlib.TextLemmas.{nil-append, append_assoc}
use ownpg.Base.{ltb, leb, eqb, if◌then◌else◌, Bool-cases}
use ownpg.Shape.Cells.{is_invisible, sanitize, escape_char, escape_cell, take_fitting, cut_cell}

take_fitting-len :
    (cap taken : ℕ) (gs : List String)
    → taken ≤ cap - 3
    → taken + len (take_fitting len cap taken gs) ≤ cap - 3
unfolding take_fitting
take_fitting-len cap taken List.[] h = omega arith
take_fitting-len cap taken (List.◌∷◌ g gs) h = elim (Bool-cases (ltb (cap - 3) (taken + len g))) [
  | inl full ↦ rw full (omega arith)
  | inr fits ↦ rw fits (rw len-append (ground (arith, take_fitting-len cap (taken + len g) gs)))
]

-- A cut cell holds at most `cap` bytes, the three dots included, if the cap leaves room for them.
pub len-cut_cell :
    (graphemes : String → List String) (text : String) (cap : ℕ)
    → 3 ≤ cap
    → len (cut_cell graphemes text cap) ≤ cap
unfolding cut_cell
len-cut_cell graphemes text cap room = elim (Bool-cases (leb (len text) cap)) [
  | inl short ↦ rw short (ground arith)
  | inr long ↦
      rw long (rw len-append (omega (arith, take_fitting-len cap 0 (graphemes text) (omega arith))))
]

-- The texts of a list, one after the other.
unfoldable pub concat : List String → String
concat List.[] = []
concat (List.◌∷◌ g gs) = g ++ concat gs

take_fitting-prefix :
    (size : String → ℕ) (cap taken : ℕ) (gs : List String)
    → (rest : String) × (concat gs ≡ take_fitting size cap taken gs ++ rest)
unfolding concat take_fitting
take_fitting-prefix size cap taken List.[] = ([], rw nil-append)
take_fitting-prefix size cap taken (List.◌∷◌ g gs) =
    let (rest, e) = take_fitting-prefix size cap (taken + size g) gs in
    elim (Bool-cases (ltb (cap - 3) (taken + size g))) [
      | inl full ↦ (g ++ concat gs, rw full (rw nil-append))
      | inr fits ↦ (rest, rw fits (rw append_assoc (ap (λ (t : String). g ++ t) e)))
    ]

not-leb : (a b : ℕ) → b < a → leb a b ≡ false
not-leb a b h = ground arith

-- A cell longer than the cap is cut only at its end: what stays, less the three dots, is a beginning
-- of the text. The graphemes are assumed to make up the text.
pub cut_cell-prefix :
    (graphemes : String → List String) (text : String) (cap : ℕ)
    → concat (graphemes text) ≡ text
    → cap < len text
    → (start rest : String) × (cut_cell graphemes text cap ≡ start ++ "...")
      × (text ≡ start ++ rest)
unfolding cut_cell
cut_cell-prefix graphemes text cap whole long =
    let (rest, e) = take_fitting-prefix len cap 0 (graphemes text) in
    (take_fitting len cap 0 (graphemes text), rest, rw (not-leb (len text) cap long), sym whole ∙ e)

-- A reader's view of an escaped cell: the state says whether a backslash came before.
decode : Char → Char
decode c =
    if eqb (code c) b't'
    then "\t"
    else if eqb (code c) b'n'
    then "\n"
    else if eqb (code c) b'r'
    then "\r"
    else c

unfoldable pub unescape : Bool → String → String
unfolding decode
unescape pending [] = []
unescape true (c ∷ s) = decode c ∷ unescape false s
unescape false (c ∷ s) =
    let escaped = unescape true s in
    let plain = c ∷ unescape false s in if eqb (code c) 92 then escaped else plain

is-char : (c d : Char) → eqb (code c) (code d) ≡ true → d ≡ c
is-char c d h = sym (Char-path c d (ground arith))

unescape-escape_char :
    (c : Char) (t : String) → unescape false (escape_char c t) ≡ c ∷ unescape false t
unfolding unescape escape_char
unescape-escape_char c t = elim (Bool-cases (eqb (code c) 92)) [
  | inl e ↦ rw e (ap (λ (d : Char). d ∷ unescape false t) (is-char c "\\" e))
  | inr n ↦ elim (Bool-cases (eqb (code c) 9)) [
    | inl e ↦ rw (n, e) (ap (λ (d : Char). d ∷ unescape false t) (is-char c "\t" e))
    | inr n' ↦ elim (Bool-cases (eqb (code c) 10)) [
      | inl e ↦ rw (n, n', e) (ap (λ (d : Char). d ∷ unescape false t) (is-char c "\n" e))
      | inr m ↦ elim (Bool-cases (eqb (code c) 13)) [
        | inl e ↦ rw (n, n', m, e) (ap (λ (d : Char). d ∷ unescape false t) (is-char c "\r" e))
        | inr m' ↦ rw (n, n', m, m') (rw n refl)
      ]
    ]
  ]
]

-- Escaping loses nothing: a reader gets the cell back.
pub unescape-escape_cell : (s : String) → unescape false (escape_cell s) ≡ s
unfolding escape_cell
unescape-escape_cell [] = unfold unescape in refl
unescape-escape_cell (c ∷ s) =
    unescape-escape_char c (escape_cell s) ∙ ap (λ (t : String). c ∷ t) (unescape-escape_cell s)

-- No tab, line feed or carriage return.
abbrev pub IsOneField : String → Type 0
IsOneField [] = Unit
IsOneField (c ∷ s) = (code c ≢ 9) × (code c ≢ 10) × (code c ≢ 13) × IsOneField s

escape_char-IsOneField : (c : Char) (t : String) → IsOneField t → IsOneField (escape_char c t)
unfolding escape_char
escape_char-IsOneField c t h = ground arith

-- An escaped cell cannot break its row: it holds no tab, line feed or carriage return.
pub escape_cell-IsOneField : (s : String) → IsOneField (escape_cell s)
unfolding escape_cell
escape_cell-IsOneField [] = tt
escape_cell-IsOneField (c ∷ s) = escape_char-IsOneField c (escape_cell s) (escape_cell-IsOneField s)

-- Outside a range of codes.
abbrev pub IsOutside : ℕ → ℕ → ℕ → Type 0
IsOutside lo hi c = (c < lo) ⊎ (hi < c)

-- A character that is shown: no control character but tab, line feed and carriage return, and none
-- that only formats, joins or fills.
pub record IsShown (c : ℕ) : Type 0 where
  pub control : IsOutside 0x0 0x8 c
  pub vertical : IsOutside 0xb 0xc c
  pub shift : IsOutside 0xe 0x1f c
  pub delete : IsOutside 0x7f 0x9f c
  pub soft_hyphen : c ≢ 0xad
  pub grapheme_joiner : c ≢ 0x34f
  pub arabic_mark : c ≢ 0x61c
  pub hangul_filler : IsOutside 0x115f 0x1160 c
  pub mongolian_separator : c ≢ 0x180e
  pub zero_width : IsOutside 0x200b 0x200f c
  pub bidi : IsOutside 0x2028 0x202e c
  pub invisible_operator : IsOutside 0x2060 0x206f c
  pub filler : c ≢ 0x3164
  pub byte_order_mark : c ≢ 0xfeff
  pub variation : IsOutside 0xfe00 0xfe0f c
  pub halfwidth_filler : c ≢ 0xffa0
  pub annotation : IsOutside 0xfff9 0xfffb c
  pub tag : IsOutside 0xe0000 0xe007f c
  pub variation_supplement : IsOutside 0xe0100 0xe01ef c

abbrev pub IsVisible : String → Type 0
IsVisible [] = Unit
IsVisible (c ∷ s) = IsShown (code c) × IsVisible s

is_invisible-IsShown : (c : ℕ) → is_invisible c ≡ false → IsShown c
unfolding is_invisible
is_invisible-IsShown c h = ground arith

IsShown-is_invisible : (c : ℕ) → IsShown c → is_invisible c ≡ false
unfolding is_invisible
IsShown-is_invisible c h = ground arith

sanitize-IsVisible : (s : String) → IsVisible (sanitize s)
unfolding sanitize
sanitize-IsVisible [] = tt
sanitize-IsVisible (c ∷ s) = elim (Bool-cases (is_invisible (code c))) [
  | inl hidden ↦ rw hidden (sanitize-IsVisible s)
  | inr shown ↦ rw shown (is_invisible-IsShown (code c) shown, sanitize-IsVisible s)
]

sanitize_of_IsVisible : (s : String) → IsVisible s → sanitize s ≡ s
unfolding sanitize
sanitize_of_IsVisible [] h = refl
sanitize_of_IsVisible (c ∷ s) (shown, h) =
    rw (IsShown-is_invisible (code c) shown)
      (ap (λ (t : String). c ∷ t) (sanitize_of_IsVisible s h))

-- Sanitizing leaves only shown characters, changes nothing exactly in a text of shown characters,
-- and a second pass changes nothing.
pub sanitize-sanitize :
    (s : String)
    → IsVisible (sanitize s)
      × (IsVisible s ↔ (sanitize s ≡ s))
      × (sanitize (sanitize s) ≡ sanitize s)
sanitize-sanitize s = (
  sanitize-IsVisible s,
  (sanitize_of_IsVisible s, λ e. subst IsVisible e (sanitize-IsVisible s)),
  sanitize_of_IsVisible (sanitize s) (sanitize-IsVisible s),
)
