-- ===== src/Shape/Cells.antt =====
-- One cell of a result: `sanitize`, `escape_cell`, `is_invisible`, `cut_graphemes` and `cut_cell`
-- of crates/ownpg-core/src/shape.rs. A text's `len` is its length in UTF-8 bytes and `count` its
-- number of characters. The split into graphemes is the crate unicode-segmentation: a parameter.
pub mod Laws
use Prim.Native.Nat.{ℕ, ◌+◌, ◌-◌}
use Prim.Native.Char.{Char, code}
use Prim.Native.String.{String, [], ◌∷◌, ◌++◌, len, count}
use mathlib.Core.Bool.{Bool, true, false, ◌&&◌, ◌||◌}
use mathlib.Core.List
use mathlib.Core.List.{List}
use ownpg.Base.{leb, ltb, eqb, if◌then◌else◌}

-- `cell_cap` bytes at most stay of a cell.
abbrev pub cell_cap_bytes : ℕ
cell_cap_bytes = 8192

abbrev within : ℕ → ℕ → ℕ → Bool
within lo hi c = leb lo c && leb c hi

unfoldable pub is_control : ℕ → Bool
is_control c =
    within 0 0x8 c
    || eqb c 0xb
    || eqb c 0xc
    || within 0xe 0x1f c
    || eqb c 0x7f
    || within 0x80 0x9f c

unfoldable pub is_format : ℕ → Bool
is_format c =
    eqb c 0x00ad
    || eqb c 0x034f
    || eqb c 0x061c
    || eqb c 0x115f
    || eqb c 0x1160
    || eqb c 0x180e
    || within 0x200b 0x200f c
    || within 0x2028 0x202e c
    || within 0x2060 0x206f c
    || eqb c 0x3164
    || eqb c 0xfeff
    || within 0xfe00 0xfe0f c
    || eqb c 0xffa0
    || within 0xfff9 0xfffb c
    || within 0xe0000 0xe007f c
    || within 0xe0100 0xe01ef c

unfoldable pub is_invisible : ℕ → Bool
unfolding is_control is_format
is_invisible c = is_control c || is_format c

unfoldable pub sanitize : String → String
sanitize [] = []
sanitize (c ∷ s) = let rest = sanitize s in if is_invisible (code c) then rest else c ∷ rest

-- The arms of the `match` in `escape_cell`: what one character puts before the rest.
unfoldable pub escape_char : Char → String → String
escape_char c rest =
    if eqb (code c) 92
    then "\\" ∷ "\\" ∷ rest
    else if eqb (code c) 9
    then "\\" ∷ "t" ∷ rest
    else if eqb (code c) 10
    then "\\" ∷ "n" ∷ rest
    else if eqb (code c) 13
    then "\\" ∷ "r" ∷ rest
    else c ∷ rest

unfoldable pub escape_cell : String → String
unfolding escape_char
escape_cell [] = []
escape_cell (c ∷ s) = escape_char c (escape_cell s)

-- The loops that take graphemes while they fit, by a measure of their size.
unfoldable pub take_fitting : (String → ℕ) → ℕ → ℕ → List String → String
take_fitting size cap taken List.[] = []
take_fitting size cap taken (List.◌∷◌ g gs) =
    let rest = g ++ take_fitting size cap (taken + size g) gs in
    if ltb (cap - 3) (taken + size g) then [] else rest

module _ (graphemes : String → List String) where
  unfoldable pub cut_graphemes : String → ℕ → String
  unfolding take_fitting
  cut_graphemes text cap =
      if leb (count text) cap then text else take_fitting count cap 0 (graphemes text) ++ "..."

  unfoldable pub cut_cell : String → ℕ → String
  unfolding take_fitting
  cut_cell text cap =
      if leb (len text) cap then text else take_fitting len cap 0 (graphemes text) ++ "..."
