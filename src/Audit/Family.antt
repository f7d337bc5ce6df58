-- ===== src/Audit/Family.antt =====
-- The names of the files of one log: `Family`, `is_digits`, `is_rotation_suffix` and
-- `rotation_order` of crates/ownpg-core/src/audit.rs.
use Prim.Native.Char.{Char, code}
use Prim.Native.String.{[], ◌∷◌}
use ownpg.Base.{
  ℕ, ◌+◌, ◌-◌, ◌*◌, String, Bool, true, false, not, Option, none, some, List, ◌==◌, ◌&&◌, ◌||◌, leb,
  ltb, eqb, length, all, if◌then◌else◌,
}
use ownpg.Base.Text.{split, strip_prefix, split_once, find_last}
use ownpg.Json.{filter_map}

pub data Family : Type 0 where
  per_process : (prefix : String) → Family
  fixed : (file_name : String) → Family

abbrev pub is_digit : Char → Bool
is_digit c = leb b'0' (code c) && leb (code c) b'9'

unfoldable pub all_digits : String → Bool
all_digits [] = true
all_digits (c ∷ s) = is_digit c && all_digits s

unfoldable pub is_digits : String → Bool
unfolding all_digits
is_digits s = not (s == "") && all_digits s

abbrev one_or_two : ℕ → Bool
one_or_two n = leb 1 n && leb n 2

abbrev parts_are_digits : List String → Bool
unfolding is_digits
parts_are_digits parts = one_or_two (length parts) && all is_digits parts

abbrev some_digits : Option String → Bool
unfolding is_digits split
some_digits none = false
some_digits (some rest) = parts_are_digits (split b'.' rest)

unfoldable pub is_rotation_suffix : String → Bool
unfolding is_digits split strip_prefix
is_rotation_suffix suffix = (suffix == "") || some_digits (strip_prefix "." suffix)

abbrev process_and_suffix : Option (String × String) → Bool
unfolding is_digits is_rotation_suffix
process_and_suffix none = false
process_and_suffix (some (process, suffix)) = is_digits process && is_rotation_suffix suffix

abbrev owned_by_process : Option String → Bool
unfolding split_once is_digits is_rotation_suffix
owned_by_process none = false
owned_by_process (some rest) = process_and_suffix (split_once ".jsonl" rest)

abbrev owned_suffix : Option String → Bool
unfolding is_rotation_suffix
owned_suffix none = false
owned_suffix (some suffix) = not (suffix == "") && is_rotation_suffix suffix

unfoldable pub owns : Family → String → Bool
unfolding strip_prefix split_once is_digits is_rotation_suffix
owns (per_process prefix) name = owned_by_process (strip_prefix prefix name)
owns (fixed file_name) name = owned_suffix (strip_prefix file_name name)

digits_value : ℕ → String → ℕ
digits_value acc [] = acc
digits_value acc (c ∷ s) = digits_value (acc * 10 + (code c - b'0')) s

in_u64 : ℕ → Option ℕ
in_u64 n = if ltb n 18446744073709551616 then some n else none

unsigned : String → String
unsigned [] = []
unsigned (c ∷ s) = if eqb (code c) b'+' then s else c ∷ s

-- `part.parse::<u64>().ok()`, which also reads a sign `+`
unfoldable pub parse_u64 : String → Option ℕ
unfolding is_digits digits_value in_u64 unsigned
parse_u64 s =
    let digits = unsigned s in if is_digits digits then in_u64 (digits_value 0 digits) else none

abbrev or_whole : String → Option String → String
or_whole whole none = whole
or_whole whole (some rest) = rest

unfoldable pub rotation_order : String → List ℕ
unfolding parse_u64 find_last split
rotation_order name = filter_map parse_u64 (split b'.' (or_whole name (find_last ".jsonl" name)))
