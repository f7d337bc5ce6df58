-- ===== src/Audit/Sound/Codec.antt =====
-- A notation of JSON values for the tests, in which each value is read as it was written. It is read
-- by a machine with a stack, one character at a time.
use Prim.Native.Char.{Char, code}
use Prim.Native.String.{[], ◌∷◌, ◌++◌}
use package.text.Mathlib.TextLemmas.{nil-append, cons-append}
use ownpg.Base.{ℕ, zero, suc, String, ◌≡◌, refl, ap, ◌∙◌, Bool, true, false, eqb, if◌then◌else◌}
use ownpg.Json.{
  Value, Fields, Items, null, bool, int, real, text, arr, obj, pos, negsuc, end, field, cons, nil,
}
use ownpg.Classify.Statement.{Reply, given, failed}

data Item : Type 0 where
  number : ℕ → Item
  word : String → Item
  value : Value → Item
  row : Items → Item
  fields : Fields → Item

data Stack : Type 0 where
  empty : Stack
  above : Item → Stack → Stack

-- `quoting` says that the next character belongs to a word.
record Machine : Type 0 where
  quoting : Bool
  stack : Stack

abbrev on : Stack → Machine
on stack = record { quoting = false; stack = stack }

add_char : Char → Stack → Stack
add_char c (above (word s) rest) = above (word (c ∷ s)) rest
add_char c rest = rest

add_one : Stack → Stack
add_one (above (number n) rest) = above (number (suc n)) rest
add_one rest = rest

as_value : Char → Stack → Stack
as_value c (above (number n) rest) =
    above (value (if eqb (code c) b'p' then int (pos n) else int (negsuc n))) rest
as_value c (above (word s) rest) = above (value (if eqb (code c) b'x' then text s else real s)) rest
as_value c (above (row r) rest) = above (value (arr r)) rest
as_value c (above (fields f) rest) = above (value (obj f)) rest
as_value c rest = rest

add_item : Stack → Stack
add_item (above (value v) (above (row r) rest)) = above (row (cons v r)) rest
add_item rest = rest

add_field : Stack → Stack
add_field (above (word k) (above (value v) (above (fields f) rest))) =
    above (fields (field k v f)) rest
add_field rest = rest

run_plain : Char → Stack → Machine
unfolding add_one as_value add_item add_field
run_plain c s =
    if eqb (code c) b'q'
    then record { quoting = true; stack = s }
    else if eqb (code c) b'0'
    then on (above (number 0) s)
    else if eqb (code c) b'1'
    then on (add_one s)
    else if eqb (code c) b's'
    then on (above (word "") s)
    else if eqb (code c) b'z'
    then on (above (value null) s)
    else if eqb (code c) b't'
    then on (above (value (bool true)) s)
    else if eqb (code c) b'f'
    then on (above (value (bool false)) s)
    else if eqb (code c) b'['
    then on (above (row nil) s)
    else if eqb (code c) b'{'
    then on (above (fields end) s)
    else if eqb (code c) b','
    then on (add_item s)
    else if eqb (code c) b':'
    then on (add_field s)
    else on (as_value c s)

run_char : Char → Machine → Machine
unfolding add_char run_plain
run_char c m = if m.quoting then on (add_char c m.stack) else run_plain c m.stack

run : String → Machine → Machine
unfolding run_char
run [] m = m
run (c ∷ s) m = run s (run_char c m)

read_stack : Stack → Reply Value
read_stack (above (value v) empty) = given v
read_stack rest = failed "no value"

pub toy_parse : String → Reply Value
unfolding run read_stack
toy_parse s = read_stack (run s (on empty)).stack

write_number : ℕ → String
write_number zero = "0"
write_number (suc n) = write_number n ++ "1"

write_word : String → String
write_word [] = "s"
write_word (c ∷ s) = write_word s ++ ("q" ∷ (c ∷ ""))

mutual
  pub toy_text : Value → String
  toy_text null = "z"
  toy_text (bool true) = "t"
  toy_text (bool false) = "f"
  toy_text (int (pos n)) = write_number n ++ "p"
  toy_text (int (negsuc n)) = write_number n ++ "n"
  toy_text (real s) = write_word s ++ "r"
  toy_text (text s) = write_word s ++ "x"
  toy_text (arr r) = write_row r ++ "a"
  toy_text (obj f) = write_fields f ++ "o"

  write_row : Items → String
  write_row nil = "["
  write_row (cons v r) = write_row r ++ (toy_text v ++ ",")

  write_fields : Fields → String
  write_fields end = "{"
  write_fields (field k v f) = write_fields f ++ (toy_text v ++ (write_word k ++ ":"))

run-append : (a b : String) (m : Machine) → run (a ++ b) m ≡ run b (run a m)
unfolding run
run-append [] b m = ap (λ (t : String). run t m) (nil-append b)
run-append (c ∷ a) b m =
    ap (λ (t : String). run t m) (cons-append c a b) ∙ run-append a b (run_char c m)

-- A text that is written leaves what it stands for on the stack.
abbrev Leaves : String → Item → Type 0
Leaves s item = (rest : Stack) → run s (on rest) ≡ on (above item rest)

then_run : (a b : String) (m n k : Machine) → run a m ≡ n → run b n ≡ k → run (a ++ b) m ≡ k
then_run a b m n k h l = run-append a b m ∙ ap (run b) h ∙ l

run-number : (n : ℕ) → Leaves (write_number n) (number n)
unfolding run write_number
run-number zero rest = refl
run-number (suc n) rest =
    then_run (write_number n) "1" (on rest) (on (above (number n) rest)) _ (run-number n rest) refl

run-word : (s : String) → Leaves (write_word s) (word s)
unfolding run write_word
run-word [] rest = refl
run-word (c ∷ s) rest =
    then_run (write_word s) ("q" ∷ (c ∷ "")) (on rest) (on (above (word s) rest)) _
      (run-word s rest) refl

mutual
  unfolding run toy_text write_row write_fields

  run-value : (v : Value) → Leaves (toy_text v) (value v)
  run-value null rest = refl
  run-value (bool true) rest = refl
  run-value (bool false) rest = refl
  run-value (int (pos n)) rest =
      then_run (write_number n) "p" (on rest) (on (above (number n) rest)) _ (run-number n rest)
        refl
  run-value (int (negsuc n)) rest =
      then_run (write_number n) "n" (on rest) (on (above (number n) rest)) _ (run-number n rest)
        refl
  run-value (real s) rest =
      then_run (write_word s) "r" (on rest) (on (above (word s) rest)) _ (run-word s rest) refl
  run-value (text s) rest =
      then_run (write_word s) "x" (on rest) (on (above (word s) rest)) _ (run-word s rest) refl
  run-value (arr r) rest =
      then_run (write_row r) "a" (on rest) (on (above (row r) rest)) _ (run-row r rest) refl
  run-value (obj f) rest =
      then_run (write_fields f) "o" (on rest) (on (above (fields f) rest)) _ (run-fields f rest)
        refl

  run-row : (r : Items) → Leaves (write_row r) (row r)
  run-row nil rest = refl
  run-row (cons v r) rest =
      let below = above (row r) rest in
      then_run (write_row r) (toy_text v ++ ",") (on rest) (on below) _ (run-row r rest) (
        then_run (toy_text v) "," (on below) (on (above (value v) below)) _ (run-value v below)
          refl)

  run-fields : (f : Fields) → Leaves (write_fields f) (fields f)
  run-fields end rest = refl
  run-fields (field k v f) rest =
      let below = above (fields f) rest in
      let higher = above (value v) below in
      then_run (write_fields f) (toy_text v ++ (write_word k ++ ":")) (on rest) (on below) _
        (run-fields f rest)
        (then_run (toy_text v) (write_word k ++ ":") (on below) (on higher) _ (run-value v below) (
          then_run (write_word k) ":" (on higher) (on (above (word k) higher)) _ (run-word k higher)
            refl))

-- Each value is read as it was written.
pub toy_parse-toy_text : (v : Value) → toy_parse (toy_text v) ≡ given v
unfolding toy_parse
toy_parse-toy_text v = ap (λ (m : Machine). read_stack m.stack) (run-value v empty)
