-- ===== src/Audit/Chain.antt =====
-- The check of a hash chain: `verify_chain` of crates/ownpg-core/src/audit.rs. A file is its
-- complete lines and what follows the last line feed. The reading of the file, the JSON parser and
-- `sha256_hex` are parameters; a failure is a line number and the case of its message.
pub mod Evident
pub mod Extends
use ownpg.Base.{
  ℕ, zero, suc, String, Bool, true, false, not, Option, none, some, List, [], ◌∷◌, ◌==◌, ◌&&◌, ◌||◌,
  ltb, eqb, if◌then◌else◌,
}
use ownpg.Json.{Value, ℤ, int, pos, get, str_at, bool_at, is_text, is_true, ◌>>=◌ as and_then}
use ownpg.Classify.Statement.{Reply, given, failed}

abbrev pub format_version : ℕ
format_version = 1

abbrev pub chain_start : String
chain_start = "chain-start"

pub data Fault : Type 0 where
  cut_off version_missing prev_missing head_missing head_elsewhere : Fault
  opens_in_middle marker_unlinked entry_unlinked : Fault
  malformed : (reason : String) → Fault
  newer_version : (version : ℕ) → Fault

pub data Checked {ℓ} (T : Type ℓ) : Type ℓ where
  broken : (line : ℕ) → Fault → Checked T
  sound : T → Checked T

infixl 5 ◌>>=◌ ◌>>◌
abbrev pub ◌>>=◌ {ℓ κ} : {T : Type ℓ} {U : Type κ} → Checked T → (T → Checked U) → Checked U
broken line fault >>= next = broken line fault
sound value >>= next = next value

abbrev pub ◌>>◌ {ℓ} : {U : Type ℓ} → Checked (Unit {0}) → Checked U → Checked U
first >> second = first >>= λ _. second

-- `serde_json::Value::as_u64`
abbrev pub as_u64 : Value → Option ℕ
as_u64 (int (pos n)) = some n
as_u64 _ = none

abbrev pub require {ℓ} : {T : Type ℓ} → ℕ → Fault → Option T → Checked T
require number fault none = broken number fault
require number fault (some value) = sound value

abbrev pub is_some {ℓ} : {T : Type ℓ} → Option T → Bool
is_some none = false
is_some (some value) = true

unfoldable pub marker_of : Value → Option String
marker_of value = str_at "marker" value

-- The marker says that its file goes on with the chain of another one.
unfoldable pub starts_file : Value → Bool
unfolding marker_of
starts_file value =
    is_text chain_start (marker_of value)
    && (is_some (get "rotated_from" value) || is_true (bool_at "resumed" value))

unfoldable pub check_version : ℕ → ℕ → Checked (Unit {0})
check_version number version =
    if ltb format_version version then broken number (newer_version version) else sound tt

abbrev unlinked : Option String → Fault
unlinked none = entry_unlinked
unlinked (some marker) = marker_unlinked

unfoldable pub check_link : ℕ → String → Value → String → Checked (Unit {0})
check_link number prev value recorded =
    if eqb number 1
    then (if not (is_text chain_start (marker_of value))
        then broken number head_missing
        else if not (recorded == "") && not (starts_file value)
        then broken number head_elsewhere
        else sound tt)
    else if starts_file value
    then broken number opens_in_middle
    else if not (recorded == prev)
    then broken number (unlinked (marker_of value))
    else sound tt

-- The checks of one parsed line, and whether it is an entry.
unfoldable pub check_value : ℕ → String → Value → Checked Bool
check_value number prev value = do
  version ← require number version_missing (and_then (get "v" value) as_u64)
  check_version number version
  recorded ← require number prev_missing (str_at "prev" value)
  check_link number prev value recorded
  sound (not (is_some (marker_of value)))

abbrev pub parsed : ℕ → Reply Value → Checked Value
parsed number (failed reason) = broken number (malformed reason)
parsed number (given value) = sound value

module _ (parse : String → Reply Value) (sha256_hex : String → String) where
  -- The loop, after `number` lines of which the last has the hash `prev`.
  unfoldable pub verify_from : ℕ → String → ℕ → List String → String → Checked ℕ
  verify_from number prev count [] torn =
      if torn == "" then sound count else broken (suc number) cut_off
  verify_from number prev count (line ∷ lines) torn = do
    value ← parsed (suc number) (parse line)
    is_entry ← check_value (suc number) prev value
    verify_from (suc number) (sha256_hex line) (if is_entry then suc count else count) lines torn

  unfoldable pub verify_chain : List String → String → Checked ℕ
  unfolding verify_from
  verify_chain lines torn = verify_from 0 "" 0 lines torn
