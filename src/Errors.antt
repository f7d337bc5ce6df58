-- ===== src/Errors.antt =====
-- The variants of `Error` in crates/ownpg-core/src/error.rs that the modelled code returns, with
-- the fields that the code fills.
use ownpg.Base.{ℕ, String, Option}

pub data Error : Type 0 where
  statement_unparsable : (reason : String) → Error
  statement_multiple : (count : ℕ) → Error
  statement_refused : (rule mode : String) → Error
  confirmation_required : (operation : String) → Error
  protocol_failed : (detail : String) → Error
  handle_state : (handle state : String) → Error
  sql_failed : (sqlstate : Option String) (message : String) → Error
  commit_outcome_unknown : (operation : String) → Error
  audit_unwritable : (path source : String) → Error
  -- the detail is the text of this error
  audit_degraded : (policy : String) (detail : Error) → Error

pub data Result {ℓ} (T : Type ℓ) : Type ℓ where
  err : Error → Result T
  ok : T → Result T

infixl 5 ◌>>=◌ ◌>>◌
-- The operator `?`: an error ends the function.
abbrev pub ◌>>=◌ {ℓ κ} : {T : Type ℓ} {U : Type κ} → Result T → (T → Result U) → Result U
err stop >>= next = err stop
ok value >>= next = next value

abbrev pub ◌>>◌ {ℓ} : {U : Type ℓ} → Result (Unit {0}) → Result U → Result U
first >> second = first >>= λ _. second
