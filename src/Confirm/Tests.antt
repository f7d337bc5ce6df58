-- ===== src/Confirm/Tests.antt =====
-- The gate at a concrete call: a DROP TABLE confirmed at the prompt.
use ownpg.Base.{ℕ, ◌≡◌, refl, ◌≢◌, ◌⊎◌, true, false, none, some, [], ◌∷◌, arith}
use ownpg.Json.{Value, bool, text, obj, end, field}
use ownpg.Config.Mode.{read_write}
use ownpg.Classify.Kinds.{ddl}
use ownpg.Classify.Statement.{Classification}
use ownpg.Confirm.{
  Pending, Gate, Codec, Call, opened, sealed, done, proceed, confirmed_argument,
  confirmed_elicitation, check,
}
use ownpg.Confirm.Decides.{IsConfirmed, check_proceeds}
use ownpg.Confirm.Once.{Request, request, serve, request_once}

abbrev drop_class : Classification
drop_class = record {
  class = ddl;
  kind = "DropStmt";
  destructive_reason = some "DROP removes an object";
  refusals = [];
  relations = [];
  functions = [];
  fingerprint = "f";
  sql_sha256 = "h";
  normalized = "DROP TABLE orders";
  runs_outside_transaction = false;
  explain_analyze = false;
  returning = false;
  returns_rows = false;
  cascade_targets = [];
}

abbrev pending : Pending
pending = record {
  v = 1;
  tool = "pg_query";
  sql_sha256 = "h";
  principal = "me";
  target = "app";
  issued_at = 10;
  nonce = 7;
}

abbrev codec : Codec
codec = record {
  open_json = λ state. opened pending;
  seal = λ p. sealed "s";
  accepts = λ action. true;
  form = none;
  graphemes = λ s. s ∷ [];
}

abbrev gate : Gate
gate = record { consumed = []; poisoned = false; started_at = 5 }

abbrev accepting : Value
accepting =
    obj
      (field "action" (text "accept") (field "content" (obj (field "proceed" (bool true) end)) end))

abbrev call_at : ℕ → Call
call_at instant = record {
  principal = "me";
  mode = read_write;
  target = "app";
  request_state = some "s";
  response = some accepting;
  can_elicit = true;
  unix_seconds = 20;
  instant = instant;
  nonce = 8;
}

abbrev request_at : ℕ → Request
request_at instant = record {
  call = call_at instant;
  tool = "pg_query";
  classification = drop_class;
  confirm = false;
}

first_runs : (request gate codec (request_at 20)).0 ≡ done (proceed confirmed_elicitation)
unfolding check
first_runs = refl

check_proceeds_example :
    ((false ≡ true) × (confirmed_elicitation ≡ confirmed_argument))
    ⊎ (IsConfirmed gate codec (call_at 20) "pg_query" drop_class
        × (confirmed_elicitation ≡ confirmed_elicitation))
check_proceeds_example =
    check_proceeds gate codec (call_at 20) "pg_query" drop_class false confirmed_elicitation
      (ground arith) first_runs

request_once_example :
    (request
      (serve (request gate codec (request_at 20)).1 codec (request_at 30 ∷ []))
      codec
      (request_at 40)).0
    ≢ done (proceed confirmed_elicitation)
request_once_example =
    request_once gate codec "s" pending (request_at 20) (request_at 40) (request_at 30 ∷ []) refl
      refl refl first_runs (omega arith) (omega arith)
