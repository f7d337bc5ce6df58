-- ===== src/Confirm.antt =====
-- The confirmation gate before a destructive statement: crates/ownpg-core/src/tools/confirm.rs.
-- The sealing of the state, the random nonce, the clocks and the reading of a form's action are
-- other code: parameters. The audit facts of a failure are modelled by their decision.
pub mod Decides
pub mod Once
pub mod Tests
use Prim.Native.String.{◌++◌ as str_append, len}
use ownpg.Base.{
  ℕ, ◌+◌, ◌-◌, String, Bool, true, false, not, Option, none, some, List, [], ◌∷◌, ◌++◌, ◌==◌, ◌||◌,
  ltb, leb, eqb, any, if◌then◌else◌,
}
use ownpg.Errors.{Error, Result, ok, err, statement_refused, confirmation_required, protocol_failed}
use ownpg.Errors
use ownpg.Json.{Value, get, pointer, as_str, as_bool, str_at, unwrap_or, ◌>>=◌ as and_then}
use ownpg.Config.Mode
use ownpg.Config.Mode.{Mode}
use ownpg.Classify.Statement.{Classification}
use ownpg.Shape.Cells.{cut_graphemes}

-- 300 seconds. Instants and their distances count nanoseconds, as `Instant` does.
abbrev pub confirmation_ttl : ℕ
confirmation_ttl = 300000000000

abbrev pub pending_format : ℕ
pending_format = 1

abbrev pub short_statement_cap : ℕ
short_statement_cap = 200

pub record Pending : Type 0 where
  pub v : ℕ
  pub tool : String
  pub sql_sha256 : String
  pub principal : String
  pub target : String
  pub issued_at : ℕ
  pub nonce : ℕ

-- `decision` of the audit: the three that the gate gives.
pub data Decision : Type 0 where
  allowed refused confirmed_argument confirmed_elicitation : Decision

-- `consumed` with the instant of each use, oldest first; `poisoned` is the state of its mutex.
pub record Gate : Type 0 where
  pub consumed : List (ℕ × ℕ)
  pub poisoned : Bool
  pub started_at : ℕ

-- `RequestStateCodec`: a failure gives its reason.
pub data Opened : Type 0 where
  opened : Pending → Opened
  invalid : String → Opened

pub data Sealed : Type 0 where
  sealed : String → Sealed
  unsealed : String → Sealed

pub record Codec : Type 0 where
  pub open_json : String → Opened
  pub seal : Pending → Sealed
  -- does the action parse as ACCEPT?
  pub accepts : String → Bool
  -- why the form could not be built
  pub form : Option String
  pub graphemes : String → List String

pub record Call : Type 0 where
  pub principal : String
  pub mode : Mode
  -- `target_digest(call.settings())`
  pub target : String
  pub request_state : Option String
  -- the entry of the responses under REQUEST_KEY
  pub response : Option Value
  pub can_elicit : Bool
  -- the draws of this call: the clock and the nonce
  pub unix_seconds : ℕ
  pub instant : ℕ
  pub nonce : ℕ

pub data Verdict : Type 0 where
  proceed : Decision → Verdict
  -- the message of the form and the sealed state
  ask : String → String → Verdict

pub data Failure : Type 0 where
  failure : Error → Option Decision → Failure

pub data Outcome : Type 0 where
  done : Verdict → Outcome
  failed : Failure → Outcome

pub data Answer : Type 0 where
  accepted declined missing : Answer

refusal : String → Error
refusal detail = confirmation_required (str_append detail "; confirm again")

infix 50 ◌differs◌
abbrev ◌differs◌ : String → String → Bool
s differs t = not (s == t)

unfoldable pub matches : Gate → Pending → String → String → String → String → Result (Unit {0})
unfolding refusal
matches self pending tool sql_sha256 principal target =
    if not (eqb pending.v pending_format)
    then err (refusal "the confirmation was issued by another version of OwnPG")
    else if pending.tool differs tool
        || pending.sql_sha256 differs sql_sha256
        || pending.principal differs principal
    then err (confirmation_required "the confirmation belongs to a different statement or caller")
    else if pending.target differs target
    then err (refusal "the confirmation was issued for another database or schema")
    else if ltb pending.issued_at self.started_at
    then err (refusal "the confirmation was issued before this server started")
    else ok tt

-- `while front is older than the TTL { pop_front }`
unfoldable pub forget_old : ℕ → List (ℕ × ℕ) → List (ℕ × ℕ)
forget_old now [] = []
forget_old now ((used, at) ∷ rest) =
    let kept = (used, at) ∷ rest in
    let fewer = forget_old now rest in if ltb confirmation_ttl (now - at) then fewer else kept

abbrev pub is_used : ℕ → List (ℕ × ℕ) → Bool
is_used nonce entries = any (λ entry. eqb entry.0 nonce) entries

unfoldable pub consume : Gate → ℕ → ℕ → Result (Unit {0}) × Gate
unfolding refusal forget_old
consume self now nonce =
    if self.poisoned
    then (err (protocol_failed "the confirmation ledger is poisoned"), self)
    else let kept = forget_old now self.consumed in
      if is_used nonce kept
      then (
        err (confirmation_required "this confirmation was already used once; confirm again"),
        record self { consumed = kept },
      )
      else (ok tt, record self { consumed = kept ++ (nonce, now) ∷ [] })

unfoldable pub answer : (String → Bool) → Option Value → Answer
unfolding get pointer as_str as_bool
answer accepts none = missing
answer accepts (some value) =
    if not (accepts (unwrap_or "" (str_at "action" value)))
    then declined
    else if unwrap_or false (and_then (pointer ("content" ∷ "proceed" ∷ []) value) as_bool)
    then accepted
    else declined

unfoldable pub short_statement : (String → List String) → String → String
short_statement graphemes statement =
    if leb (len statement) short_statement_cap
    then statement
    else cut_graphemes graphemes statement short_statement_cap

infixr 66 ◌<>◌
abbrev ◌<>◌ : String → String → String
s <> t = str_append s t

question : Codec → Classification → String → String
question codec c rule =
    "This "
    <> c.kind
    <> " statement is destructive: "
    <> rule
    <> ". Statement: "
    <> short_statement codec.graphemes c.normalized
    <> ". Run it?"

unfoldable pub pending_for : Call → String → Classification → Pending
pending_for call tool c = record {
  v = pending_format;
  tool = tool;
  sql_sha256 = c.sql_sha256;
  principal = call.principal;
  target = call.target;
  issued_at = call.unix_seconds;
  nonce = call.nonce;
}

abbrev pub plain : Error → Outcome
plain e = failed (failure e none)

abbrev ask_sealed : Codec → Classification → String → Sealed → Outcome
ask_sealed codec c rule (unsealed reason) =
    plain (protocol_failed ("the confirmation state could not be sealed: " <> reason))
ask_sealed codec c rule (sealed state) = elim codec.form [
  | some reason ↦ plain (protocol_failed ("the confirmation form is invalid: " <> reason))
  | none ↦ done (ask (question codec c rule) state)
]

unfoldable pub ask_for : Codec → Call → String → Classification → String → Outcome
unfolding question pending_for
ask_for codec call tool c rule = ask_sealed codec c rule (codec.seal (pending_for call tool c))

abbrev pub consumed_outcome : Result (Unit {0}) × Gate → Outcome × Gate
consumed_outcome (ok done_once, gate) = (done (proceed confirmed_elicitation), gate)
consumed_outcome (err e, gate) = (plain e, gate)

-- What an answer to a question that this gate asked leads to.
unfoldable pub answered :
    Gate → Codec → Call → String → Classification → String → Pending → Answer → Outcome × Gate
unfolding consume ask_for
answered self codec call tool c rule pending accepted =
    consumed_outcome (consume self call.instant pending.nonce)
answered self codec call tool c rule pending declined = (
  failed (
      failure
        (statement_refused ("declined at the confirmation prompt: " <> rule)
          (Mode.as_str call.mode))
        (some refused)),
  self,
)
answered self codec call tool c rule pending missing = (ask_for codec call tool c rule, self)

abbrev pub matched :
    Gate
    → Codec
    → Call
    → String
    → Classification
    → String
    → Pending
    → Result (Unit {0})
    → Outcome × Gate
matched self codec call tool c rule pending (err e) = (plain e, self)
matched self codec call tool c rule pending (ok fits) =
    answered self codec call tool c rule pending (answer codec.accepts call.response)

abbrev pub reopened :
    Gate → Codec → Call → String → Classification → String → Opened → Outcome × Gate
reopened self codec call tool c rule (invalid reason) = (
  plain (
      confirmation_required
        ("the confirmation state is not valid (" <> reason <> "); confirm again")),
  self,
)
reopened self codec call tool c rule (opened pending) =
    matched self codec call tool c rule pending
      (matches self pending tool c.sql_sha256 call.principal call.target)

unfoldable pub pass_rule : String → Error
pass_rule rule =
    confirmation_required
      (rule <> "; pass confirm: true to run it, or dry_run: true to see the statement first")

abbrev pub resumed :
    Gate → Codec → Call → String → Classification → String → Option String → Outcome × Gate
resumed self codec call tool c rule (some state) =
    reopened self codec call tool c rule (codec.open_json state)
resumed self codec call tool c rule none =
    if call.can_elicit
    then (ask_for codec call tool c rule, self)
    else (plain (pass_rule rule), self)

unfoldable pub check_destructive :
    Gate → Codec → Call → String → Classification → String → Outcome × Gate
unfolding matches answered answer ask_for pass_rule
check_destructive self codec call tool c rule =
    resumed self codec call tool c rule call.request_state

abbrev pub with_destructive :
    Gate → Codec → Call → String → Classification → Bool → Option String → Outcome × Gate
with_destructive self codec call tool c confirm none = (done (proceed allowed), self)
with_destructive self codec call tool c confirm (some rule) =
    if confirm
    then (done (proceed confirmed_argument), self)
    else check_destructive self codec call tool c rule

unfoldable pub check : Gate → Codec → Call → String → Classification → Bool → Outcome × Gate
unfolding check_destructive
check self codec call tool c confirm =
    with_destructive self codec call tool c confirm c.destructive_reason
