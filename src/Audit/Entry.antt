-- ===== src/Audit/Entry.antt =====
-- The lines of the audit log: `Decision`, `Entry`, `Line` and `Marker` of
-- crates/ownpg-core/src/audit.rs, with the JSON that `Serialize` derives for them.
pub mod Reads
use ownpg.Base.{
  ℕ, String, Bool, true, false, Option, none, some, List, [], ◌∷◌, is_empty, if◌then◌else◌,
}
use ownpg.Json.{Value, Fields, Items, int, pos, text, bool, arr, obj, end, field, nil, cons}
use ownpg.Config.Mode
use ownpg.Config.Mode.{Mode}
use ownpg.Audit.Chain.{format_version, chain_start}

pub data Decision : Type 0 where
  allowed refused dry_run confirmed_argument confirmed_elicitation unparsed : Decision

unfoldable pub as_str : Decision → String
as_str allowed = "allowed"
as_str refused = "refused"
as_str dry_run = "dry_run"
as_str confirmed_argument = "confirmed_argument"
as_str confirmed_elicitation = "confirmed_elicitation"
as_str unparsed = "unparsed"

pub data PrincipalKind : Type 0 where
  local os_user token_subject bearer : PrincipalKind

abbrev kind_text : PrincipalKind → String
kind_text local = "local"
kind_text os_user = "os_user"
kind_text token_subject = "token_subject"
kind_text bearer = "bearer"

pub data Transport : Type 0 where
  stdio http : Transport

abbrev transport_text : Transport → String
transport_text stdio = "stdio"
transport_text http = "http"

pub record Entry : Type 0 where
  pub request_id : String
  pub call_id : Option ℕ
  pub tool : String
  pub operation : Option String
  pub mode : Mode
  pub transport : Transport
  pub principal : String
  pub principal_kind : PrincipalKind
  pub database : String
  pub schema : String
  pub statement_class : Option String
  pub statement_hash : Option String
  pub statement : Option String
  pub relations : List String
  pub decision : Decision
  pub rule : Option String
  pub handle_id : Option String
  pub cursor_id : Option String
  pub duration_ms : ℕ
  pub row_count : Option ℕ
  pub rows_affected : Option ℕ
  pub truncated : Bool
  pub outcome : Option String
  pub superuser : Bool

pub record PrunedFile : Type 0 where
  pub name : String
  pub last_hash : String

pub record Marker : Type 0 where
  pub timestamp : String
  pub marker : String
  pub process : ℕ
  pub on_failure : Option String
  pub rotated_from : Option String
  pub resumed : Bool
  pub dropped : Option ℕ
  pub pruned : List PrunedFile
  pub prev : String

abbrev pub number : ℕ → Value
number n = int (pos n)

-- A field that `skip_serializing_if = "Option::is_none"` leaves out.
unfoldable pub text_if : String → Option String → Fields → Fields
text_if key none rest = rest
text_if key (some s) rest = field key (text s) rest

unfoldable pub number_if : String → Option ℕ → Fields → Fields
number_if key none rest = rest
number_if key (some n) rest = field key (number n) rest

abbrev texts : List String → Items
texts [] = nil
texts (s ∷ ss) = cons (text s) (texts ss)

unfoldable pub list_if : String → Items → Fields → Fields
list_if key nil rest = rest
list_if key (cons v vs) rest = field key (arr (cons v vs)) rest

unfoldable pub true_if : String → Bool → Fields → Fields
true_if key false rest = rest
true_if key true rest = field key (bool true) rest

unfoldable pub caller_fields : Entry → Fields → Fields
unfolding number_if text_if Mode.as_str
caller_fields e rest = field "request_id" (text e.request_id) (
    number_if "call_id" e.call_id (
      field "tool" (text e.tool) (
        text_if "operation" e.operation (
          field "mode" (text (Mode.as_str e.mode)) (
            field "transport" (text (transport_text e.transport)) (
              field "principal" (text e.principal) (
                field "principal_kind" (text (kind_text e.principal_kind))
                  (field "database" (text e.database) (field "schema" (text e.schema) rest)))))))))

unfoldable pub statement_fields : Entry → Fields → Fields
unfolding text_if list_if as_str
statement_fields e rest = text_if "statement_class" e.statement_class (
    text_if "statement_hash" e.statement_hash (
      text_if "statement" e.statement (
        list_if "relations" (texts e.relations) (
          field "decision" (text (as_str e.decision)) (
            text_if "rule" e.rule
              (text_if "handle_id" e.handle_id (text_if "cursor_id" e.cursor_id rest)))))))

unfoldable pub outcome_fields : Entry → Fields → Fields
unfolding number_if text_if
outcome_fields e rest = field "duration_ms" (number e.duration_ms) (
    number_if "row_count" e.row_count (
      number_if "rows_affected" e.rows_affected (
        field "truncated" (bool e.truncated)
          (text_if "outcome" e.outcome (field "superuser" (bool e.superuser) rest)))))

-- `Line`: the fields of the entry stand between those of the line.
unfoldable pub line_value : String → Entry → String → Value
unfolding caller_fields statement_fields outcome_fields
line_value timestamp entry prev = obj (
    field "v" (number format_version) (
      field "timestamp" (text timestamp) (
        caller_fields entry
          (statement_fields entry (outcome_fields entry (field "prev" (text prev) end))))))

pruned_value : PrunedFile → Value
pruned_value p = obj (field "name" (text p.name) (field "last_hash" (text p.last_hash) end))

abbrev pruned_items : List PrunedFile → Items
unfolding pruned_value
pruned_items [] = nil
pruned_items (p ∷ ps) = cons (pruned_value p) (pruned_items ps)

unfoldable pub marker_value : Marker → Value
unfolding number_if text_if list_if true_if pruned_items
marker_value m = obj (
    field "v" (number format_version) (
      field "timestamp" (text m.timestamp) (
        field "marker" (text m.marker) (
          field "process" (number m.process) (
            text_if "on_failure" m.on_failure (
              text_if "rotated_from" m.rotated_from (
                true_if "resumed" m.resumed (
                  number_if "dropped" m.dropped (
                    list_if "pruned" (pruned_items m.pruned)
                      (field "prev" (text m.prev) end))))))))))
