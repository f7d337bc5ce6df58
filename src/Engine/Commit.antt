-- ===== src/Engine/Commit.antt =====
-- The end of a transaction block: `commit_checked`, `lost_commit_outcome` and `finish_block` of
-- crates/ownpg-core/src/engine.rs. The client of the database takes the answers to its statements
-- from a list; when the list is used up, statements succeed.
pub mod Truthful
pub mod Tests
use Prim.Native.String.{◌++◌ as str_append}
use ownpg.Base.{
  ℕ, zero, suc, String, Bool, true, false, not, Option, none, some, List, [], ◌∷◌, ◌++◌, ◌==◌, ◌||◌,
  if◌then◌else◌,
}
use ownpg.Errors.{Error, Result, ok, err, handle_state, sql_failed, commit_outcome_unknown}

-- What the code reads of a `tokio_postgres::Error`: whether the server's error is fatal, where there
-- is one, whether the connection closed, and what `describe_sqlstate` makes of it.
pub record QueryError : Type 0 where
  pub fatal : Option Bool
  pub is_closed : Bool
  pub described : Error

-- The first value of the rows, or an error.
pub data Answer : Type 0 where
  row : (first : Option String) → Answer
  failed : QueryError → Answer

pub record Client : Type 0 where
  pub closed : Bool
  -- each with whether the connection is closed behind it
  pub answers : List (Answer × Bool)
  pub sent : List String

answered : List (Answer × Bool) → String → Client → Answer × Client
answered [] sql c = (row none, record c { sent = c.sent ++ sql ∷ [] })
answered ((answer, closes) ∷ rest) sql c =
    (answer, record c { closed = closes; answers = rest; sent = c.sent ++ sql ∷ [] })

-- One statement and its answer.
unfoldable pub query : String → Client → Answer × Client
unfolding answered
query sql c = answered c.answers sql c

pub data CommitResult : Type 0 where
  committed never_sent : CommitResult
  rolled_back : (transaction : String) → CommitResult
  unknown : (transaction : Option String) → CommitResult

-- One check of the state of a transaction over a second connection.
pub data Status : Type 0 where
  status : Option String → Status
  unread : Status

-- The second connection, if it can be made, with what its checks answer.
pub data Probe : Type 0 where
  unreachable : Probe
  reached : List Status → Probe

abbrev pub lost_commit_checks : ℕ
lost_commit_checks = 10

abbrev pub named_status : String → String → CommitResult → CommitResult
named_status s transaction later =
    if s == "committed"
    then committed
    else if s == "aborted"
    then rolled_back transaction
    else later

-- The loop over the checks; where no answer is left, the state stays open.
unfoldable pub checks : ℕ → List Status → String → CommitResult
checks zero statuses transaction = unknown (some transaction)
checks (suc n) [] transaction = checks n [] transaction
checks (suc n) (unread ∷ rest) transaction = unknown (some transaction)
checks (suc n) (status none ∷ rest) transaction = checks n rest transaction
checks (suc n) (status (some s) ∷ rest) transaction =
    (let later = checks n rest transaction in named_status s transaction later)

unfoldable pub lost_commit_outcome : Probe → String → CommitResult
unfolding checks
lost_commit_outcome unreachable transaction = unknown (some transaction)
lost_commit_outcome (reached statuses) transaction = checks lost_commit_checks statuses transaction

unfoldable pub connection_lost : Client → QueryError → Bool
connection_lost c e = elim e.fatal [ some fatal ↦ fatal | none ↦ c.closed || e.is_closed ]

unfoldable pub lost_outcome : Option Probe → Option String → CommitResult
unfolding lost_commit_outcome
lost_outcome (some probe) (some transaction) = lost_commit_outcome probe transaction
lost_outcome (some probe) none = committed
lost_outcome none transaction = unknown none

unfoldable pub commit_outcome : Option Probe → Option String → Answer → Client → Result CommitResult
unfolding connection_lost lost_outcome
commit_outcome probe transaction (row first) c = ok committed
commit_outcome probe transaction (failed e) c =
    if not (connection_lost c e) then err e.described else ok (lost_outcome probe transaction)

unfoldable pub after_check : Option Probe → Answer → Client → Result CommitResult × Client
unfolding query connection_lost commit_outcome
after_check probe (failed e) c =
    if connection_lost c e then (ok never_sent, c) else (err e.described, c)
after_check probe (row transaction) c =
    let (answer, c') = query "COMMIT" c in (commit_outcome probe transaction answer c', c')

abbrev pub transaction_id_sql : String
transaction_id_sql = "SELECT pg_catalog.pg_current_xact_id_if_assigned()::text"

abbrev pub check_sql : Option Probe → String
check_sql none = "SELECT 1"
check_sql (some probe) = transaction_id_sql

unfoldable pub commit_checked : Option Probe → Client → Result CommitResult × Client
unfolding query after_check
commit_checked probe c = let (answer, c') = query (check_sql probe) c in after_check probe answer c'

unfoldable pub roll_back_quietly : Client → Client
unfolding query
roll_back_quietly c = if c.closed then c else (query "ROLLBACK" c).1

unfoldable pub block_aborted : Error → Bool
block_aborted (sql_failed (some code) message) = code == "25P02"
block_aborted error = false

abbrev operation_of : Option String → String
operation_of none = "COMMIT"
operation_of (some transaction) = str_append "COMMIT of transaction " transaction

unfoldable pub told : String → Result CommitResult × Client → Result (Unit {0}) × Client
unfolding roll_back_quietly block_aborted
told id (ok committed, c) = (ok tt, c)
told id (ok never_sent, c) = (
  err (
      handle_state id
        "rolled back: the connection closed before COMMIT was sent, so nothing was committed"),
  c,
)
told id (ok (rolled_back transaction), c) = (
  err (
      handle_state id (
        str_append
          "rolled back: the connection closed during COMMIT and the server aborted transaction "
          (str_append transaction ", so nothing was committed"))),
  c,
)
told id (ok (unknown transaction), c) = (err (commit_outcome_unknown (operation_of transaction)), c)
told id (err error, c) = (
  err (
      if block_aborted error
      then handle_state id
          "aborted by a failed statement; it was rolled back and nothing was committed"
      else error),
  roll_back_quietly c,
)

abbrev pub executed : Answer × Client → Result (Unit {0}) × Client
executed (row first, c) = (ok tt, c)
executed (failed e, c) = (err e.described, c)

unfoldable pub finish_block : Option Probe → String → String → Client → Result (Unit {0}) × Client
unfolding query commit_checked told
finish_block probe id statement c =
    if not (statement == "COMMIT")
    then executed (query statement c)
    else told id (commit_checked probe c)
