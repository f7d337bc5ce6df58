-- ===== src/Engine/Lane.antt =====
-- The cursors of a connection: `Lane`, `Cursor`, `check_cursor_owner`, `rollback_all`,
-- `finish_if_idle`, `close_cursor_now`, `sweep_expired` and `summaries` of
-- crates/ownpg-core/src/engine.rs. Of a cursor stand here its name, owner and deadline.
use Prim.Native.Nat.{◌/◌}
use Prim.Native.String.{◌++◌ as str_append}
use ownpg.Base.{
  ℕ, ◌-◌, String, Bool, false, Option, none, some, List, [], ◌∷◌, ◌==◌, ◌&&◌, leb, is_empty,
  if◌then◌else◌,
}
use ownpg.Errors.{Result, ok, err, handle_state}
use ownpg.Engine.Commit.{Client, query, executed}

pub record Cursor : Type 0 where
  pub name : String
  pub principal : String
  pub expires_at : ℕ

-- The cursors stand in the order of their ids.
pub record Lane : Type 0 where
  pub client : Client
  pub in_read_transaction : Bool
  pub cursors : List (String × Cursor)

pub record CursorSummary : Type 0 where
  pub id : String
  pub expires_in_seconds : ℕ

unfoldable pub get_cursor : String → List (String × Cursor) → Option Cursor
get_cursor id [] = none
get_cursor id ((known, cursor) ∷ rest) = if known == id then some cursor else get_cursor id rest

unfoldable pub remove_cursor : String → List (String × Cursor) → List (String × Cursor)
remove_cursor id [] = []
remove_cursor id ((known, cursor) ∷ rest) =
    let others = remove_cursor id rest in if known == id then others else (known, cursor) ∷ others

unfoldable pub owner_check : String → String → Option Cursor → Result (Unit {0})
owner_check id principal none = err (handle_state id "unknown or expired")
owner_check id principal (some cursor) =
    if cursor.principal == principal
    then ok tt
    else err (handle_state id "owned by another principal")

unfoldable pub check_cursor_owner : Lane → String → String → Result (Unit {0})
unfolding get_cursor owner_check
check_cursor_owner lane id principal = owner_check id principal (get_cursor id lane.cursors)

unfoldable pub sent_on : Lane → Result (Unit {0}) × Client → Result (Unit {0}) × Lane
sent_on lane (result, client) = (result, record lane { client = client })

unfoldable pub rollback_all : Lane → Result (Unit {0}) × Lane
unfolding sent_on query
rollback_all lane =
    if lane.in_read_transaction
    then (sent_on (record lane { cursors = []; in_read_transaction = false })
        (executed (query "ROLLBACK" lane.client)))
    else (ok tt, record lane { cursors = [] })

unfoldable pub finish_if_idle : Lane → Result (Unit {0}) × Lane
unfolding rollback_all
finish_if_idle lane =
    if is_empty lane.cursors && lane.in_read_transaction then rollback_all lane else (ok tt, lane)

unfoldable pub close_found : String → Option Cursor → Lane → Lane
unfolding remove_cursor query
close_found id none lane = lane
close_found id (some cursor) lane = record lane {
  cursors = remove_cursor id lane.cursors;
  client = (query (str_append "CLOSE " cursor.name) lane.client).1;
}

-- A failure to close is only noted.
unfoldable pub close_cursor_now : String → Lane → Lane
unfolding get_cursor close_found
close_cursor_now id lane = close_found id (get_cursor id lane.cursors) lane

unfoldable pub expired_ids : ℕ → List (String × Cursor) → List String
expired_ids now [] = []
expired_ids now ((id, cursor) ∷ rest) =
    let others = expired_ids now rest in if leb cursor.expires_at now then id ∷ others else others

unfoldable pub close_all : List String → Lane → Lane
unfolding close_cursor_now
close_all [] lane = lane
close_all (id ∷ ids) lane = close_all ids (close_cursor_now id lane)

unfoldable pub sweep_expired : ℕ → Lane → Lane
unfolding expired_ids close_all
sweep_expired now lane = close_all (expired_ids now lane.cursors) lane

unfoldable pub summaries : ℕ → List (String × Cursor) → List CursorSummary
summaries now [] = []
summaries now ((id, cursor) ∷ rest) =
    record { id = id; expires_in_seconds = (cursor.expires_at - now) / 1000 } ∷ summaries now rest
