-- ===== src/Engine/Begin.antt =====
-- How a transaction is opened: `begin_transaction`, `ensure_alive` and `new_write_handle` of
-- crates/ownpg-core/src/engine.rs, for a server without a pool. Whether the connection is alive, the
-- connection that is made anew, what `track` answers, which fails where the call was cancelled, and
-- the id of the new handle come from outside.
pub mod Begins
pub mod Tests
use Prim.Native.String.{◌++◌ as str_append}
use ownpg.Base.{
  ℕ, ◌+◌, String, Bool, true, false, not, Option, none, some, List, [], ◌∷◌, eqb, is_empty,
  if◌then◌else◌,
}
use ownpg.Base.Text.{join}
use ownpg.Errors.{Error, Result, ok, err, handle_state}
use ownpg.Engine.Commit.{Client, Probe, query, executed}
use ownpg.Engine.Lane.{Lane, Cursor, rollback_all, finish_if_idle, sweep_expired}
use ownpg.Engine.Handles.{
  Primary, WriteHandle, HandleInfo, Limits, lost, connection_lost, note_ended, note_closed,
  describe_handle, expire_write_handle,
}

-- The primary connection with its lane.
pub record Connection : Type 0 where
  pub primary : Primary
  pub in_read_transaction : Bool
  pub cursors : List (String × Cursor)

abbrev pub Step : Type 0 → Type 0
Step T = Connection → Result T × Connection

abbrev pub then_run : {T U : Type 0} → Result T × Connection → (T → Step U) → Result U × Connection
then_run (err stop, c) next = (err stop, c)
then_run (ok value, c) next = next value c

abbrev pub lane_of : Connection → Lane
lane_of c = record {
  client = c.primary.client;
  in_read_transaction = c.in_read_transaction;
  cursors = c.cursors;
}

abbrev pub with_lane : Lane → Connection → Connection
with_lane lane c = record {
  primary = record c.primary { client = lane.client };
  in_read_transaction = lane.in_read_transaction;
  cursors = lane.cursors;
}

abbrev pub on_lane : (Lane → Result (Unit {0}) × Lane) → Step (Unit {0})
on_lane action c = (let (result, lane) = action (lane_of c) in (result, with_lane lane c))

abbrev pub on_primary : (Primary → Result (Unit {0}) × Primary) → Step (Unit {0})
on_primary action c =
    let (result, primary) = action c.primary in (result, record c { primary = primary })

abbrev pub begin_statement : Option String → String
begin_statement none = "BEGIN"
begin_statement (some transaction_prefix) = str_append "BEGIN; " transaction_prefix

abbrev ids : List (String × Cursor) → List String
ids [] = []
ids ((id, cursor) ∷ rest) = id ∷ ids rest

-- A duration of zero sets no limit.
abbrev set_lifetime : ℕ → Option ℕ
set_lifetime n = if eqb n 0 then none else some n

abbrev ends_after : ℕ → Option ℕ → Option ℕ
ends_after now none = none
ends_after now (some lifetime) = some (now + lifetime)

module _ (limits : Limits) (probe : Option Probe) (transaction_prefix : Option String)
    (now : ℕ) where
  unfoldable pub new_write_handle : String → String → WriteHandle
  new_write_handle id principal = record {
    id = id;
    principal = principal;
    savepoints = [];
    statements = 0;
    expires_at = now + limits.handle_expiry;
    lifetime = set_lifetime limits.transaction_timeout;
    lifetime_ends_at = ends_after now (set_lifetime limits.transaction_timeout);
  }

  unfoldable pub lose_open : Option WriteHandle → Primary → Primary
  unfolding note_ended note_closed
  lose_open none p = p
  lose_open (some h) p =
      note_closed limits probe now h.id lost
        (note_ended h lost connection_lost (record p { write_handle = none }))

  unfoldable pub reconnected : Result Client → Step (Unit {0})
  reconnected (err error) c = (err error, c)
  reconnected (ok client) c = (
    ok tt,
    record {
      primary = record c.primary { client = client };
      in_read_transaction = false;
      cursors = [];
    },
  )

  -- A lost connection takes its handle with it.
  unfoldable pub ensure_alive : Bool → Result Client → Step (Unit {0})
  unfolding lose_open reconnected
  ensure_alive alive fresh c =
      if alive
      then (ok tt, c)
      else reconnected fresh (record c { primary = lose_open c.primary.write_handle c.primary })

  unfoldable pub refuse_open : Option WriteHandle → Step (Unit {0})
  refuse_open none c = (ok tt, c)
  refuse_open (some h) c =
      (err (handle_state h.id "open; commit or roll it back before opening another"), c)

  unfoldable pub refuse_cursors : Step (Unit {0})
  unfolding join
  refuse_cursors c =
      if not (is_empty c.cursors)
      then (
        err (
            handle_state "cursors" (
              str_append "open on this connection (" (
                str_append (join ", " (ids c.cursors))
                  "); fetch them to the end, close them, or let them expire before opening a transaction"))),
        c,
      )
      else (ok tt, c)

  unfoldable pub begin_block : Step (Unit {0})
  unfolding query
  begin_block c =
      let (result, client) =
        executed (query (begin_statement transaction_prefix) c.primary.client) in
      (result, record c { primary = record c.primary { client = client } })

  unfoldable pub opened : String → String → Step HandleInfo
  unfolding new_write_handle describe_handle
  opened id principal c =
      let h = new_write_handle id principal in
      (
        ok (describe_handle limits probe now h),
        record c { primary = record c.primary { write_handle = some h } },
      )

  unfoldable pub begin_transaction :
      Bool → Result Client → Result (Unit {0}) → String → String → Step HandleInfo
  unfolding ensure_alive expire_write_handle refuse_open sweep_expired finish_if_idle refuse_cursors
      rollback_all begin_block opened
  begin_transaction alive fresh tracked id principal c =
      then_run (ensure_alive alive fresh c) (λ _ c.
        then_run (on_primary (expire_write_handle limits probe now) c) (λ _ c.
          then_run (refuse_open c.primary.write_handle c) (λ _ c.
            then_run (on_lane (λ lane. finish_if_idle (sweep_expired now lane)) c) (λ _ c.
              then_run (refuse_cursors c) (λ _ c. then_run (on_lane rollback_all c) (λ _ c.
                then_run (tracked, c)
                  (λ _ c. then_run (begin_block c) (λ _ c. opened id principal c))))))))
