-- ===== src/Engine/Handles.antt =====
-- The transaction handle of a server without a pool: `WriteHandle` and the methods `commit`,
-- `rollback`, `savepoint`, `rollback_to` and `transaction_status` of
-- crates/ownpg-core/src/engine.rs. The clock stands still during a call; instants and durations are in
-- milliseconds. What `track` answers, which registers the call for cancellation and fails where it
-- was cancelled, is a parameter of each method. The second lane is left out.
pub mod Ends
pub mod Tests
use Prim.Native.Nat.{◌/◌}
use Prim.Native.String.{◌++◌ as str_append}
use ownpg.Base.{
  ℕ, suc, ◌+◌, ◌-◌, String, Bool, true, false, Option, none, some, List, [], ◌∷◌, ◌++◌, ◌==◌, leb,
  ltb, eqb, length, if◌then◌else◌,
}
use ownpg.Errors.{Error, Result, ok, err, handle_state}
use ownpg.Render.{quote_ident}
use ownpg.Engine.Savepoints.{check_savepoint, truncate_savepoints}
use ownpg.Engine.Commit.{Client, Probe, query, executed, finish_block}

pub data HandleState : Type 0 where
  open_handle expired committed rolled_back lost : HandleState

unfoldable pub as_str : HandleState → String
as_str open_handle = "open"
as_str expired = "expired"
as_str committed = "committed"
as_str rolled_back = "rolled_back"
as_str lost = "lost"

pub data EndReason : Type 0 where
  idle_expiry transaction_timeout connection_lost shutdown : EndReason

pub record HandleInfo : Type 0 where
  pub id : String
  pub state : HandleState
  pub principal : String
  pub savepoints : List String
  pub statements : ℕ
  pub expires_in_seconds : ℕ

pub record EndedHandle : Type 0 where
  pub id : String
  pub principal : String
  pub state : HandleState
  pub reason : EndReason

pub record ClosedHandle : Type 0 where
  pub state : HandleState
  pub closed_at : ℕ

pub record WriteHandle : Type 0 where
  pub id : String
  pub principal : String
  pub savepoints : List String
  pub statements : ℕ
  pub expires_at : ℕ
  pub lifetime : Option ℕ
  pub lifetime_ends_at : Option ℕ

-- The part of `Primary` and of `Engine` that the methods read and change.
pub record Primary : Type 0 where
  pub write_handle : Option WriteHandle
  pub closed : List (String × ClosedHandle)
  pub client : Client
  pub ended : List EndedHandle

pub record Limits : Type 0 where
  pub handle_expiry : ℕ
  pub transaction_timeout : ℕ

abbrev min : ℕ → ℕ → ℕ
min a b = if leb a b then a else b

abbrev max : ℕ → ℕ → ℕ
max a b = if leb a b then b else a

unfoldable pub deadline : WriteHandle → ℕ
deadline h = elim h.lifetime_ends_at [ none ↦ h.expires_at | some end ↦ min end h.expires_at ]

unfoldable pub outlived : WriteHandle → ℕ → Bool
outlived h now = elim h.lifetime_ends_at [ none ↦ false | some end ↦ leb end now ]

abbrev pub timeout_headroom : ℕ
timeout_headroom = 5000

abbrev later_end : Option ℕ → ℕ → Option ℕ
later_end none rearmed = none
later_end (some end) rearmed = some (max end rearmed)

-- When the lifetime ends after a call, which may have a timeout of its own.
abbrev rearmed_end : Option ℕ → Option (ℕ × ℕ) → Option ℕ → Option ℕ
rearmed_end (some lifetime) (some (started, per_call)) end =
    later_end end (started + max lifetime (per_call + timeout_headroom))
rearmed_end _ _ end = end

unfoldable pub touch : ℕ → ℕ → Option (ℕ × ℕ) → WriteHandle → WriteHandle
touch now idle call h = record h {
  expires_at = now + idle;
  lifetime_ends_at = rearmed_end h.lifetime call h.lifetime_ends_at;
}

unfoldable pub expiry_reason : WriteHandle → ℕ → EndReason
unfolding outlived
expiry_reason h now = if outlived h now then transaction_timeout else idle_expiry

abbrev pub ended_handle_cap : ℕ
ended_handle_cap = 256

abbrev pop_front : List EndedHandle → List EndedHandle
pop_front [] = []
pop_front (e ∷ es) = es

unfoldable pub note_ended : WriteHandle → HandleState → EndReason → Primary → Primary
note_ended h state reason p =
    let kept = if leb ended_handle_cap (length p.ended) then pop_front p.ended else p.ended in
    record p {
      ended =
          kept
          ++ record { id = h.id; principal = h.principal; state = state; reason = reason } ∷ [];
    }

-- The entries that are young enough, without the one of this handle.
unfoldable pub retain : ℕ → ℕ → String → List (String × ClosedHandle) → List (String × ClosedHandle)
retain now keep id [] = []
retain now keep id ((known, entry) ∷ rest) =
    let others = retain now keep id rest in
    if known == id
    then others
    else if ltb (now - entry.closed_at) keep
    then (known, entry) ∷ others
    else others

unfoldable pub get_closed : String → List (String × ClosedHandle) → Option ClosedHandle
get_closed id [] = none
get_closed id ((known, entry) ∷ rest) = if known == id then some entry else get_closed id rest

abbrev pub owned_by_another : String → Error
owned_by_another id = handle_state id "owned by another principal"

abbrev pub lost_handle : String → Error
lost_handle id = handle_state id "lost"

unfoldable pub state_text : Option ClosedHandle → String
unfolding as_str
state_text none = "unknown"
state_text (some entry) = as_str entry.state

unfoldable pub not_here : String → Primary → Error
unfolding as_str get_closed
not_here id p = handle_state id (state_text (get_closed id p.closed))

unfoldable pub checked : String → String → Primary → Option WriteHandle → Result WriteHandle
unfolding as_str get_closed
checked id principal p none = err (not_here id p)
checked id principal p (some h) =
    if h.id == id
    then if h.principal == principal then ok h else err (owned_by_another id)
    else err (not_here id p)

-- Whose handle this is, and whether it is the open one.
unfoldable pub check_handle : String → String → Primary → Result WriteHandle
unfolding as_str get_closed
check_handle id principal p = checked id principal p p.write_handle

abbrev pub Outcome : Type 0 → Type 0
Outcome T = Result T × Primary

abbrev pub then_run : {T U : Type 0} → Outcome T → (T → Primary → Outcome U) → Outcome U
then_run (err stop, p) next = (err stop, p)
then_run (ok value, p) next = next value p

module _ (limits : Limits) (probe : Option Probe) (now : ℕ) where
  unfoldable pub note_closed : String → HandleState → Primary → Primary
  unfolding retain
  note_closed id state p = record p {
    closed =
        (id, record { state = state; closed_at = now })
        ∷ retain now limits.handle_expiry id p.closed;
  }

  unfoldable pub describe_handle : WriteHandle → HandleInfo
  unfolding deadline
  describe_handle h = record {
    id = h.id;
    state = open_handle;
    principal = h.principal;
    savepoints = h.savepoints;
    statements = h.statements;
    expires_in_seconds = (deadline h - now) / 1000;
  }

  -- One statement of a method.
  unfoldable pub execute : String → Primary → Outcome (Unit {0})
  unfolding query
  execute sql p =
      let (result, client) = executed (query sql p.client) in (result, record p { client = client })

  unfoldable pub expire_handle : WriteHandle → Primary → Outcome (Unit {0})
  unfolding note_ended note_closed expiry_reason execute
  expire_handle h p =
      let p' =
        note_closed h.id expired
          (note_ended h expired (expiry_reason h now) (record p { write_handle = none })) in
      if p'.client.closed then (ok tt, p') else execute "ROLLBACK" p'

  unfoldable pub expire_open : Option WriteHandle → Primary → Outcome (Unit {0})
  unfolding deadline expire_handle
  expire_open none p = (ok tt, p)
  expire_open (some h) p = if leb (deadline h) now then expire_handle h p else (ok tt, p)

  unfoldable pub expire_write_handle : Primary → Outcome (Unit {0})
  unfolding deadline expire_handle
  expire_write_handle p = expire_open p.write_handle p

  unfoldable pub finished :
      WriteHandle → HandleState → Result (Unit {0}) × Client → Primary → Outcome HandleInfo
  unfolding note_closed describe_handle
  finished h state (ok value, client) p = (
    ok (record (describe_handle h) { state = state; expires_in_seconds = 0 }),
    note_closed h.id state (record p { write_handle = none; client = client }),
  )
  finished h state (err error, client) p = (
    err error,
    note_closed h.id (if client.closed then lost else rolled_back)
        (record p { write_handle = none; client = client }),
  )

  unfoldable pub finish_open :
      String → String → HandleState → WriteHandle → Primary → Outcome HandleInfo
  unfolding note_closed finish_block describe_handle
  finish_open id statement state h p =
      if p.client.closed
      then (err (lost_handle id), note_closed h.id lost (record p { write_handle = none }))
      else finished h state (finish_block probe id statement p.client) p

  unfoldable pub with_checked :
      {T : Type 0} → String → String → (WriteHandle → Primary → Outcome T) → Primary → Outcome T
  unfolding check_handle
  with_checked id principal next p = then_run (check_handle id principal p, p) next

  -- `finish_transaction`, which `commit` and `rollback` call.
  unfoldable pub finish_transaction :
      Result (Unit {0}) → String → String → String → HandleState → Primary → Outcome HandleInfo
  unfolding expire_write_handle check_handle finish_block note_closed describe_handle
  finish_transaction tracked id principal statement state p =
      then_run (expire_write_handle p) (λ _ p.
        with_checked id principal
          (λ h p. then_run (tracked, p) (λ _ p. finish_open id statement state h p)) p)

  unfoldable pub commit : Result (Unit {0}) → String → String → Primary → Outcome HandleInfo
  unfolding finish_transaction
  commit tracked id principal p = finish_transaction tracked id principal "COMMIT" committed p

  unfoldable pub rollback : Result (Unit {0}) → String → String → Primary → Outcome HandleInfo
  unfolding finish_transaction
  rollback tracked id principal p = finish_transaction tracked id principal "ROLLBACK" rolled_back p

  -- What `savepoint` and `rollback_to` share: a check of the handle, a statement, and then a change of
  -- the handle, which is looked up again.
  unfoldable pub on_handle :
      Result (Unit {0})
      → String
      → String
      → (WriteHandle → Result (Unit {0}))
      → (WriteHandle → WriteHandle)
      → String
      → Primary
      → Outcome HandleInfo
  unfolding expire_write_handle with_checked execute touch describe_handle
  on_handle tracked id principal check change statement p = then_run (expire_write_handle p) (λ _ p.
      with_checked id principal
        (λ h p.
          then_run (check h, p)
            (λ _ p.
              then_run (tracked, p)
                (λ _ p. then_run (execute statement p) (λ _ p.
                  with_checked id principal
                    (λ h p.
                      (let h' = touch now limits.handle_expiry none (change h) in
                        (ok (describe_handle h'), record p { write_handle = some h' })))
                    p))))
        p)

  abbrev push_savepoint : String → WriteHandle → WriteHandle
  push_savepoint name h = record h { savepoints = h.savepoints ++ name ∷ [] }

  unfoldable pub savepoint :
      Result (Unit {0}) → String → String → String → Primary → Outcome HandleInfo
  unfolding on_handle
  savepoint tracked id principal name p =
      on_handle tracked id principal (λ h. ok tt) (push_savepoint name)
        (str_append "SAVEPOINT " (quote_ident name)) p

  unfoldable pub rollback_to :
      Result (Unit {0}) → String → String → String → Primary → Outcome HandleInfo
  unfolding on_handle check_savepoint truncate_savepoints
  rollback_to tracked id principal name p =
      on_handle tracked id principal (λ h. check_savepoint h.savepoints id name)
        (λ h. record h { savepoints = truncate_savepoints h.savepoints name })
        (str_append "ROLLBACK TO SAVEPOINT " (quote_ident name)) p

  unfoldable pub lose_handle : Option WriteHandle → Primary → Primary
  unfolding note_ended note_closed
  lose_handle none p = p
  lose_handle (some h) p =
      if p.client.closed
      then note_closed h.id lost
          (note_ended h lost connection_lost (record p { write_handle = none }))
      else p

  abbrev closed_info : String → ClosedHandle → HandleInfo
  closed_info id entry = record {
    id = id;
    state = entry.state;
    principal = "";
    savepoints = [];
    statements = 0;
    expires_in_seconds = 0;
  }

  unfoldable pub closed_handle_info : String → Option ClosedHandle → Result HandleInfo
  closed_handle_info id none = err (handle_state id "unknown")
  closed_handle_info id (some entry) = ok (closed_info id entry)

  unfoldable pub status_of : String → String → Option WriteHandle → Primary → Result HandleInfo
  unfolding get_closed closed_handle_info describe_handle
  status_of id principal none p = closed_handle_info id (get_closed id p.closed)
  status_of id principal (some h) p =
      if h.id == id
      then if h.principal == principal then ok (describe_handle h) else err (owned_by_another id)
      else closed_handle_info id (get_closed id p.closed)

  unfoldable pub transaction_status : String → String → Primary → Outcome HandleInfo
  unfolding expire_write_handle lose_handle status_of
  transaction_status id principal p = then_run (expire_write_handle p) (λ _ p.
      (let p' = lose_handle p.write_handle p in (status_of id principal p'.write_handle p', p')))
