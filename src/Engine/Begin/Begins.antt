-- ===== src/Engine/Begin/Begins.antt =====
-- What a transaction that was opened starts with, and what is left where none was opened.
use Prim.Native.String.{◌++◌ as str_append}
use ownpg.Engine.Handles.Ends.{query-sent}
use ownpg.Base.{
  ◌+◌, ◌<◌, sym, ap, ◌∷◌, ◌++◌, arith, ℕ, String, ◌≡◌, refl, ◌∙◌, ◌⊎◌, inl, inr, Bool, true, false,
  not, Option, none, some, [], leb, is_empty, Bool-cases, if-keeps,
}
use ownpg.Errors.{Result, ok, err, handle_state}
use ownpg.Engine.Commit.{Answer, row, failed, Client, Probe, query, executed}
use ownpg.Engine.Lane.{Lane, rollback_all, sent_on, finish_if_idle, sweep_expired}
use ownpg.Engine.Handles.{
  Primary, WriteHandle, HandleInfo, Limits, deadline, expire_handle, expire_open,
  expire_write_handle, execute, note_ended, note_closed,
}
use ownpg.Engine.Begin.{
  Connection, Step, then_run, lane_of, with_lane, on_lane, on_primary, new_write_handle, lose_open,
  reconnected, ensure_alive, refuse_open, refuse_cursors, begin_block, opened, begin_transaction,
  begin_statement,
}

abbrev pub handle_of : Connection → Option WriteHandle
handle_of c = c.primary.write_handle

module _ (limits : Limits) (probe : Option Probe) (transaction_prefix : Option String)
    (now : ℕ) where
  module _ (start : Connection) (id principal : String) where
    -- No handle was opened: the one that was open still is, or none is.
    abbrev Left : Connection → Type 0
    Left c = (handle_of c ≡ none) ⊎ (handle_of c ≡ handle_of start)

    -- The statement that opens a transaction block, with what the settings put behind it.
    abbrev pub IsOpening : Option String → String → Type 0
    IsOpening none sql = sql ≡ "BEGIN"
    IsOpening (some more) sql = sql ≡ str_append "BEGIN; " more

    -- The handle's time: that of an idle handle, and the limit on transactions, where one is set.
    abbrev pub HasFullTime : WriteHandle → Type 0
    HasFullTime h =
        (h.expires_at ≡ now + limits.handle_expiry)
        × (((limits.transaction_timeout ≡ 0) × (h.lifetime ≡ none) × (h.lifetime_ends_at ≡ none))
            ⊎ ((0 < limits.transaction_timeout)
                × (h.lifetime ≡ some limits.transaction_timeout)
                × (h.lifetime_ends_at ≡ some (now + limits.transaction_timeout))))

    -- The last statement that was sent opened a block, and the database answered it.
    abbrev pub HasBegun : Connection → Type 0
    HasBegun c =
        (before : Client) × (sql : String) × (first : Option String) × IsOpening transaction_prefix
          sql
        × (query sql before ≡ (row first, c.primary.client))
        × (c.primary.client.sent ≡ before.sent ++ sql ∷ [])

    abbrev pub Begins : Result HandleInfo × Connection → Type 0
    Begins (ok info, c) =
        ((h : WriteHandle) × (handle_of c ≡ some h)
          × (h.id ≡ id)
          × (h.principal ≡ principal)
          × (h.savepoints ≡ [])
          × (h.statements ≡ 0)
          × HasFullTime h)
        × (c.cursors ≡ [])
        × (c.in_read_transaction ≡ false)
        × HasBegun c
    Begins (err error, c) = Left c

    abbrev Leads : {T : Type 0} → (Connection → Type 0) → Result T × Connection → Type 0
    Leads Q (ok value, c) = Q c
    Leads Q (err error, c) = Left c

    chain :
        {T : Type 0} (Q : Connection → Type 0) (r : Result T × Connection)
        (next : T → Step HandleInfo)
        → Leads Q r
        → ((value : T) (c : Connection) → Q c → Begins (next value c))
        → Begins (then_run r next)
    chain Q (ok value, c) next h k = k value c h
    chain Q (err error, c) next h k = h

    abbrev IsFree : Connection → Type 0
    IsFree c = handle_of c ≡ none

    abbrev IsClear : Connection → Type 0
    IsClear c = (handle_of c ≡ none) × ((c.cursors ≡ []) × (c.in_read_transaction ≡ false))

    lane_kept :
        (c : Connection) (r : Result (Unit {0}) × Lane)
        → IsFree c
        → Leads IsFree (r.0, with_lane r.1 c)
    lane_kept c (ok value, lane) free = free
    lane_kept c (err error, lane) free = inl free

    abbrev IsBegun : Connection → Type 0
    IsBegun c = IsClear c × HasBegun c

    executed-Leads :
        (c : Connection) (sql : String) (r : Answer × Client)
        → IsClear c
        → IsOpening transaction_prefix sql
        → query sql c.primary.client ≡ r
        → Leads IsBegun
            ((executed r).0, record c { primary = record c.primary { client = (executed r).1 } })
    executed-Leads c sql (row first, client) h opening e =
        let sent : client.sent ≡ c.primary.client.sent ++ sql ∷ [] =
          ap (λ (x : Answer × Client). x.1.sent) (sym e) ∙ query-sent sql c.primary.client in
        (h, (c.primary.client, sql, first, opening, e, sent))
    executed-Leads c sql (failed error, client) (free, _) opening e = inl free

    begin_statement-IsOpening : (o : Option String) → IsOpening o (begin_statement o)
    begin_statement-IsOpening none = refl
    begin_statement-IsOpening (some more) = refl

    block-Leads :
        (c : Connection)
        → IsClear c
        → Leads IsBegun (begin_block limits probe transaction_prefix now c)
    unfolding begin_block
    block-Leads c h =
        executed-Leads c (begin_statement transaction_prefix) _ h
          (begin_statement-IsOpening transaction_prefix) refl

    tracked-Leads :
        (tracked : Result (Unit {0})) (c : Connection) → IsClear c → Leads IsClear (tracked, c)
    tracked-Leads (ok tt) c h = h
    tracked-Leads (err e) c (free, _) = inl free

    new_write_handle-time :
        HasFullTime (new_write_handle limits probe transaction_prefix now id principal)
    unfolding new_write_handle
    new_write_handle-time = ground arith

    opened-Begins :
        (c : Connection)
        → IsBegun c
        → Begins (opened limits probe transaction_prefix now id principal c)
    unfolding opened new_write_handle
    opened-Begins c ((_, (none_open, idle)), begun) = (
      (
        new_write_handle limits probe transaction_prefix now id principal,
        refl,
        refl,
        refl,
        refl,
        refl,
        new_write_handle-time,
      ),
      none_open,
      idle,
      begun,
    )

    sent-Leads :
        (c : Connection) (lane : Lane) (r : Result (Unit {0}) × Client)
        → IsFree c
        → lane.cursors ≡ []
        → lane.in_read_transaction ≡ false
        → Leads IsClear ((sent_on lane r).0, with_lane (sent_on lane r).1 c)
    unfolding sent_on
    sent-Leads c lane (ok value, client) free none_open idle = (free, (none_open, idle))
    sent-Leads c lane (err error, client) free none_open idle = inl free

    rollback_all-Leads : (c : Connection) → IsFree c → Leads IsClear (on_lane rollback_all c)
    unfolding rollback_all
    rollback_all-Leads c free =
        if-keeps (λ (r : Result (Unit {0}) × Lane). Leads IsClear (r.0, with_lane r.1 c))
          c.in_read_transaction
          (λ _.
            sent-Leads c (record (lane_of c) { cursors = []; in_read_transaction = false })
              (executed (query "ROLLBACK" c.primary.client)) free refl refl)
          (λ idle. (free, (refl, idle)))

    refuse_open-Leads :
        (c : Connection) (o : Option WriteHandle)
        → handle_of c ≡ o
        → Left c
        → Leads IsFree (refuse_open limits probe transaction_prefix now o c)
    unfolding refuse_open
    refuse_open-Leads c none e h = e
    refuse_open-Leads c (some handle) e h = h

    refuse_cursors-Leads :
        (c : Connection)
        → IsFree c
        → Leads IsFree (refuse_cursors limits probe transaction_prefix now c)
    unfolding refuse_cursors
    refuse_cursors-Leads c free =
        if-keeps (Leads IsFree) (not (is_empty c.cursors)) (λ _. inl free) (λ _. free)

    -- The primary connection keeps its handle or has none.
    abbrev Drops : Primary → Primary → Type 0
    Drops p q = (q.write_handle ≡ none) ⊎ (q.write_handle ≡ p.write_handle)

    expired-Drops : (h : WriteHandle) (p : Primary) → Drops p (expire_handle limits probe now h p).1
    unfolding expire_handle execute note_ended note_closed
    expired-Drops h p =
        if-keeps (λ (r : Result (Unit {0}) × Primary). Drops p r.1) p.client.closed (λ _. inl refl)
          (λ _. inl refl)

    expire_open-Drops :
        (o : Option WriteHandle) (p : Primary) → Drops p (expire_open limits probe now o p).1
    unfolding expire_open
    expire_open-Drops none p = inr refl
    expire_open-Drops (some h) p =
        if-keeps (λ (r : Result (Unit {0}) × Primary). Drops p r.1) (leb (deadline h) now)
          (λ _. expired-Drops h p) (λ _. inr refl)

    primary-Leads :
        (c : Connection) (r : Result (Unit {0}) × Primary)
        → Left c
        → Drops c.primary r.1
        → Leads Left (r.0, record c { primary = r.1 })
    primary-Leads c (ok value, p) h (inl gone) = inl gone
    primary-Leads c (ok value, p) (inl free) (inr same) = inl (same ∙ free)
    primary-Leads c (ok value, p) (inr kept) (inr same) = inr (same ∙ kept)
    primary-Leads c (err error, p) h (inl gone) = inl gone
    primary-Leads c (err error, p) (inl free) (inr same) = inl (same ∙ free)
    primary-Leads c (err error, p) (inr kept) (inr same) = inr (same ∙ kept)

    expire-Leads :
        (c : Connection) → Left c → Leads Left (on_primary (expire_write_handle limits probe now) c)
    unfolding expire_write_handle
    expire-Leads c h =
        primary-Leads c (expire_write_handle limits probe now c.primary) h
          (expire_open-Drops c.primary.write_handle c.primary)

    lose_open-free :
        (o : Option WriteHandle) (p : Primary)
        → p.write_handle ≡ o
        → (lose_open limits probe transaction_prefix now o p).write_handle ≡ none
    unfolding lose_open note_ended note_closed
    lose_open-free none p e = e
    lose_open-free (some h) p e = refl

    reconnected-Leads :
        (fresh : Result Client) (c : Connection)
        → IsFree c
        → Leads Left (reconnected limits probe transaction_prefix now fresh c)
    unfolding reconnected
    reconnected-Leads (ok client) c free = inl free
    reconnected-Leads (err error) c free = inl free

    ensure_alive-Leads :
        (alive : Bool) (fresh : Result Client)
        → Leads Left (ensure_alive limits probe transaction_prefix now alive fresh start)
    unfolding ensure_alive
    ensure_alive-Leads true fresh = inr refl
    ensure_alive-Leads false fresh =
        reconnected-Leads fresh _ (lose_open-free start.primary.write_handle start.primary refl)

    begins :
        (alive : Bool) (fresh : Result Client) (tracked : Result (Unit {0}))
        → Begins (
            begin_transaction limits probe transaction_prefix now alive fresh tracked id principal
              start)
    unfolding begin_transaction
    begins alive fresh tracked =
        chain Left (ensure_alive limits probe transaction_prefix now alive fresh start) _
          (ensure_alive-Leads alive fresh)
          (λ _ c h.
            chain Left (on_primary (expire_write_handle limits probe now) c) _ (expire-Leads c h)
              (λ _ c h.
                chain IsFree (refuse_open limits probe transaction_prefix now (handle_of c) c) _
                  (refuse_open-Leads c (handle_of c) refl h)
                  (λ _ c free.
                    chain IsFree (on_lane (λ lane. finish_if_idle (sweep_expired now lane)) c) _
                      (lane_kept c (finish_if_idle (sweep_expired now (lane_of c))) free)
                      (λ _ c free.
                        chain IsFree (refuse_cursors limits probe transaction_prefix now c) _
                          (refuse_cursors-Leads c free)
                          (λ _ c free.
                            chain IsClear (on_lane rollback_all c) _ (rollback_all-Leads c free)
                              (λ _ c clear.
                                chain IsClear (tracked, c) _ (tracked-Leads tracked c clear)
                                  (λ _ c clear.
                                    chain IsBegun
                                      (begin_block limits probe transaction_prefix now c) _
                                      (block-Leads c clear)
                                      (λ _ c begun. opened-Begins c begun))))))))

  -- While a handle is open in time on a connection that is alive, no second one is opened.
  abbrev pub Second : Bool → Option WriteHandle → Result HandleInfo × Connection → Type 0
  Second true (some h) r =
      (leb (deadline h) now ≡ true)
      ⊎ (r.0 ≡ err (handle_state h.id "open; commit or roll it back before opening another"))
  Second alive o r = Unit

  abbrev with_open : Option WriteHandle → Connection → Connection
  with_open o c = record c { primary = record c.primary { write_handle = o } }

  seconds :
      (id principal : String) (alive : Bool) (fresh : Result Client) (tracked : Result (Unit {0}))
      (o : Option WriteHandle) (c : Connection)
      → Second alive o (
          begin_transaction limits probe transaction_prefix now alive fresh tracked id principal
            (with_open o c))
  unfolding begin_transaction ensure_alive expire_write_handle expire_open refuse_open
  seconds id principal false fresh tracked o c = tt
  seconds id principal true fresh tracked none c = tt
  seconds id principal true fresh tracked (some h) c = elim (Bool-cases (leb (deadline h) now)) [
    | inl late ↦ inl late
    | inr in_time ↦ inr (rw in_time refl)
  ]

  -- A transaction that is opened has a new handle with the id that was given and its owner, with no
  -- savepoints and no statements, which ends after the idle time and after the limit on transactions,
  -- where one is set; the connection has no cursors and no read transaction, and the last statement
  -- sent to it is the BEGIN, which was answered. Where none is opened, the handle that was open still
  -- is, or there is none. While a handle is open in time on a connection that is alive, no second one
  -- is opened.
  pub begin_transaction-Begins :
      (start : Connection) (id principal : String) (alive : Bool) (fresh : Result Client)
      (tracked : Result (Unit {0}))
      → let r =
          begin_transaction limits probe transaction_prefix now alive fresh tracked id principal
            start in
        Begins start id principal r × Second alive (handle_of start) r
  begin_transaction-Begins start id principal alive fresh tracked = (
    begins start id principal alive fresh tracked,
    seconds id principal alive fresh tracked (handle_of start) start,
  )
