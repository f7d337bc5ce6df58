-- ===== src/Engine/Handles/Ends.antt =====
-- How a transaction handle ends.
use mathlib.Core.Path.{subst}
use ownpg.Base.{
  ℕ, String, ◌≡◌, refl, sym, ◌∙◌, ◌⊎◌, inl, inr, Bool, true, true≢false, Option, none, some, List,
  [], ◌∷◌, ◌++◌, ◌==◌, leb, eq_iff, if-keeps,
}
use ownpg.Errors.{Error, Result, ok, err}
use ownpg.Engine.Commit.{Answer, row, failed, Client, Probe, query, executed}
use ownpg.Engine.Handles.{
  HandleState, lost, rolled_back, expired, HandleInfo, WriteHandle, Primary, Limits, deadline,
  get_closed, Outcome, then_run, checked, check_handle, note_ended, note_closed, execute,
  expiry_reason, expire_handle, expire_open, expire_write_handle, finish_open, with_checked,
  finish_transaction,
}

-- The server with this open handle.
abbrev pub holding : WriteHandle → Primary → Primary
holding h p = record p { write_handle = some h }

same_text : (s : String) → (s == s) ≡ true
same_text s = (eq_iff s s).1 refl

answered_sent :
    (sql : String) (c : Client) (answers : List (Answer × Bool))
    → (query sql (record c { answers = answers })).1.sent ≡ c.sent ++ sql ∷ []
unfolding query
answered_sent sql c [] = refl
answered_sent sql c (a ∷ rest) = refl

pub query-sent : (sql : String) (c : Client) → (query sql c).1.sent ≡ c.sent ++ sql ∷ []
query-sent sql c = answered_sent sql c c.answers

module _ (limits : Limits) (probe : Option Probe) (now : ℕ) where
  -- The handle is gone, and it is remembered how it ended.
  abbrev pub ClosedAs : String → HandleState → Primary → Type 0
  ClosedAs id state p =
      (p.write_handle ≡ none)
      × (get_closed id p.closed ≡ some (record { state = state; closed_at = now }))

  abbrev pub Ended : String → HandleState → Outcome HandleInfo → Type 0
  Ended id state (ok info, p) = ClosedAs id state p × (info.state ≡ state)
  Ended id state (err error, p) = ClosedAs id lost p ⊎ ClosedAs id rolled_back p

  note_closed-ClosedAs :
      (id : String) (state : HandleState) (p : Primary)
      → p.write_handle ≡ none
      → ClosedAs id state (note_closed limits probe now id state p)
  unfolding note_closed get_closed
  note_closed-ClosedAs id state p gone = (gone, rw (same_text id) refl)

  -- The call was not cancelled and ended the handle, or it was and left everything as it was.
  abbrev pub Ends :
      Result (Unit {0}) → WriteHandle → HandleState → Primary → Outcome HandleInfo → Type 0
  Ends tracked h state p r =
      ((tracked ≡ ok tt) × Ended h.id state r)
      ⊎ ((e : Error) × (tracked ≡ err e) × (r ≡ (err e, holding h p)))

  abbrev pub Rejected : WriteHandle → Primary → Outcome HandleInfo → Type 0
  Rejected h p (ok info, p') = ⊥
  Rejected h p (err error, p') =
      ClosedAs h.id expired p'
      × ((p'.client.sent ≡ p.client.sent) ⊎ (p'.client.sent ≡ p.client.sent ++ "ROLLBACK" ∷ []))

  -- What an expired handle leaves: it is gone, and at most ROLLBACK was sent.
  gone-Rejected :
      (id principal : String) (next : WriteHandle → Primary → Outcome HandleInfo) (h : WriteHandle)
      (p q : Primary)
      → ClosedAs h.id expired q
      → ((q.client.sent ≡ p.client.sent) ⊎ (q.client.sent ≡ p.client.sent ++ "ROLLBACK" ∷ []))
      → Rejected h p (with_checked limits probe now id principal next q)
  unfolding with_checked check_handle checked
  gone-Rejected id principal next h p q closed sent =
      subst (λ (o : Option WriteHandle). Rejected h p (then_run (checked id principal q o, q) next))
        (sym closed.0) (closed, sent)

  rolled_back-Rejected :
      (id principal : String) (next : WriteHandle → Primary → Outcome HandleInfo) (h : WriteHandle)
      (p q : Primary) (r : Answer × Client)
      → ClosedAs h.id expired q
      → r.1.sent ≡ p.client.sent ++ "ROLLBACK" ∷ []
      → Rejected h p (
          then_run
            ((executed r).0, record q { client = (executed r).1 })
            (λ _ q. with_checked limits probe now id principal next q))
  rolled_back-Rejected id principal next h p q (row first, c) closed sent =
      gone-Rejected id principal next h p (record q { client = c }) closed (inr sent)
  rolled_back-Rejected id principal next h p q (failed e, c) closed sent = (closed, inr sent)

  -- A transaction whose handle has expired is never committed: whoever asks for its end gets an error,
  -- the handle is gone, and at most a ROLLBACK was sent to the database.
  pub finish_transaction-Rejected :
      (tracked : Result (Unit {0})) (id principal statement : String) (state : HandleState)
      (h : WriteHandle) (p : Primary)
      → leb (deadline h) now ≡ true
      → Rejected h p
          (finish_transaction limits probe now tracked id principal statement state (holding h p))
  unfolding finish_transaction expire_write_handle expire_open expire_handle execute note_ended
  finish_transaction-Rejected tracked id principal statement state h p late =
      let next = λ (h' : WriteHandle) (q : Primary).
        then_run (tracked, q) (λ _ p. finish_open limits probe now id statement state h' p) in
      let then_finish =
        λ (u : Unit {0}) (q : Primary). with_checked limits probe now id principal next q in
      let P = λ (r : Outcome (Unit {0})). Rejected h p (then_run r then_finish) in
      let gone = note_ended h expired (expiry_reason h now) (record p { write_handle = none }) in
      let q = note_closed limits probe now h.id expired gone in
      let closed = note_closed-ClosedAs h.id expired gone refl in
      if-keeps P (leb (deadline h) now)
        (λ _.
          if-keeps P p.client.closed (λ _. gone-Rejected id principal next h p q closed (inl refl))
            (λ _.
              rolled_back-Rejected id principal next h p q (query "ROLLBACK" p.client) closed
                (query-sent "ROLLBACK" p.client)))
        (λ early. absurd (true≢false (sym late ∙ early)))
