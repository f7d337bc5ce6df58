-- ===== src/Confirm/Decides.antt =====
-- When the gate lets a destructive statement run.
use ownpg.Base.{
  ◌≤◌, String, ◌≡◌, refl, ◌≢◌, ◌⊎◌, inl, inr, Bool, true, false, Option, none, some, arith, eq_iff,
  Option-cases, if◌then◌else◌,
}
use ownpg.Errors.{Result, ok, err}
use ownpg.Classify.Statement.{Classification}
use ownpg.Confirm.{
  Pending, Gate, Codec, Call, Opened, opened, invalid, Outcome, done, proceed, Decision,
  confirmed_argument, confirmed_elicitation, Answer, accepted, declined, missing, matches, consume,
  answer, answered, consumed_outcome, with_destructive, matched, reopened, resumed, plain,
  pass_rule, ask_for, check_destructive, check, pending_format,
}

-- The state that came back was sealed by this version, for this tool, statement, caller and
-- database, after the gate started.
pub record IsFor (self : Gate) (pending : Pending) (tool sql principal target : String)
    : Type 0 where
  pub format : pending.v ≡ pending_format
  pub tool_eq : pending.tool ≡ tool
  pub sql_eq : pending.sql_sha256 ≡ sql
  pub principal_eq : pending.principal ≡ principal
  pub target_eq : pending.target ≡ target
  pub fresh : self.started_at ≤ pending.issued_at

pub matches-IsFor :
    (self : Gate) (pending : Pending) (tool sql principal target : String)
    → matches self pending tool sql principal target ≡ ok tt
    → IsFor self pending tool sql principal target
unfolding matches
matches-IsFor self pending tool sql principal target h = ground (
  arith,
  eq_iff pending.tool tool,
  eq_iff pending.sql_sha256 sql,
  eq_iff pending.principal principal,
  eq_iff pending.target target,
)

-- The statement was confirmed at the prompt: the state opens, fits the call, the answer accepts,
-- and its nonce was fresh.
pub record IsConfirmed (self : Gate) (codec : Codec) (call : Call) (tool : String)
    (c : Classification) : Type 0 where
  pub state : String
  pub pending : Pending
  pub returned : call.request_state ≡ some state
  pub opens : codec.open_json state ≡ opened pending
  pub fits : IsFor self pending tool c.sql_sha256 call.principal call.target
  pub accepts : answer codec.accepts call.response ≡ accepted
  pub unused : (consume self call.instant pending.nonce).0 ≡ ok tt

ask-not-proceed :
    (codec : Codec) (call : Call) (tool : String) (c : Classification) (rule : String)
    (d : Decision)
    → ask_for codec call tool c rule ≢ done (proceed d)
unfolding ask_for
ask-not-proceed codec call tool c rule d = ground arith

-- The outcome is that of a confirmation at the prompt, whose nonce the gate has now consumed.
pub record Settles (self : Gate) (codec : Codec) (call : Call) (tool : String) (c : Classification)
    (after : Gate) : Type 0 where
  pub confirmed : IsConfirmed self codec call tool c
  pub consumed : after ≡ (consume self call.instant confirmed.pending.nonce).1

module _ (self : Gate) (codec : Codec) (call : Call) (tool : String) (c : Classification)
    (rule : String) (d : Decision) where
  answered_proceeds :
      (pending : Pending) (a : Answer)
      → (answered self codec call tool c rule pending a).0 ≡ done (proceed d)
      → (a ≡ accepted)
        × ((consume self call.instant pending.nonce).0 ≡ ok tt)
        × (d ≡ confirmed_elicitation)
        × ((answered self codec call tool c rule pending a).1
            ≡ (consume self call.instant pending.nonce).1)
  unfolding answered
  answered_proceeds pending accepted h =
      let (unused, d_is, same) = settled (consume self call.instant pending.nonce) h in
      (refl, unused, d_is, same)
    where
      settled :
          (out : Result (Unit {0}) × Gate)
          → (consumed_outcome out).0 ≡ done (proceed d)
          → (out.0 ≡ ok tt) × (d ≡ confirmed_elicitation) × ((consumed_outcome out).1 ≡ out.1)
      settled (ok tt, g) k = (refl, ground arith, refl)
      settled (err e, g) k = cc
  answered_proceeds pending declined h = cc
  answered_proceeds pending missing h = absurd (ask-not-proceed codec call tool c rule d h)

  matched_proceeds :
      (state : String) (pending : Pending) (r : Result (Unit {0}))
      → call.request_state ≡ some state
      → codec.open_json state ≡ opened pending
      → matches self pending tool c.sql_sha256 call.principal call.target ≡ r
      → (matched self codec call tool c rule pending r).0 ≡ done (proceed d)
      → Settles self codec call tool c (matched self codec call tool c rule pending r).1
        × (d ≡ confirmed_elicitation)
  matched_proceeds state pending (err e) returned opens fits h = cc
  matched_proceeds state pending (ok tt) returned opens fits h =
      let (accepts, unused, d_is, same) =
        answered_proceeds pending (answer codec.accepts call.response) h in
      (
        record {
          confirmed = record {
            state = state;
            pending = pending;
            returned = returned;
            opens = opens;
            fits = matches-IsFor self pending tool c.sql_sha256 call.principal call.target fits;
            accepts = accepts;
            unused = unused;
          };
          consumed = same;
        },
        d_is,
      )

  reopened_proceeds :
      (state : String) (o : Opened)
      → call.request_state ≡ some state
      → codec.open_json state ≡ o
      → (reopened self codec call tool c rule o).0 ≡ done (proceed d)
      → Settles self codec call tool c (reopened self codec call tool c rule o).1
        × (d ≡ confirmed_elicitation)
  reopened_proceeds state (invalid reason) returned opens h = cc
  reopened_proceeds state (opened pending) returned opens h =
      matched_proceeds state pending
        (matches self pending tool c.sql_sha256 call.principal call.target) returned opens refl h

  pub resumed_proceeds :
      (o : Option String)
      → call.request_state ≡ o
      → (resumed self codec call tool c rule o).0 ≡ done (proceed d)
      → Settles self codec call tool c (resumed self codec call tool c rule o).1
        × (d ≡ confirmed_elicitation)
  resumed_proceeds (some state) returned h =
      reopened_proceeds state (codec.open_json state) returned refl h
  resumed_proceeds none returned h = absurd (unasked call.can_elicit h)
    where
      unasked :
          (b : Bool)
          → (if◌then◌else◌ {A = Outcome × Gate} b
              (ask_for codec call tool c rule, self)
              (plain (pass_rule rule), self)).0
            ≡ done (proceed d)
          → ⊥
      unasked true k = ask-not-proceed codec call tool c rule d k
      unasked false k = cc

-- A destructive statement runs only if the call confirms it, or if it was confirmed at the prompt.
pub check_proceeds :
    (self : Gate) (codec : Codec) (call : Call) (tool : String) (c : Classification)
    (confirm : Bool) (d : Decision)
    → c.destructive_reason ≢ none
    → (check self codec call tool c confirm).0 ≡ done (proceed d)
    → ((confirm ≡ true) × (d ≡ confirmed_argument))
      ⊎ (IsConfirmed self codec call tool c × (d ≡ confirmed_elicitation))
unfolding check_destructive
check_proceeds self codec call tool c confirm d destroys h =
    elim (Option-cases c.destructive_reason) [
      | inl harmless ↦ absurd (destroys harmless)
      | inr (rule, why) ↦ with_rule rule confirm (unfold check in rw (why, check) at h)
    ]
  where
    with_rule :
        (rule : String) (b : Bool)
        → (if b
            then (done (proceed confirmed_argument), self)
            else check_destructive self codec call tool c rule).0
          ≡ done (proceed d)
        → ((b ≡ true) × (d ≡ confirmed_argument))
          ⊎ (IsConfirmed self codec call tool c × (d ≡ confirmed_elicitation))
    with_rule rule true k = inl (refl, ground arith)
    with_rule rule false k =
        let (settles, d_is) =
          resumed_proceeds self codec call tool c rule d call.request_state refl k in
        inr (settles.confirmed, d_is)

-- A confirmation at the prompt leaves the gate with its nonce consumed.
pub check-Settles :
    (self : Gate) (codec : Codec) (call : Call) (tool : String) (c : Classification)
    (confirm : Bool)
    → (check self codec call tool c confirm).0 ≡ done (proceed confirmed_elicitation)
    → Settles self codec call tool c (check self codec call tool c confirm).1
unfolding check
check-Settles self codec call tool c confirm h = with_reason c.destructive_reason h
  where
    with_confirm :
        (rule : String) (b : Bool)
        → (if◌then◌else◌ {A = Outcome × Gate} b
            (done (proceed confirmed_argument), self)
            (check_destructive self codec call tool c rule)).0
          ≡ done (proceed confirmed_elicitation)
        → Settles self codec call tool c
            (if◌then◌else◌ {A = Outcome × Gate} b
              (done (proceed confirmed_argument), self)
              (check_destructive self codec call tool c rule)).1
    with_confirm rule true k = cc
    with_confirm rule false k =
        (resumed_proceeds self codec call tool c rule confirmed_elicitation call.request_state refl
          k).0

    with_reason :
        (o : Option String)
        → (with_destructive self codec call tool c confirm o).0
          ≡ done (proceed confirmed_elicitation)
        → Settles self codec call tool c (with_destructive self codec call tool c confirm o).1
    with_reason none k = cc
    with_reason (some rule) k = with_confirm rule confirm k
