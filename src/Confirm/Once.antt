-- ===== src/Confirm/Once.antt =====
-- A confirmation at the prompt is used once.
use ownpg.Base.{
  ℕ, ◌+◌, ◌-◌, ◌≤◌, String, ◌≡◌, refl, ◌≢◌, ◌⊎◌, inl, inr, Bool, true, false, Option, none, some,
  List, [], ◌∷◌, arith, In, In-append_left, In-append_right, All, ltb, Bool-cases, if-keeps, ap,
  sym, ◌∙◌,
}
use ownpg.Errors.{Result, ok, err}
use ownpg.Classify.Statement.{Classification}
use ownpg.Confirm.Decides.{check-Settles}
use ownpg.Confirm.{
  Pending, Gate, Codec, Call, opened, Outcome, done, proceed, confirmed_elicitation, Answer, Opened,
  invalid, accepted, declined, missing, confirmation_ttl, forget_old, is_used, consume,
  consumed_outcome, answered, matched, reopened, resumed, check_destructive, with_destructive,
  check, matches, answer,
}

-- The use of `nonce` at the instant `at` is still in the ledger.
record Remembers (nonce at : ℕ) (g : Gate) : Type 0 where
  entry : In (nonce, at) g.consumed
  sound : g.poisoned ≡ false

forget_old-In :
    (nonce at now : ℕ) (entries : List (ℕ × ℕ))
    → now ≤ at + confirmation_ttl
    → In (nonce, at) entries
    → In (nonce, at) (forget_old now entries)
unfolding forget_old
forget_old-In nonce at now [] soon h = h
forget_old-In nonce at now ((n, t) ∷ rest) soon (inl same) =
    let times : at ≡ t = ap (λ (e : ℕ × ℕ). e.1) same in
    let young : ltb confirmation_ttl (now - t) ≡ false = ground arith in rw young (inl same)
forget_old-In nonce at now ((n, t) ∷ rest) soon (inr h) =
    if-keeps {A = List (ℕ × ℕ)} (In (nonce, at)) (ltb confirmation_ttl (now - t))
      (λ _. forget_old-In nonce at now rest soon h) (λ _. inr h)

is_used_of_In :
    (nonce at : ℕ) (entries : List (ℕ × ℕ)) → In (nonce, at) entries → is_used nonce entries ≡ true
is_used_of_In nonce at [] h = absurd h
is_used_of_In nonce at ((n, t) ∷ rest) (inl same) =
    let nonces : nonce ≡ n = ap (λ (e : ℕ × ℕ). e.0) same in ground arith
is_used_of_In nonce at ((n, t) ∷ rest) (inr h) = ground (arith, is_used_of_In nonce at rest h)

-- A nonce that is remembered is refused.
consume_used :
    (g : Gate) (nonce at now : ℕ)
    → now ≤ at + confirmation_ttl
    → Remembers nonce at g
    → (consume g now nonce).0 ≢ ok tt
unfolding consume
consume_used g nonce at now soon r =
    rw (r.sound, is_used_of_In nonce at _ (forget_old-In nonce at now g.consumed soon r.entry)) (cc)

consume-Remembers_self :
    (g : Gate) (nonce now : ℕ)
    → (consume g now nonce).0 ≡ ok tt
    → Remembers nonce now (consume g now nonce).1
unfolding consume
consume-Remembers_self g nonce now h = elim (Bool-cases g.poisoned) [
  | inl broken ↦ absurd (ground arith)
  | inr sound ↦ elim (Bool-cases (is_used nonce (forget_old now g.consumed))) [
    | inl used ↦ absurd (ground arith)
    | inr unused ↦
        rw (sound, unused)
          (record {
            entry = In-append_right (nonce, now) (forget_old now g.consumed) _ (inl refl);
            sound = refl;
          })
  ]
]

consume-Remembers :
    (g : Gate) (nonce at other now : ℕ)
    → now ≤ at + confirmation_ttl
    → Remembers nonce at g
    → Remembers nonce at (consume g now other).1
unfolding consume
consume-Remembers g nonce at other now soon r =
    let kept = forget_old-In nonce at now g.consumed soon r.entry in
    rw r.sound (elim (Bool-cases (is_used other (forget_old now g.consumed))) [
      | inl used ↦ rw used (record { entry = kept; sound = refl })
      | inr unused ↦
          rw unused (record { entry = In-append_left (nonce, at) _ _ kept; sound = refl })
    ])

-- What a check does to the gate: nothing, or the consumption of one nonce.
IsSpent : Gate → ℕ → Gate → Type 0
IsSpent g now g' = (g' ≡ g) ⊎ ((n : ℕ) × (g' ≡ (consume g now n).1))

module _ (g : Gate) (codec : Codec) (call : Call) (tool : String) (c : Classification)
    (rule : String) where
  settled-IsSpent :
      (n : ℕ) (out : Result (Unit {0}) × Gate)
      → out ≡ consume g call.instant n
      → IsSpent g call.instant (consumed_outcome out).1
  unfolding IsSpent
  settled-IsSpent n (ok tt, g') e = inr (n, ap (λ (o : Result (Unit {0}) × Gate). o.1) e)
  settled-IsSpent n (err x, g') e = inr (n, ap (λ (o : Result (Unit {0}) × Gate). o.1) e)

  answered-IsSpent :
      (pending : Pending) (a : Answer)
      → IsSpent g call.instant (answered g codec call tool c rule pending a).1
  unfolding answered IsSpent
  answered-IsSpent pending accepted =
      settled-IsSpent pending.nonce (consume g call.instant pending.nonce) refl
  answered-IsSpent pending declined = inl refl
  answered-IsSpent pending missing = inl refl

  matched-IsSpent :
      (pending : Pending) (r : Result (Unit {0}))
      → IsSpent g call.instant (matched g codec call tool c rule pending r).1
  unfolding IsSpent
  matched-IsSpent pending (ok tt) = answered-IsSpent pending (answer codec.accepts call.response)
  matched-IsSpent pending (err e) = inl refl

  reopened-IsSpent : (o : Opened) → IsSpent g call.instant (reopened g codec call tool c rule o).1
  unfolding IsSpent
  reopened-IsSpent (opened pending) =
      matched-IsSpent pending (matches g pending tool c.sql_sha256 call.principal call.target)
  reopened-IsSpent (invalid reason) = inl refl

  resumed-IsSpent :
      (o : Option String) → IsSpent g call.instant (resumed g codec call tool c rule o).1
  unfolding IsSpent
  resumed-IsSpent (some state) = reopened-IsSpent (codec.open_json state)
  resumed-IsSpent none =
      if-keeps {A = Outcome × Gate} (λ out. IsSpent g call.instant out.1) call.can_elicit
        (λ _. inl refl) (λ _. inl refl)

one_pending :
    (codec : Codec) (state : String) (pending : Pending) (state' : String) (pending' : Pending)
    (returned : Option String)
    → codec.open_json state ≡ opened pending
    → returned ≡ some state
    → returned ≡ some state'
    → codec.open_json state' ≡ opened pending'
    → pending' ≡ pending
one_pending codec state pending state' pending' returned opens sent sent' opens' =
    let same : state ≡ state' = cc in cc

-- One call of the gate.
pub record Request : Type 0 where
  pub call : Call
  pub tool : String
  pub classification : Classification
  pub confirm : Bool

abbrev pub request : Gate → Codec → Request → Outcome × Gate
request g codec r = check g codec r.call r.tool r.classification r.confirm

unfoldable pub serve : Gate → Codec → List Request → Gate
serve g codec [] = g
serve g codec (r ∷ rs) = serve (request g codec r).1 codec rs

request-IsSpent :
    (g : Gate) (codec : Codec) (r : Request) → IsSpent g r.call.instant (request g codec r).1
unfolding check check_destructive IsSpent
request-IsSpent g codec r = with_reason r.classification.destructive_reason
  where
    with_reason :
        (o : Option String)
        → IsSpent g r.call.instant
            (with_destructive g codec r.call r.tool r.classification r.confirm o).1
    with_reason none = inl refl
    with_reason (some rule) =
        if-keeps {A = Outcome × Gate} (λ out. IsSpent g r.call.instant out.1) r.confirm
          (λ _. inl refl)
          (λ _. resumed-IsSpent g codec r.call r.tool r.classification rule r.call.request_state)

spent-Remembers :
    (g g' : Gate) (nonce at now : ℕ)
    → now ≤ at + confirmation_ttl
    → IsSpent g now g'
    → Remembers nonce at g
    → Remembers nonce at g'
unfolding IsSpent
spent-Remembers g g' nonce at now soon (inl same) r = rw same r
spent-Remembers g g' nonce at now soon (inr (n, same)) r =
    rw same (consume-Remembers g nonce at n now soon r)

serve-Remembers :
    (g : Gate) (codec : Codec) (nonce at : ℕ) (rs : List Request)
    → All (λ r. r.call.instant ≤ at + confirmation_ttl) rs
    → Remembers nonce at g
    → Remembers nonce at (serve g codec rs)
unfolding serve
serve-Remembers g codec nonce at [] soon h = h
serve-Remembers g codec nonce at (r ∷ rs) (now, soon) h =
    serve-Remembers (request g codec r).1 codec nonce at rs soon
      (spent-Remembers g _ nonce at r.call.instant now (request-IsSpent g codec r) h)

-- A sealed confirmation lets one statement run: whatever calls come after it, a call that brings
-- the same state back does not run by it again while the ledger remembers, which is for the time
-- to live of the state.
pub request_once :
    (g : Gate) (codec : Codec) (state : String) (pending : Pending) (first again : Request)
    (later : List Request)
    → codec.open_json state ≡ opened pending
    → first.call.request_state ≡ some state
    → again.call.request_state ≡ some state
    → (request g codec first).0 ≡ done (proceed confirmed_elicitation)
    → All (λ r. r.call.instant ≤ first.call.instant + confirmation_ttl) later
    → again.call.instant ≤ first.call.instant + confirmation_ttl
    → (request (serve (request g codec first).1 codec later) codec again).0
      ≢ done (proceed confirmed_elicitation)
request_once g codec state pending first again later opens sent resent ran soon now twice =
    let s = check-Settles g codec first.call first.tool first.classification first.confirm ran in
    let g' = serve (request g codec first).1 codec later in
    let t = check-Settles g' codec again.call again.tool again.classification again.confirm twice in
    let same : s.confirmed.pending ≡ pending =
      one_pending codec state pending s.confirmed.state s.confirmed.pending first.call.request_state
        opens sent s.confirmed.returned s.confirmed.opens in
    let same' : t.confirmed.pending ≡ pending =
      one_pending codec state pending t.confirmed.state t.confirmed.pending again.call.request_state
        opens resent t.confirmed.returned t.confirmed.opens in
    let held : Remembers s.confirmed.pending.nonce first.call.instant (request g codec first).1 =
      rw s.consumed (
        consume-Remembers_self g s.confirmed.pending.nonce first.call.instant s.confirmed.unused) in
    let kept : Remembers s.confirmed.pending.nonce first.call.instant g' =
      serve-Remembers _ codec _ first.call.instant later soon held in
    let nonces : t.confirmed.pending.nonce ≡ s.confirmed.pending.nonce =
      ap (λ (q : Pending). q.nonce) (same' ∙ sym same) in
    consume_used g' t.confirmed.pending.nonce first.call.instant again.call.instant now
      (rw nonces kept) t.confirmed.unused
