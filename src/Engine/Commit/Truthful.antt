-- ===== src/Engine/Commit/Truthful.antt =====
-- What a commit that is reported stands on.
use ownpg.Base.{
  ℕ, zero, suc, String, ◌≡◌, refl, sym, ap, ◌⊎◌, inl, inr, Bool, true, false, not, Option, none,
  some, List, [], ◌∷◌, ◌==◌, eq_iff, In, if-keeps,
}
use ownpg.Errors.{Result, ok, err}
use ownpg.Engine.Commit.{
  Answer, row, failed, Client, query, CommitResult, committed, never_sent, rolled_back, unknown,
  Status, status, unread, Probe, unreachable, reached, lost_commit_checks, named_status, checks,
  lost_commit_outcome, connection_lost, lost_outcome, commit_outcome, after_check, check_sql,
  commit_checked, told, finish_block,
}

abbrev IsCommitted : CommitResult → Type 0
IsCommitted committed = Unit
IsCommitted result = ⊥

abbrev pub IsOk : {T : Type 0} → Result T → Type 0
IsOk (ok value) = Unit
IsOk (err error) = ⊥

-- The second connection saw the transaction committed, or there was nothing to commit.
abbrev pub Seen : Option Probe → Option String → Type 0
Seen none transaction = ⊥
Seen (some probe) none = Unit
Seen (some unreachable) (some transaction) = ⊥
Seen (some (reached statuses)) (some transaction) = In (status (some "committed")) statuses

-- The answers to the check and to COMMIT that a reported commit stands on.
abbrev pub Supports : Option Probe → Answer → Answer × Client → Type 0
Supports probe (failed e) second = ⊥
Supports probe (row transaction) (row first, c) = Unit
Supports probe (row transaction) (failed e, c) =
    (connection_lost c e ≡ true) × Seen probe transaction

abbrev pub IsRow : Answer → Type 0
IsRow (row first) = Unit
IsRow (failed e) = ⊥

named_status-Seen :
    (s transaction : String) (later : CommitResult)
    → IsCommitted (named_status s transaction later)
    → (s ≡ "committed") ⊎ IsCommitted later
named_status-Seen s transaction later =
    if-keeps (λ (r : CommitResult). IsCommitted r → (s ≡ "committed") ⊎ IsCommitted later)
      (s == "committed") (λ e _. inl ((eq_iff s "committed").0 e))
      (λ _.
        if-keeps (λ (r : CommitResult). IsCommitted r → (s ≡ "committed") ⊎ IsCommitted later)
          (s == "aborted") (λ _ h. absurd h) (λ _ h. inr h))

checks-Seen :
    (n : ℕ) (statuses : List Status) (transaction : String)
    → IsCommitted (checks n statuses transaction)
    → In (status (some "committed")) statuses
unfolding checks
checks-Seen zero statuses transaction h = absurd h
checks-Seen (suc n) [] transaction h = checks-Seen n [] transaction h
checks-Seen (suc n) (unread ∷ rest) transaction h = absurd h
checks-Seen (suc n) (status none ∷ rest) transaction h = inr (checks-Seen n rest transaction h)
checks-Seen (suc n) (status (some s) ∷ rest) transaction h =
    elim (named_status-Seen s transaction (checks n rest transaction) h) [
      | inl e ↦ inl (ap (λ (t : String). status (some t)) (sym e))
      | inr later ↦ inr (checks-Seen n rest transaction later)
    ]

lost_outcome-Seen :
    (probe : Option Probe) (transaction : Option String)
    → IsCommitted (lost_outcome probe transaction)
    → Seen probe transaction
unfolding lost_outcome lost_commit_outcome
lost_outcome-Seen none transaction h = absurd h
lost_outcome-Seen (some probe) none h = tt
lost_outcome-Seen (some unreachable) (some transaction) h = absurd h
lost_outcome-Seen (some (reached statuses)) (some transaction) h =
    checks-Seen lost_commit_checks statuses transaction h

not_lem : (b : Bool) → not b ≡ false → b ≡ true
not_lem true h = refl
not_lem false h = cc

-- The commit is told of only where it is known.
abbrev IsKnown : Result CommitResult → Type 0
IsKnown (ok result) = IsCommitted result
IsKnown (err error) = ⊥

told-IsKnown : (id : String) (r : Result CommitResult × Client) → IsOk (told id r).0 → IsKnown r.0
unfolding told
told-IsKnown id (ok committed, c) h = tt
told-IsKnown id (ok never_sent, c) h = absurd h
told-IsKnown id (ok (rolled_back transaction), c) h = absurd h
told-IsKnown id (ok (unknown transaction), c) h = absurd h
told-IsKnown id (err error, c) h = absurd h

commit_outcome-Supports :
    (probe : Option Probe) (transaction : Option String) (r : Answer × Client)
    → IsKnown (commit_outcome probe transaction r.0 r.1)
    → Supports probe (row transaction) r
unfolding commit_outcome
commit_outcome-Supports probe transaction (row first, c) = λ h. tt
commit_outcome-Supports probe transaction (failed e, c) =
    if-keeps
      (λ (r : Result CommitResult). IsKnown r → Supports probe (row transaction) (failed e, c))
      (not (connection_lost c e)) (λ _ h. absurd h)
      (λ lost h. (not_lem (connection_lost c e) lost, lost_outcome-Seen probe transaction h))

after_check-Supports :
    (probe : Option Probe) (answer : Answer) (c : Client)
    → IsKnown (after_check probe answer c).0
    → Supports probe answer (query "COMMIT" c)
unfolding after_check
after_check-Supports probe (row transaction) c =
    λ h. commit_outcome-Supports probe transaction (query "COMMIT" c) h
after_check-Supports probe (failed e) c =
    if-keeps
      (λ (r : Result CommitResult × Client).
        IsKnown r.0 → Supports probe (failed e) (query "COMMIT" c))
      (connection_lost c e) (λ _ h. absurd h) (λ _ h. absurd h)

committed-IsOk :
    (id : String) (probe : Option Probe) (transaction : Option String) (r : Answer × Client)
    → IsRow r.0
    → IsOk (told id (commit_outcome probe transaction r.0 r.1, r.1)).0
unfolding told commit_outcome
committed-IsOk id probe transaction (row first, c) h = tt
committed-IsOk id probe transaction (failed e, c) h = absurd h

acknowledged :
    (id : String) (probe : Option Probe) (answer : Answer) (c : Client)
    → IsRow answer
    → IsRow (query "COMMIT" c).0
    → IsOk (told id (after_check probe answer c)).0
unfolding after_check
acknowledged id probe (failed e) c h k = absurd h
acknowledged id probe (row transaction) c h k =
    committed-IsOk id probe transaction (query "COMMIT" c) k

finish_block-Supports :
    (probe : Option Probe) (id : String) (c : Client)
    → (IsOk (finish_block probe id "COMMIT" c).0
        → Supports probe
            (query (check_sql probe) c).0
            (query "COMMIT" (query (check_sql probe) c).1))
      × (IsRow (query (check_sql probe) c).0
          → IsRow (query "COMMIT" (query (check_sql probe) c).1).0
          → IsOk (finish_block probe id "COMMIT" c).0)
unfolding finish_block commit_checked
finish_block-Supports probe id c =
    let (answer, c') = query (check_sql probe) c in
    (
      λ h. after_check-Supports probe answer c' (told-IsKnown id (after_check probe answer c') h),
      λ h k. acknowledged id probe answer c' h k,
    )

-- What the answers to the check and to COMMIT say of the report.
abbrev pub Tells : Option Probe → Answer → Answer × Client → Result (Unit {0}) → Type 0
Tells probe (row transaction) (row first, c) r = IsOk r
Tells probe (row transaction) (failed e, c) (ok value) =
    (connection_lost c e ≡ true) × Seen probe transaction
Tells probe (failed e) second (ok value) = ⊥
Tells probe first second (err error) = Unit

Supports-Tells :
    (probe : Option Probe) (first : Answer) (second : Answer × Client) (r : Result (Unit {0}))
    → (IsOk r → Supports probe first second)
    → (IsRow first → IsRow second.0 → IsOk r)
    → Tells probe first second r
Supports-Tells probe (row transaction) (row first, c) r h k = k tt tt
Supports-Tells probe (row transaction) (failed e, c) (ok value) h k = h tt
Supports-Tells probe (row transaction) (failed e, c) (err error) h k = tt
Supports-Tells probe (failed e) second (ok value) h k = h tt
Supports-Tells probe (failed e) second (err error) h k = tt

-- A COMMIT is reported as done only if the server answered the check and then the COMMIT, or if the
-- connection was lost in the COMMIT and a second connection reports the transaction committed, or
-- none was assigned. A COMMIT that the server answers is reported as done.
pub finish_block-Tells :
    (probe : Option Probe) (id : String) (c : Client)
    → Tells probe
        (query (check_sql probe) c).0
        (query "COMMIT" (query (check_sql probe) c).1)
        (finish_block probe id "COMMIT" c).0
finish_block-Tells probe id c =
    let (answer, c') = query (check_sql probe) c in
    let (supports, answers) = finish_block-Supports probe id c in
    Supports-Tells probe answer (query "COMMIT" c') (finish_block probe id "COMMIT" c).0 supports
      answers
