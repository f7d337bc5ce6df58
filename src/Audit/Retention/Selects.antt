-- ===== src/Audit/Retention/Selects.antt =====
-- The selection of the closed files that go: the order in which they stand, and which of them are
-- taken.
use mathlib.Core.List.{Perm}
use mathlib.Core.Path.{subst}
use ownpg.Base.{
  ℕ, zero, suc, ◌+◌, ◌-◌, ◌*◌, ◌≤◌, ◌<◌, Bool, ltb, ap, ◌∙◌, sym, ◌⊎◌, String, ◌≡◌, refl, inl, inr,
  true, false, not, Option, List, [], ◌∷◌, ◌++◌, ◌&&◌, leb, length, All, arith, Bool-cases,
  if-keeps, if◌then◌else◌,
}
use ownpg.Audit.Retention.{
  Closed, comes_first, sort_closed, cutoff, over_count, is_expired, doomed, selected,
}
use ownpg.Audit.Retention.Sorts.{IsOrdered, sort_closed-IsOrdered}

abbrev pub names : List Closed → List String
names [] = []
names (c ∷ cs) = c.name ∷ names cs

-- The reference: the oldest files, so many as there are too many of, and of the others those that
-- have expired.
abbrev pub oldest : ℕ → List Closed → List Closed
oldest zero cs = []
oldest (suc n) [] = []
oldest (suc n) (c ∷ cs) = c ∷ oldest n cs

abbrev pub others : ℕ → List Closed → List Closed
others zero cs = cs
others (suc n) [] = []
others (suc n) (c ∷ cs) = others n cs

abbrev pub expired : Option ℕ → List Closed → List Closed
unfolding is_expired
expired limit [] = []
expired limit (c ∷ cs) =
    (let rest = expired limit cs in if is_expired limit c.modified then c ∷ rest else rest)

doomed-expired :
    (limit : Option ℕ) (over position : ℕ) (cs : List Closed)
    → over ≤ position
    → doomed limit over position cs ≡ names (expired limit cs)
unfolding doomed
doomed-expired limit over position [] h = refl
doomed-expired limit over position (c ∷ cs) h =
    let rest = doomed-expired limit over (suc position) cs (omega arith) in
    let late : leb over position ≡ true = ground arith in
    elim (Bool-cases (is_expired limit c.modified)) [
      | inl e ↦ rw (e, rest) refl
      | inr e ↦ rw (e, late, rest) refl
    ]

doomed-reference :
    (limit : Option ℕ) (n over position : ℕ) (cs : List Closed)
    → over ≡ position + n
    → doomed limit over position cs ≡ names (oldest n cs) ++ names (expired limit (others n cs))
unfolding doomed
doomed-reference limit zero over position cs h = doomed-expired limit over position cs (omega arith)
doomed-reference limit (suc n) over position [] h = refl
doomed-reference limit (suc n) over position (c ∷ cs) h =
    let rest = doomed-reference limit n over (suc position) cs (omega arith) in
    let early : leb over position ≡ false = ground arith in
    elim (Bool-cases (is_expired limit c.modified)) [
      | inl e ↦ rw (e, rest) refl
      | inr e ↦ rw (e, early, rest) refl
    ]

-- The files that are older than the number of days, where one is set.
abbrev pub is_outdated : ℕ → ℕ → Closed → Bool
is_outdated now keep_days c = ltb 0 keep_days && ltb (c.modified + keep_days * 86400) now

abbrev pub outdated : ℕ → ℕ → List Closed → List Closed
outdated now keep_days [] = []
outdated now keep_days (c ∷ cs) =
    let rest = outdated now keep_days cs in if is_outdated now keep_days c then c ∷ rest else rest

is_expired-is_outdated :
    (now keep_days : ℕ) (c : Closed)
    → is_expired (cutoff now keep_days) c.modified ≡ is_outdated now keep_days c
unfolding cutoff is_expired
is_expired-is_outdated now keep_days c = ground arith

expired-outdated :
    (now keep_days : ℕ) (cs : List Closed)
    → expired (cutoff now keep_days) cs ≡ outdated now keep_days cs
unfolding expired
expired-outdated now keep_days [] = refl
expired-outdated now keep_days (c ∷ cs) =
    rw (is_expired-is_outdated now keep_days c, expired-outdated now keep_days cs) refl

oldest-others : (n : ℕ) (cs : List Closed) → cs ≡ oldest n cs ++ others n cs
oldest-others zero cs = refl
oldest-others (suc n) [] = refl
oldest-others (suc n) (c ∷ cs) = ap (λ (l : List Closed). c ∷ l) (oldest-others n cs)

length-others : (n : ℕ) (cs : List Closed) → length (others n cs) ≡ length cs - n
length-others zero cs = omega arith
length-others (suc n) [] = omega arith
length-others (suc n) (c ∷ cs) = omega (arith, length-others n cs)

-- No file of the first list is newer than one of the second.
abbrev pub AreOlder : List Closed → List Closed → Type 0
AreOlder older newer = All (λ a. All (λ b. a.modified ≤ b.modified) newer) older

comes_first-modified : (a b : Closed) → comes_first a b ≡ true → a.modified ≤ b.modified
unfolding comes_first
comes_first-modified a b h = ground arith

All-modified :
    (n : ℕ) (a : Closed) (cs : List Closed)
    → All (λ b. comes_first a b ≡ true) cs
    → All (λ b. a.modified ≤ b.modified) (others n cs)
All-modified n a [] h = others-empty n
  where
    others-empty : (n : ℕ) → All (λ b. a.modified ≤ b.modified) (others n [])
    others-empty zero = tt
    others-empty (suc n) = tt
All-modified zero a (c ∷ cs) (p, h) = (comes_first-modified a c p, All-modified zero a cs h)
All-modified (suc n) a (c ∷ cs) (p, h) = All-modified n a cs h

oldest-AreOlder : (n : ℕ) (cs : List Closed) → IsOrdered cs → AreOlder (oldest n cs) (others n cs)
oldest-AreOlder zero cs h = tt
oldest-AreOlder (suc n) [] h = tt
oldest-AreOlder (suc n) (c ∷ cs) (first, h) = (All-modified n c cs first, oldest-AreOlder n cs h)

-- How many files are kept where a number is set: so many, or all if they are fewer.
abbrev pub Keeps : ℕ → List Closed → List Closed → Type 0
Keeps keep_files older newer =
    ((keep_files ≡ 0) × (older ≡ []))
    ⊎ ((0 < keep_files) × (length newer ≤ keep_files) × (older ≡ []))
    ⊎ ((0 < keep_files) × (length newer ≡ keep_files))

over_zero : (n k : ℕ) → 0 < k → over_count k n ≡ 0 → n ≤ k
unfolding over_count
over_zero n k h e = ground arith

over_some : (n k : ℕ) → 0 < k → over_count k n ≡ n - k
unfolding over_count
over_some n k h = ground arith

over-Keeps :
    (keep_files over : ℕ) (cs : List Closed)
    → over ≡ over_count keep_files (length cs)
    → Keeps keep_files (oldest over cs) (others over cs)
unfolding over_count
over-Keeps zero over cs e = inl (refl, rw e refl)
over-Keeps (suc k) zero cs e =
    let few : length cs ≤ suc k = over_zero (length cs) (suc k) (omega arith) (sym e) in
    inr (inl (omega arith, few, refl))
over-Keeps (suc k) (suc n) cs e =
    let kept : suc n ≡ length cs - suc k = e ∙ over_some (length cs) (suc k) (omega arith) in
    inr (inr (omega arith, omega (arith, kept, length-others (suc n) cs)))

-- Of the closed files, whatever order they are listed in, those go that are older than the number of
-- files to keep, and behind them, of the rest, those that were changed longer ago than the days to
-- keep. No number, and no days, set no limit.
pub selected-reference :
    (now keep_days keep_files : ℕ) (cs : List Closed)
    → (older newer : List Closed) × Perm (older ++ newer) cs
      × AreOlder older newer
      × Keeps keep_files older newer
      × (selected now keep_days keep_files (sort_closed cs)
          ≡ names older ++ names (outdated now keep_days newer))
unfolding selected
selected-reference now keep_days keep_files cs =
    let sorted = sort_closed cs in
    let over = over_count keep_files (length sorted) in
    let (ordered, same) = sort_closed-IsOrdered cs in
    (
      oldest over sorted,
      others over sorted,
      subst (λ (l : List Closed). Perm l cs) (oldest-others over sorted) same,
      oldest-AreOlder over sorted ordered,
      over-Keeps keep_files over sorted refl,
      doomed-reference (cutoff now keep_days) over over 0 sorted (omega arith)
          ∙ ap (λ (l : List Closed). names (oldest over sorted) ++ names l)
              (expired-outdated now keep_days (others over sorted)),
    )

doomed-All :
    (P : String → Type 0) (limit : Option ℕ) (over position : ℕ) (cs : List Closed)
    → All (λ c. P c.name) cs
    → All P (doomed limit over position cs)
unfolding doomed
doomed-All P limit over position [] h = tt
doomed-All P limit over position (c ∷ cs) (p, h) =
    let rest = doomed-All P limit over (suc position) cs h in
    if-keeps (All P) (not (is_expired limit c.modified) && leb over position) (λ _. rest)
      (λ _. (p, rest))

-- What holds of the name of every file holds of what is selected.
pub selected-All :
    (P : String → Type 0) (now keep_days keep_files : ℕ) (cs : List Closed)
    → All (λ c. P c.name) cs
    → All P (selected now keep_days keep_files cs)
unfolding selected
selected-All P now keep_days keep_files cs h =
    doomed-All P (cutoff now keep_days) (over_count keep_files (length cs)) 0 cs h
