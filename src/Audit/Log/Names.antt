-- ===== src/Audit/Log/Names.antt =====
-- The loop of `rotate` in crates/ownpg-core/src/audit.rs comes to a name that is free.
use Prim.Native.String.{len, ◌++◌ as str_append}
use text.Mathlib.TextLemmas.{append_cancel_left}
use text.Mathlib.TextPositions.{len-append}
use ownpg.Base.{
  ℕ, zero, suc, ◌+◌, ◌<◌, ◌≤◌, String, ◌≡◌, ◌≢◌, refl, sym, ap, ◌∙◌, inl, inr, Bool, true, false,
  Option, none, some, List, [], ◌∷◌, ◌==◌, length, eq_iff, if◌then◌else◌, arith, Bool-cases,
  if-keeps,
}
use ownpg.Audit.Disk.{
  Disk, call, rename, fault-keeps, named, without, named-without, length-without,
}
use ownpg.Audit.Log.{
  Env, OpenLog, after, fallible, moved_to, rotate, is_taken, rotated_name, free_name,
}
use ownpg.Errors.{Result, ok, err}

-- The directory without this name.
abbrev less : String → Disk → Disk
less x d = record d { names = without x d.names }

differs : (x y : String) → x ≢ y → (x == y) ≡ false
differs x y apart = elim (Bool-cases (x == y)) [
  | inl e ↦ absurd (apart ((eq_iff x y).0 e))
  | inr e ↦ e
]

found : Option ℕ → Bool
found none = false
found (some id) = true

taken-length :
    (x : String) (names : List (String × ℕ))
    → found (named x names) ≡ true
    → length (without x names) < length names
unfolding named without found
taken-length x [] h = cc
taken-length x ((known, id) ∷ rest) h =
    if-keeps (λ (l : List (String × ℕ)). length l < suc (length rest)) (known == x)
      (λ _. omega (arith, length-without x rest))
      (λ other.
        (let deeper : found (named x rest) ≡ true =
            sym (ap (λ (b : Bool). found (if b then some id else named x rest)) other) ∙ h in
          omega (arith, taken-length x rest deeper)))

module _ (env : Env) (file_name stamp : String) where
  abbrev name_of : ℕ → String
  name_of n = rotated_name env file_name stamp n

  -- A name that the loop does not come to, from this count on.
  abbrev IsPast : String → ℕ → Type 0
  IsPast x counter = (n : ℕ) → counter ≤ n → (x == name_of n) ≡ false

  is_taken-less :
      (x c : String) (d : Disk) → (x == c) ≡ false → is_taken env c (less x d) ≡ is_taken env c d
  is_taken-less x c d h =
      ap (λ (o : Option ℕ). elim o [ none ↦ false | some id ↦ true ]) (named-without c x d.names h)

  free_name-less :
      (rounds counter : ℕ) (x c : String) (d : Disk)
      → (x == c) ≡ false
      → IsPast x counter
      → free_name env rounds file_name stamp counter c (less x d)
        ≡ free_name env rounds file_name stamp counter c d
  unfolding free_name
  free_name-less zero counter x c d h past = refl
  free_name-less (suc rounds) counter x c d h past =
      let rest =
        free_name-less rounds (suc counter) x (name_of counter) d (past counter (omega arith))
          (λ n later. past n (omega (arith, later))) in
      rw (is_taken-less x c d h, rest) refl

  is_found : (x : String) (d : Disk) → is_taken env x d ≡ true → found (named x d.names) ≡ true
  unfolding found
  is_found x d h = h

  -- What the loop gives is none of the names that it is past.
  free_name-differs :
      (rounds counter : ℕ) (x c : String) (d : Disk)
      → (x == c) ≡ false
      → IsPast x counter
      → (x == free_name env rounds file_name stamp counter c d) ≡ false
  unfolding free_name
  free_name-differs zero counter x c d h past = h
  free_name-differs (suc rounds) counter x c d h past =
      let rest =
        free_name-differs rounds (suc counter) x (name_of counter) d (past counter (omega arith))
          (λ n later. past n (omega (arith, later))) in
      if-keeps (λ (name : String). (x == name) ≡ false) (is_taken env c d) (λ _. rest) (λ _. h)

  module _ (distinct : (m n : ℕ) → m < n → (name_of m == name_of n) ≡ false) where
    free_name-IsFree :
        (rounds counter : ℕ) (c : String) (d : Disk)
        → length d.names < rounds
        → IsPast c counter
        → is_taken env (free_name env rounds file_name stamp counter c d) d ≡ false
    unfolding free_name
    free_name-IsFree zero counter c d h past = absurd (omega (arith, h))
    free_name-IsFree (suc rounds) counter c d h past =
        let later = free_name env rounds file_name stamp (suc counter) (name_of counter) d in
        if-keeps (λ (name : String). is_taken env name d ≡ false) (is_taken env c d)
          (λ used.
            (let apart = past counter (omega arith) in
              let past_later = λ (n : ℕ) (m : suc counter ≤ n). past n (omega (arith, m)) in
              let same =
                free_name-less rounds (suc counter) c (name_of counter) d apart past_later in
              let free =
                free_name-IsFree rounds (suc counter) (name_of counter) (less c d)
                  (omega (arith, h, taken-length c d.names (is_found c d used)))
                  (λ n m. distinct counter n (omega (arith, m))) in
              sym (
                is_taken-less c later d
                  (free_name-differs rounds (suc counter) c (name_of counter) d apart past_later))
              ∙ ap (λ (name : String). is_taken env name (less c d)) (sym same)
              ∙ free))
          (λ unused. unused)

  module _ (one_text : (m n : ℕ) → env.decimal m ≡ env.decimal n → m ≡ n) where
    counted_differ : (m n : ℕ) → m < n → (name_of m == name_of n) ≡ false
    counted_differ m n less_than = differs (name_of m) (name_of n) (λ e.
        (let digits = append_cancel_left "." (env.decimal m) (env.decimal n) (
            append_cancel_left stamp _ _
              (append_cancel_left "." _ _ (append_cancel_left file_name _ _ e))) in
          omega (arith, less_than, one_text m n digits)))

    longer_stamp : (s : String) → stamp ≢ str_append stamp (str_append "." s)
    longer_stamp s e =
        (let longer : len stamp ≡ len stamp + (1 + len s) =
            ap len e
            ∙ len-append stamp (str_append "." s)
            ∙ ap (λ (n : ℕ). len stamp + n) (len-append "." s) in
          omega (arith, longer))

    first_differs : IsPast (str_append file_name (str_append "." stamp)) 1
    first_differs n h = differs _ (name_of n) (λ e.
        longer_stamp (env.decimal n)
          (append_cancel_left "." _ _ (append_cancel_left file_name _ _ e)))

    -- One round more than there are names is enough: the name that a rotation gives is free, so no
    -- file is replaced, where different numbers have different decimal texts.
    pub free_name_free :
        (d : Disk)
        → is_taken env
            (free_name env
              (suc (length d.names))
              file_name
              stamp
              1
              (str_append file_name (str_append "." stamp))
              d)
            d
          ≡ false
    free_name_free d =
        free_name-IsFree counted_differ (suc (length d.names)) 1
          (str_append file_name (str_append "." stamp)) d (omega arith) first_differs

not_taken :
    (env : Env) (name : String) (d : Disk) → is_taken env name d ≡ false → named name d.names ≡ none
unfolding found
not_taken env name d h = none_of (named name d.names) h
  where
    none_of : (o : Option ℕ) → found o ≡ false → o ≡ none
    none_of none h = refl
    none_of (some id) h = cc

module _ (env : Env) where
  -- What a rotation leaves: the file is found at a name that was free, or the names are as before.
  abbrev pub Moves : OpenLog → Disk → Result (String × OpenLog) × Disk → Type 0
  Moves log d (ok (name, log'), d') =
      (named name d.names ≡ none)
      × (named name d'.names ≡ named log.path d.names)
      × (log'.path ≡ name)
      × (log'.file ≡ log.file)
  Moves log d (err error, d') = d'.names ≡ d.names

  renamed-Moves :
      (log : OpenLog) (name : String) (d e : Disk) (o : Option ℕ)
      → named name d.names ≡ none
      → named log.path d.names ≡ o
      → e.names ≡ d.names
      → Moves log d (
          moved_to env log name
            (elim o [
              | some id ↦
                  some (record e { names = (name, id) ∷ without name (without log.path e.names) })
              | none ↦ none
            ])
            e)
  unfolding moved_to call named
  renamed-Moves log name d e none free at same = same
  renamed-Moves log name d e (some id) free at same =
      let own : (name == name) ≡ true = (eq_iff name name).1 refl in
      (free, rw (own, at) refl, refl, refl)

  -- A rotation moves the file of the log to a name that was free before, so that no file is replaced,
  -- and the log goes on with this file; or it fails and leaves every name as it was. Different
  -- numbers are assumed to have different decimal texts.
  pub rotate-Moves :
      (one_text : (m n : ℕ) → env.decimal m ≡ env.decimal n → m ≡ n) (log : OpenLog) (d : Disk)
      → Moves log d (rotate env log d)
  unfolding rotate fallible call rename
  rotate-Moves one_text log d =
      let stamp = env.decimal env.unix_timestamp in
      let name =
        free_name env (suc (length d.names)) log.path stamp 1
          (str_append log.path (str_append "." stamp)) d in
      let free = not_taken env name d (free_name_free env log.path stamp one_text d) in
      let e = (call d).1 in
      fault-keeps
        (λ (r : Result (Unit {0}) × Disk).
          Moves log d (after r (λ _ d'. moved_to env log name (rename log.path name d') d')))
        (call d).0 (renamed-Moves log name d e (named log.path d.names) free refl refl) refl
