-- ===== src/Audit/Sound/Sparing.antt =====
-- An opening spares the files that are locked: `open_file` of crates/ownpg-core/src/audit.rs.
use mathlib.Core.Path.{subst}
use ownpg.Base.{
  ℕ, suc, ◌<◌, ◌≤◌, String, ◌≡◌, ◌≢◌, refl, sym, ap, ◌∙◌, inl, inr, Bool, true, false, true≢false,
  Option, none, some, List, [], ◌∷◌, ◌==◌, arith, Bool-cases, if-keeps, All, if◌then◌else◌,
}
use ownpg.Json.{Value}
use ownpg.Errors.{Result, ok, err}
use ownpg.Classify.Statement.{Reply}
use ownpg.Audit.Disk.{Disk, File, put, named, create, new_file}
use ownpg.Audit.Log.{Env, OpenLog, Io, after, fallible, Start, try_lock, start_locked, open_file}
use ownpg.Audit.Sound.{IsRead, DiskSound, LogSound}
use ownpg.Audit.Sound.Lines.{put-DiskSound, put-same, put-other}
use ownpg.Audit.Sound.Writing.{SameFiles}
use ownpg.Audit.Sound.Tail.{Reads, fallible-Reads}
use ownpg.Audit.Sound.Opening.{IsCarried, Starts, later-Starts, start_locked-Starts, same-Touches}

some-one : {a b : ℕ} → some a ≡ some b → a ≡ b
some-one {a} {b} h = cc

differ :
    (d : Disk) (other id : ℕ) → (d.file other).taken ≡ true → (d.file id).taken ≡ false → other ≢ id
differ d other id locked free e =
    true≢false (sym locked ∙ ap (λ (n : ℕ). (d.file n).taken) e ∙ free)

module _ (env : Env) (parse : String → Reply Value) (reads : IsRead env.to_string parse) where
  abbrev sha : String → String
  sha = env.sha256_hex

  -- The files that are locked stay as they are, and a log that is returned has another one.
  abbrev pub Spared : Disk → Disk → Type 0
  Spared d d' =
      ((id : ℕ) → (d.file id).taken ≡ true → id < d.next → d'.file id ≡ d.file id)
      × (d.next ≤ d'.next)

  abbrev pub Opened : Disk → Result OpenLog × Disk → Type 0
  Opened d (ok log, d') =
      DiskSound parse sha d'
      × (LogSound parse sha log d'
          × (Spared d d' × ((id : ℕ) → (d.file id).taken ≡ true → id < d.next → log.file ≢ id)))
  Opened d (err error, d') = DiskSound parse sha d' × Spared d d'

  same-Spared : (d d' : Disk) → SameFiles d d' → Spared d d'
  same-Spared d d' (same, grows) = (λ id _ _. same id, grows)

  Spared-trans : (a b c : Disk) → Spared a b → Spared b c → Spared a c
  Spared-trans a b c (h, m) (k, n) = (
    λ id locked known.
        k id (ap (λ (f : File). f.taken) (h id locked known) ∙ locked) (omega (arith, known, m))
        ∙ h id locked known,
    omega (arith, m, n),
  )

  later-Opened : (d d' : Disk) (r : Result OpenLog × Disk) → Spared d d' → Opened d' r → Opened d r
  later-Opened d d' (ok log, e) s (h, (sound, (s', apart))) = (
    h,
    (
      sound,
      (
        Spared-trans d d' e s s',
        λ id locked known.
            apart id (ap (λ (f : File). f.taken) (s.0 id locked known) ∙ locked)
              (omega (arith, known, s.1)),
      ),
    ),
  )
  later-Opened d d' (err error, e) s (h, s') = (h, Spared-trans d d' e s s')

  -- What touches only a file that was not locked spares the locked ones.
  Starts-Opened :
      (id : ℕ) (d : Disk) (r : Result OpenLog × Disk)
      → (d.file id).taken ≡ false
      → Starts env parse reads id d r
      → Opened d r
  Starts-Opened id d (ok log, d') free (h, (sound, ((same, grows), at))) = (
    h,
    (
      sound,
      (
        (λ other locked _. same other (differ d other id locked free), grows),
        λ other locked _ e. differ d other id locked free (sym e ∙ at),
      ),
    ),
  )
  Starts-Opened id d (err error, d') free (h, (same, grows)) =
      (h, (λ other locked _. same other (differ d other id locked free), grows))

  module _ (path : String) (id : ℕ) (start : Start) (carried : String)
      (carries : IsCarried start carried) where
    abbrev start_there : Io OpenLog
    start_there = start_locked env path id start carried

    abbrev lock : Unit {0} → Io (Unit {0})
    lock _ d = (ok tt, put id (record (d.file id) { taken = true }) d)

    locked-Starts :
        (d : Disk) (r : Result (Unit {0}) × Disk)
        → id < d.next
        → Reads env parse reads (λ _. Unit) d r
        → Starts env parse reads id d (after (after r lock) (λ _. start_there))
    unfolding put
    locked-Starts d (ok value, d') known (h, (same, _)) =
        let f = record (d'.file id) { taken = true } in
        let e = put id f d' in
        later-Starts env parse reads id d e (start_there e)
          (
            λ other apart. put-other env parse reads d' id other f apart ∙ same.0 other,
            omega (arith, same.1),
          )
          (start_locked-Starts env parse reads path id start carried carries e
            (put-DiskSound env parse reads d' id f h (h.files id))
            (ap (λ (g : File). g.taken) (put-same env parse reads d' id f))
            (omega (arith, known, same.1)))
    locked-Starts d (err error, d') known (h, same) = (h, same-Touches env parse reads id d d' same)

    lock-Opened :
        (d : Disk)
        → DiskSound parse sha d
        → id < d.next
        → Opened d (after (try_lock env path id d) (λ _. start_there))
    unfolding try_lock
    lock-Opened d h known =
        if-keeps (λ (r : Result (Unit {0}) × Disk). Opened d (after r (λ _. start_there)))
          (d.file id).taken (λ _. (h, (λ _ _ _. refl, omega arith)))
          (λ free.
            Starts-Opened id d _ free (
              locked-Starts d (fallible env path d) known
                (fallible-Reads env parse reads path d h)))

  pub named-known :
      (name : String) (names : List (String × ℕ)) (next id : ℕ)
      → All (λ (n : String × ℕ). n.1 < next) names
      → named name names ≡ some id
      → id < next
  unfolding named
  named-known name [] next id h e = cc
  named-known name ((known, other) ∷ rest) next id (p, h) e = elim (Bool-cases (known == name)) [
    | inl eq ↦
        subst (λ (n : ℕ). n < next)
          (some-one (sym (ap (λ (b : Bool). if b then some other else named name rest) eq) ∙ e)) p
    | inr ne ↦
        named-known name rest next id h
          (sym (ap (λ (b : Bool). if b then some other else named name rest) ne) ∙ e)
  ]

  known-grows :
      (names : List (String × ℕ)) (next : ℕ)
      → All (λ (n : String × ℕ). n.1 < next) names
      → All (λ (n : String × ℕ). n.1 < suc next) names
  known-grows [] next h = tt
  known-grows (n ∷ names) next (p, h) = (omega (arith, p), known-grows names next h)

  abbrev Created : Disk → ℕ × Disk → Type 0
  Created d (id, d') = DiskSound parse sha d' × (Spared d d' × (id < d'.next))

  found-Created :
      (name : String) (d : Disk) (o : Option ℕ)
      → DiskSound parse sha d
      → named name d.names ≡ o
      → Created d (elim o [
        | some id ↦ (id, d)
        | none ↦ (
          d.next,
          put d.next new_file (record d { names = (name, d.next) ∷ d.names; next = suc d.next }),
        )
      ])
  unfolding put
  found-Created name d (some id) h e =
      (h, (same-Spared d d (λ id. refl, omega arith), named-known name d.names d.next id h.known e))
  found-Created name d none h e =
      let d' = record d { names = (name, d.next) ∷ d.names; next = suc d.next } in
      let h' : DiskSound parse sha d' = record {
        files = h.files;
        quiet = h.quiet;
        known = (omega arith, known-grows d.names d.next h.known);
      } in
      (
        put-DiskSound env parse reads d' d.next new_file h' (inl (refl, refl)),
        (
          (
            λ id _ known.
                put-other env parse reads d' d.next id new_file (λ e. (omega (arith, known, e))),
            omega arith,
          ),
          omega arith,
        ),
      )

  create-Created : (name : String) (d : Disk) → DiskSound parse sha d → Created d (create name d)
  unfolding create
  create-Created name d h = found-Created name d (named name d.names) h refl

  after-Opened :
      (d : Disk) (r : Result (Unit {0}) × Disk) (next : Unit {0} → Io OpenLog)
      → Reads env parse reads (λ _. Unit) d r
      → ((d' : Disk) → DiskSound parse sha d' → Opened d' (next tt d'))
      → Opened d (after r next)
  after-Opened d (ok value, d') next (h, (same, _)) k =
      later-Opened d d' (next value d') (same-Spared d d' same) (k d' h)
  after-Opened d (err error, d') next (h, same) k = (h, same-Spared d d' same)

  -- A file is opened and its marker is written, or nothing can be; in both cases every file verifies
  -- or is empty, as before, and the files that are locked stay as they are.
  pub open_file-Opened :
      (path : String) (start : Start) (carried : String) (d : Disk)
      → IsCarried start carried
      → DiskSound parse sha d
      → Opened d (open_file env path start carried d)
  unfolding open_file
  open_file-Opened path start carried d carries h =
      after-Opened d (fallible env path d) _ (fallible-Reads env parse reads path d h) (λ d h.
        after-Opened d (fallible env path d) _ (fallible-Reads env parse reads path d h) (λ d h.
          (let (id, d') = create path d in
            let (h', (spared, known)) = create-Created path d h in
            later-Opened d d' _ spared (lock-Opened path id start carried carries d' h' known))))
