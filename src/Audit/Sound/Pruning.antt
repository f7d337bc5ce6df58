-- ===== src/Audit/Sound/Pruning.antt =====
-- What only changes names leaves every file as it is: `rotate` and `remove_closed` of
-- crates/ownpg-core/src/audit.rs.
use mathlib.Core.Path.{subst}
use ownpg.Base.{
  ℕ, ◌<◌, String, ◌≡◌, refl, sym, ap, ◌∙◌, Option, none, some, List, [], ◌∷◌, ◌==◌, arith, if-keeps,
  All,
}
use ownpg.Json.{Value}
use ownpg.Errors.{Error, Result, ok, err, audit_unwritable}
use ownpg.Classify.Statement.{Reply}
use ownpg.Audit.Disk.{Disk, File, call, named, without, rename, remove}
use ownpg.Audit.Log.{Env, OpenLog, Io, after, stop, fallible, rotate, moved_to}
use ownpg.Audit.Retention.{remove_locked, remove_closed, remove_all}
use ownpg.Audit.Sound.{IsRead, Follows, DiskSound, LogSound}
use ownpg.Audit.Sound.Writing.{SameFiles, call-DiskSound}
use ownpg.Audit.Sound.Tail.{Reads, fallible-Reads, after-Reads, SameFiles-trans}
use ownpg.Audit.Sound.Sparing.{named-known}

without-All :
    (P : String × ℕ → Type 0) (name : String) (names : List (String × ℕ))
    → All P names
    → All P (without name names)
unfolding without
without-All P name [] h = tt
without-All P name ((known, id) ∷ rest) (p, h) =
    let others = without-All P name rest h in
    if-keeps (All P) (known == name) (λ _. others) (λ _. (p, others))

module _ (env : Env) (parse : String → Reply Value) (reads : IsRead env.to_string parse) where
  pub LogSound-same :
      (log : OpenLog) (d d' : Disk)
      → SameFiles d d'
      → LogSound parse env.sha256_hex log d
      → LogSound parse env.sha256_hex log d'
  LogSound-same log d d' (same, grows) h = record {
    follows = subst (Follows parse env.sha256_hex log.prev) (sym (same log.file)) h.follows;
    locked = ap (λ (f : File). f.taken) (same log.file) ∙ h.locked;
    known = omega (arith, h.known, grows);
  }

  abbrev pub Quiet : Disk → Disk → Type 0
  Quiet d d' = DiskSound parse env.sha256_hex d' × SameFiles d d'

  -- A file was renamed, or nothing was done.
  abbrev Renames : Disk → Option Disk → Type 0
  Renames d none = Unit
  Renames d (some d') = Quiet d d'

  renamed-Renames :
      (old new : String) (d : Disk) (o : Option ℕ)
      → DiskSound parse env.sha256_hex d
      → named old d.names ≡ o
      → Renames d (elim o [
        | some id ↦ some (record d { names = (new, id) ∷ without new (without old d.names) })
        | none ↦ none
      ])
  renamed-Renames old new d none h e = tt
  renamed-Renames old new d (some id) h e =
      let P = λ (n : String × ℕ). n.1 < d.next in
      (
        record {
          files = h.files;
          quiet = h.quiet;
          known = (
            named-known env parse reads old d.names d.next id h.known e,
            without-All P new (without old d.names) (without-All P old d.names h.known),
          );
        },
        (λ id. refl, omega arith),
      )

  rename-Renames :
      (old new : String) (d : Disk)
      → DiskSound parse env.sha256_hex d
      → Renames d (rename old new d)
  unfolding rename
  rename-Renames old new d h = renamed-Renames old new d (named old d.names) h refl

  pub called-Quiet : (d d' : Disk) → Quiet d d' → Quiet d (call d').1
  unfolding call
  called-Quiet d d' (h, same) = (call-DiskSound env parse reads d' h, same)

  -- The log that was moved goes on in the same file.
  abbrev pub Moved : OpenLog → String × OpenLog → Type 0
  Moved log (name, log') = (log'.file ≡ log.file) × (log'.prev ≡ log.prev)

  moved_to-Reads :
      (log : OpenLog) (name : String) (o : Option Disk) (d : Disk)
      → DiskSound parse env.sha256_hex d
      → Renames d o
      → Reads env parse reads (Moved log) d (moved_to env log name o d)
  unfolding moved_to
  moved_to-Reads log name none d h k = (h, (λ id. refl, omega arith))
  moved_to-Reads log name (some d') d h k =
      let (h', same) = called-Quiet d d' k in (h', (same, (refl, refl)))

  pub rotate-Reads :
      (log : OpenLog) (d : Disk)
      → DiskSound parse env.sha256_hex d
      → Reads env parse reads (Moved log) d (rotate env log d)
  unfolding rotate
  rotate-Reads log d h =
      after-Reads env parse reads (λ _. Unit) (Moved log) d (fallible env log.path d) _
        (fallible-Reads env parse reads log.path d h)
        (λ _ d' h' _ _.
          moved_to-Reads log _ (rename log.path _ d') d' h' (rename-Renames log.path _ d' h'))

  remove-Quiet :
      (name : String) (d : Disk) → DiskSound parse env.sha256_hex d → Quiet d (remove name d)
  unfolding remove
  remove-Quiet name d h = (
    record {
      files = h.files;
      quiet = h.quiet;
      known = without-All (λ (n : String × ℕ). n.1 < d.next) name d.names h.known;
    },
    (λ id. refl, omega arith),
  )

  abbrev Any : Option String → Type 0
  Any o = Unit

  -- A call of the file system first.
  first_call :
      (path : String) (d : Disk) (next : Unit {0} → Io (Option String))
      → DiskSound parse env.sha256_hex d
      → ((d' : Disk)
          → DiskSound parse env.sha256_hex d'
          → Reads env parse reads Any d' (next tt d'))
      → Reads env parse reads Any d (after (fallible env path d) next)
  first_call path d next h k =
      after-Reads env parse reads (λ _. Unit) Any d (fallible env path d) next
        (fallible-Reads env parse reads path d h) (λ _ d' h' _ _. k d' h')

  remove_locked-Reads :
      (name : String) (id : ℕ) (d : Disk)
      → DiskSound parse env.sha256_hex d
      → Reads env parse reads Any d (remove_locked env name id d)
  unfolding remove_locked
  remove_locked-Reads name id d h =
      let P = λ (r : Result (Option String) × Disk). Reads env parse reads Any d r in
      if-keeps P (d.file id).taken (λ _. (h, ((λ id. refl, omega arith), tt)))
        (λ _. first_call name d _ h (λ d h. first_call name d _ h (λ d h.
          first_call name d _ h
            (λ d h. (let (h', same) = remove-Quiet name d h in (h', (same, tt)))))))

  found-Reads :
      (name : String) (o : Option ℕ) (error : Error) (d : Disk)
      → DiskSound parse env.sha256_hex d
      → Reads env parse reads Any d
          (elim o [ none ↦ stop error d | some id ↦ remove_locked env name id d ])
  found-Reads name none error d h = (h, (λ id. refl, omega arith))
  found-Reads name (some id) error d h = remove_locked-Reads name id d h

  remove_closed-Reads :
      (name : String) (d : Disk)
      → DiskSound parse env.sha256_hex d
      → Reads env parse reads Any d (remove_closed env name d)
  unfolding remove_closed
  remove_closed-Reads name d h =
      first_call name d _ h
        (λ d h. found-Reads name (named name d.names) (audit_unwritable name env.io_error) d h)

  Reads-Quiet :
      (d : Disk) (r : Result (Option String) × Disk) → Reads env parse reads Any d r → Quiet d r.1
  Reads-Quiet d (ok value, d') (h, (same, _)) = (h, same)
  Reads-Quiet d (err error, d') h = h

  -- The removal of closed files leaves every file that a handle has as it is.
  pub remove_all-Quiet :
      (names : List String) (d : Disk)
      → DiskSound parse env.sha256_hex d
      → Quiet d (remove_all env names d).1
  unfolding remove_all
  remove_all-Quiet [] d h = (h, (λ id. refl, omega arith))
  remove_all-Quiet (name ∷ names) d h =
      let r = remove_closed env name d in
      let (h', same) = Reads-Quiet d r (remove_closed-Reads name d h) in
      let (h'', same') = remove_all-Quiet names r.1 h' in
      (h'', SameFiles-trans d r.1 (remove_all env names r.1).1 same same')
