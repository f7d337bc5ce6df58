-- ===== src/Audit/Log/Writes.antt =====
-- What `write_line` of crates/ownpg-core/src/audit.rs leaves of the lines of the file: one more where
-- it succeeds, and the same where it fails.
use Prim.Native.String.{◌++◌ as str_append}
use ownpg.Base.{ℕ, String, ◌≡◌, refl, ap, true, [], ◌∷◌, ◌++◌, eqb, arith}
use ownpg.Errors.{Result, ok, err}
use ownpg.Audit.Disk.{Disk, File, Fault, works, fails, leaves, call, put}
use ownpg.Audit.Log.{Env, OpenLog, marked, write_line}

put-own : (d : Disk) (id : ℕ) (f : File) → (put id f d).file id ≡ f
unfolding put
put-own d id f = (let same : eqb id id ≡ true = ground arith in rw same refl)

module _ (env : Env) where
  -- The lines of the file of the log, after a line was written or not.
  abbrev pub After : OpenLog → String → Disk → Result OpenLog × Disk → Type 0
  After log line d (ok log', d') =
      (log'.file ≡ log.file)
      × ((d'.file log.file).lines
          ≡ (d.file log.file).lines ++ str_append (d.file log.file).torn line ∷ [])
  After log line d (err error, d') = (d'.file log.file).lines ≡ (d.file log.file).lines

  marked-After :
      (outcome : Fault) (log : OpenLog) (line : String) (d : Disk)
      → After log line d (marked env outcome log line d)
  marked-After works log line d = (refl, ap (λ (f : File). f.lines) (put-own d log.file _))
  marked-After fails log line d = ap (λ (f : File). f.lines) (put-own d log.file _)
  marked-After (leaves part) log line d = ap (λ (f : File). f.lines) (put-own d log.file _)

  pub write_line-After :
      (log : OpenLog) (line : String) (d : Disk) → After log line d (write_line env log line d)
  unfolding write_line call
  write_line-After log line d = marked-After (call d).0 log line (call d).1
