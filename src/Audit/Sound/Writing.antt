-- ===== src/Audit/Sound/Writing.antt =====
-- A write of a line: the file goes on with it, or every file stays as it is.
use Prim.Native.String.{◌++◌ as str_append}
use mathlib.Core.Path.{subst}
use ownpg.Base.{
  ℕ, ◌<◌, ◌≤◌, String, ◌≡◌, ◌≢◌, refl, sym, ap, ◌∙◌, some, List, [], ◌∷◌, last?, last-append, arith,
  true,
}
use ownpg.Json.{Value}
use ownpg.Errors.{Result, ok, err}
use ownpg.Classify.Statement.{Reply}
use ownpg.Audit.Disk.{Disk, File, Fault, works, fails, leaves, call, put}
use ownpg.Audit.Log.{Env, OpenLog, write_line, marked}
use ownpg.Audit.Sound.{IsRead, IsQuietFault, IsQuiet, IsGood, Follows, DiskSound, LogSound}
use ownpg.Audit.Sound.Lines.{
  longer, Admits, Follows-IsGood, Admits-IsGood, longer-Follows, put-DiskSound, put-same, put-other,
  put-nothing, untorn,
}

next_fault :
    (d : Disk) (faults : List Fault)
    → IsQuiet faults
    → IsQuietFault (call (record d { faults = faults })).0
      × IsQuiet (call (record d { faults = faults })).1.faults
unfolding call
next_fault d [] h = (tt, tt)
next_fault d (f ∷ fs) h = h

-- A call of the file system whose failures leave nothing.
pub call-IsQuiet :
    (d : Disk) → IsQuiet d.faults → IsQuietFault (call d).0 × IsQuiet (call d).1.faults
call-IsQuiet d h = next_fault d d.faults h

-- Only this file changes.
abbrev pub Touches : ℕ → Disk → Disk → Type 0
Touches own d d' = ((id : ℕ) → id ≢ own → d'.file id ≡ d.file id) × (d.next ≤ d'.next)

-- No file changes.
abbrev pub SameFiles : Disk → Disk → Type 0
SameFiles d d' = ((id : ℕ) → d'.file id ≡ d.file id) × (d.next ≤ d'.next)

module _ (env : Env) (parse : String → Reply Value) (reads : IsRead env.to_string parse) where
  abbrev sha : String → String
  sha = env.sha256_hex

  abbrev pub Written : OpenLog → String → Disk → OpenLog → Disk → Type 0
  Written log line d log' d' =
      LogSound parse sha log' d'
      × Touches log.file d d'
      × (log'.file ≡ log.file)
      × (last? (d'.file log.file).lines ≡ some line)

  -- How a write ends.
  abbrev pub Wrote : OpenLog → String → Disk → Result OpenLog × Disk → Type 0
  Wrote log line d (ok log', d') = DiskSound parse sha d' × Written log line d log' d'
  Wrote log line d (err error, d') = DiskSound parse sha d' × SameFiles d d'

  untouched : (f : File) → f.torn ≡ "" → record f { torn = "" } ≡ f
  untouched f h = ap (λ (t : String). record f { torn = t }) (sym h)

  marked-Wrote :
      (outcome : Fault) (log : OpenLog) (value : Value) (d : Disk)
      → IsQuietFault outcome
      → DiskSound parse sha d
      → Admits env parse reads log.prev (d.file log.file) value
      → (d.file log.file).taken ≡ true
      → log.file < d.next
      → Wrote log (env.to_string value) d (marked env outcome log (env.to_string value) d)
  unfolding put
  marked-Wrote works log value d q h a locked known =
      let line = env.to_string value in
      let f = longer env parse reads (d.file log.file) line in
      let follows = longer-Follows env parse reads log.prev (d.file log.file) value a in
      let same = put-same env parse reads d log.file f in
      let torn = (Admits-IsGood env parse reads log.prev (d.file log.file) value a).1 in
      (
        put-DiskSound env parse reads d log.file f h
            (Follows-IsGood env parse reads (sha line) f follows),
        (
          record {
            follows = subst (λ (g : File). Follows parse sha (sha line) g) (sym same) follows;
            locked = ap (λ (g : File). g.taken) same ∙ locked;
            known = known;
          },
          (λ id other. put-other env parse reads d log.file id f other, omega arith),
          refl,
          ap (λ (g : File). last? g.lines) same
              ∙ last-append (d.file log.file).lines (str_append (d.file log.file).torn line)
              ∙ ap (λ (t : String). some t) (untorn env parse reads (d.file log.file) line torn),
        ),
      )
  marked-Wrote fails log value d q h a locked known =
      let f = record (d.file log.file) { torn = "" } in
      let (good, torn) = Admits-IsGood env parse reads log.prev (d.file log.file) value a in
      let same = untouched (d.file log.file) torn in
      (
        put-DiskSound env parse reads d log.file f h (subst (IsGood parse sha) (sym same) good),
        (λ id. put-nothing env parse reads d log.file id f same, omega arith),
      )
  marked-Wrote (leaves part) log value d q h a locked known = absurd q

  pub call-DiskSound : (d : Disk) → DiskSound parse sha d → DiskSound parse sha (call d).1
  unfolding call
  call-DiskSound d h = record {
    files = h.files;
    quiet = (call-IsQuiet d h.quiet).1;
    known = h.known;
  }

  -- A line that may be written next.
  pub write_line-Wrote :
      (log : OpenLog) (value : Value) (d : Disk)
      → DiskSound parse sha d
      → Admits env parse reads log.prev (d.file log.file) value
      → (d.file log.file).taken ≡ true
      → log.file < d.next
      → Wrote log (env.to_string value) d (write_line env log (env.to_string value) d)
  unfolding write_line call
  write_line-Wrote log value d h a locked known =
      marked-Wrote (call d).0 log value (call d).1 (call-IsQuiet d h.quiet).0 (call-DiskSound d h) a
        locked known
