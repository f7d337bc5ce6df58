-- ===== src/Audit/Sound/Runs.antt =====
-- The runs of a server with its audit log: the sink is opened, then entries are recorded and calls are
-- admitted, at any times, while other processes may move, remove or create files.
use mathlib.Core.Path.{subst}
use ownpg.Base.{
  ℕ, ◌≤◌, arith, String, ◌≡◌, refl, sym, ap, ◌∙◌, Bool, true, not, true≢false, Option, if-keeps,
}
use ownpg.Json.{Value}
use ownpg.Errors.{Result, ok, err}
use ownpg.Classify.Statement.{Reply}
use ownpg.Audit.Entry.{Entry}
use ownpg.Audit.Disk.{Disk, File}
use ownpg.Audit.Family.{Family}
use ownpg.Audit.Log.{Env, OpenLog, fresh}
use ownpg.Audit.Sink.{Rules, Sink, record_entry, admit}
use ownpg.Audit.Sink.Setup.{Settings, location, rules_of, new_sink, started, open_sink}
use ownpg.Audit.Sink.Gaps.{IsCounted, record_entry-Accounts, admit-IsCounted, prune-IsCounted}
use ownpg.Audit.Sound.{IsRead, DiskSound, IsSound, Follows}
use ownpg.Audit.Sound.Sparing.{Opened, open_file-Opened}
use ownpg.Audit.Sound.Steps.{prune-Sound}
use ownpg.Audit.Sound.Methods.{record_entry-IsSound, admit-IsSound}

-- The clocks of one call.
pub record Moment : Type 0 where
  pub timestamp : String
  pub unix_timestamp : ℕ
  pub now : ℕ

abbrev pub at : Env → Moment → Env
at env m = record env { timestamp = m.timestamp; unix_timestamp = m.unix_timestamp; now = m.now }

-- What other processes do in the directory meanwhile: names come, go and lead elsewhere, files are
-- made, written and locked, and calls of the file system will fail. The file that the log has locked
-- stays as it is, and each other file verifies, is empty or has a line that is too long.
pub record Disturbs (parse : String → Reply Value) (sha : String → String) (s : Sink) (d : Disk)
    : Type 0 where
  pub sound : DiskSound parse sha d
  pub spared : d.file s.log.file ≡ s.disk.file s.log.file
  pub grows : s.disk.next ≤ d.next

module _ (env : Env) (parse : String → Reply Value) (rules : Rules) where
  -- The sinks that a run meets after this one.
  pub data Reached (start : Sink) : Sink → Type 0 where
    begun : Reached start start
    recorded :
        (s : Sink) (entry : Entry) (m : Moment)
        → Reached start s
        → Reached start (record_entry rules (at env m) entry s).1
    admitted :
        (s : Sink) (read_only : Bool) (m : Moment)
        → Reached start s
        → Reached start (admit rules (at env m) read_only s).1
    changed :
        (s : Sink) (d : Disk)
        → Disturbs parse env.sha256_hex s d
        → Reached start s
        → Reached start (record s { disk = d })

  module _ (reads : IsRead env.to_string parse) (on : rules.enabled ≡ true) where
    abbrev pub Holds : Sink → Type 0
    Holds s = IsSound parse env.sha256_hex s × IsCounted s

    Reached-Holds : (start s : Sink) → Reached start s → Holds start → Holds s
    Reached-Holds start s begun h = h
    Reached-Holds start _ (recorded s entry m r) h =
        let (sound, known) = Reached-Holds start s r h in
        (
          record_entry-IsSound (at env m) parse reads rules s entry sound,
          (record_entry-Accounts rules (at env m) s entry on known).1,
        )
    Reached-Holds start _ (admitted s read_only m r) h =
        let (sound, known) = Reached-Holds start s r h in
        (
          admit-IsSound (at env m) parse reads rules read_only s sound,
          admit-IsCounted rules (at env m) read_only s on known,
        )
    Reached-Holds start _ (changed s d disturbs r) h =
        let (sound, counted) = Reached-Holds start s r h in
        (
          record {
            disk = disturbs.sound;
            log = record {
              follows =
                  subst (Follows parse env.sha256_hex s.log.prev) (sym disturbs.spared)
                    sound.log.follows;
              locked = ap (λ (f : File). f.taken) disturbs.spared ∙ sound.log.locked;
              known = omega (arith, sound.log.known, disturbs.grows);
            };
          },
          counted,
        )

module _ (env : Env) (parse : String → Reply Value) (reads : IsRead env.to_string parse) where
  abbrev Begins : Result (Rules × Sink) × Disk → Type 0
  Begins (ok (rules, s), d) =
      (rules.enabled ≡ true) × (IsSound parse env.sha256_hex s × IsCounted s)
  Begins (err error, d) = Unit

  started-Begins :
      (settings : Settings) (base : String × Family) (d : Disk) (r : Result OpenLog × Disk)
      → Opened env parse reads d r
      → Begins (started env (rules_of env settings base) r)
  unfolding started
  started-Begins settings base d (ok log, d') (disk, (log_sound, _)) =
      let rules = rules_of env settings base in
      let s = new_sink env log d' in
      (
        refl,
        (
          prune-Sound env parse reads rules s (record { disk = disk; log = log_sound }),
          prune-IsCounted rules env s (λ _. refl),
        ),
      )
  started-Begins settings base d (err error, d') h = tt

  open_sink-Begins :
      (settings : Settings) (profile : Option String) (d : Disk)
      → settings.enabled ≡ true
      → DiskSound parse env.sha256_hex d
      → Begins (open_sink env settings profile d)
  unfolding open_sink
  open_sink-Begins settings profile d on h =
      let base = location env settings.path profile in
      let rules = rules_of env settings base in
      if-keeps Begins (not settings.enabled) (λ off. absurd (true≢false (sym off ∙ ap not on)))
        (λ _.
          started-Begins settings base d _
            (open_file-Opened env parse reads rules.base (fresh rules.on_failure) "" d refl h))

  -- A server opens its log in a directory where every file of the log verifies or is empty, or has a
  -- line of 65536 bytes or more, and then records and admits, in any order and number. Then each file
  -- still is so, the open log goes on with its file, and no loss is untold while the log is not
  -- degraded. Calls of the file system may fail, but a write that fails is cut back. In between other
  -- processes may change names and files, but not the file that the log has locked, and they leave
  -- each file in one of the three states. The parser is assumed to read each line that the log writes
  -- and to find the version, `prev`, `marker`, `rotated_from` and `resumed` as they were written.
  pub run-Holds :
      (settings : Settings) (profile : Option String) (d d' : Disk) (rules : Rules) (start s : Sink)
      → settings.enabled ≡ true
      → DiskSound parse env.sha256_hex d
      → open_sink env settings profile d ≡ (ok (rules, start), d')
      → Reached env parse rules start s
      → IsSound parse env.sha256_hex s × IsCounted s
  run-Holds settings profile d d' rules start s on h opened r =
      let (enabled, begins) = subst Begins opened (open_sink-Begins settings profile d on h) in
      Reached-Holds env parse rules reads enabled start s r begins
