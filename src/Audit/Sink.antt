-- ===== src/Audit/Sink.antt =====
-- The audit sink: `Sink` of crates/ownpg-core/src/audit.rs, with its record, its gaps and its
-- degraded mode. A method takes the state of the sink and returns it; a failed method keeps what it
-- has changed. `record` and `admit` hold the lock of the log, which is not poisoned.
pub mod Active
pub mod Setup
pub mod Counts
pub mod Works
pub mod Gaps
pub mod Tests
use ownpg.Base.{
  ℕ, suc, ◌+◌, ◌%◌, String, Bool, true, false, not, Option, none, some, List, [], ◌∷◌, ◌&&◌, ◌||◌,
  leb, ltb, eqb, is_empty, if◌then◌else◌,
}
use ownpg.Errors.{Error, Result, ok, err, audit_unwritable, audit_degraded}
use ownpg.Config.Failure
use ownpg.Config.Failure.{AuditFailure}
use ownpg.Audit.Entry.{Entry, Marker, PrunedFile, line_value}
use ownpg.Audit.Disk.{Disk, works, named, call}
use ownpg.Audit.Family.{Family}
use ownpg.Audit.Log.{
  Env, OpenLog, Io, write_line, marker_named, marker_text, open_file, rotate, Start, fresh, resumed,
  rotated, release, or_empty,
}
use ownpg.Audit.Retention.{closed_files, sort_closed, selected, remove_all}

-- The fields that never change.
pub record Rules : Type 0 where
  pub max_bytes : ℕ
  pub keep_files : ℕ
  pub keep_days : ℕ
  pub on_failure : AuditFailure
  pub base : String
  pub family : Family
  pub enabled : Bool

pub record Sink : Type 0 where
  pub disk : Disk
  pub log : OpenLog
  pub dropped : ℕ
  pub unreported : ℕ
  pub degraded : Bool
  pub last_failure : Option Error

abbrev pub Method : Type 0
Method = Sink → Result (Unit {0}) × Sink

-- `?` between two methods.
abbrev pub then_run : Result (Unit {0}) × Sink → Method → Result (Unit {0}) × Sink
then_run (err stop, s) next = (err stop, s)
then_run (ok value, s) next = next s

infixl 5 ◌>>◌
abbrev pub ◌>>◌ : Method → Method → Method
◌>>◌ first second s = then_run (first s) second

-- What an action on the disk leaves of the sink, where it returns the log.
abbrev pub kept : Sink → Result OpenLog × Disk → Result (Unit {0}) × Sink
kept s (err stop, d) = (err stop, record s { disk = d })
kept s (ok log, d) = (ok tt, record s { disk = d; log = log })

-- The handle that is replaced is dropped.
unfoldable pub adopted : Sink → OpenLog → Disk → Sink
unfolding release
adopted s log d = record s { disk = release s.log.file d; log = log }

unfoldable pub replaced : Sink → Result OpenLog × Disk → Result (Unit {0}) × Sink
unfolding release
replaced s (err stop, d) = (err stop, record s { disk = d })
replaced s (ok log, d) = (ok tt, adopted s log d)

abbrev same_file : ℕ → Option ℕ → Bool
same_file id none = false
same_file id (some other) = eqb id other

-- `still_at`: the name leads to the open file.
unfoldable pub still_at : OpenLog → String → Disk → Bool
unfolding named
still_at log path d = same_file log.file (named path d.names)

abbrev pub is_set : Option String → Bool
is_set none = false
is_set (some s) = true

abbrev pub u64_size : ℕ
u64_size = 18446744073709551616

module _ (rules : Rules) (env : Env) where
  unfoldable pub is_degraded : Sink → Bool
  is_degraded s = rules.enabled && s.degraded

  -- The marker of the removed files; a failure to write it is only noted.
  unfoldable pub note_pruned : List PrunedFile → Sink → Sink
  unfolding write_line marker_text marker_named
  note_pruned [] s = s
  note_pruned (p ∷ ps) s =
      (kept s (
        write_line env s.log
          (marker_text env (record (marker_named env "pruned" s.log.prev) { pruned = p ∷ ps }))
          s.disk)).1

  unfoldable pub prune_listed : Sink → Sink
  unfolding closed_files sort_closed selected remove_all note_pruned
  prune_listed s =
      let active = rules.base ∷ s.log.path ∷ [] in
      let closed = sort_closed (closed_files rules.family active s.disk s.disk.names) in
      let (pruned, d) =
        remove_all env (selected env.now rules.keep_days rules.keep_files closed) s.disk in
      note_pruned pruned (record s { disk = d })

  -- Without a limit nothing is pruned, and a directory that cannot be listed is only noted.
  unfoldable pub prune : Sink → Sink
  unfolding call prune_listed
  prune s =
      if eqb rules.keep_days 0 && eqb rules.keep_files 0
      then s
      else let (outcome, d) = call s.disk in
        elim outcome [ works ↦ prune_listed (record s { disk = d }) | _ ↦ record s { disk = d } ]

  -- A log that was moved or removed goes on in a new file.
  unfoldable pub resume : Method
  unfolding open_file release
  resume s = replaced s (open_file env rules.base (resumed rules.on_failure) s.log.prev s.disk)

  abbrev pub renamed : Sink → Result (String × OpenLog) × Disk → Result (Unit {0}) × Sink
  renamed s (err stop, d) = (err stop, record s { disk = d })
  renamed s (ok (name, log), d) =
      (ok tt, record s { disk = d; log = record log { rotated_to = some name } })

  unfoldable pub move_away : Method
  unfolding rotate
  move_away s = if is_set s.log.rotated_to then (ok tt, s) else renamed s (rotate env s.log s.disk)

  unfoldable pub reopened : Sink → Result OpenLog × Disk → Sink
  unfolding prune release
  reopened s (err stop, d) = record s { disk = d }
  reopened s (ok log, d) = prune (adopted s log d)

  -- Where the new file cannot be opened, the log goes on in the file that was moved away.
  unfoldable pub open_next : Method
  unfolding open_file prune release
  open_next s =
      let source = or_empty s.log.rotated_to in
      (
        ok tt,
        reopened s (open_file env rules.base (rotated rules.on_failure source) s.log.prev s.disk),
      )

  unfoldable pub follow : Method
  unfolding still_at resume
  follow s =
      if not (is_set s.log.rotated_to) && not (still_at s.log rules.base s.disk)
      then resume s
      else (ok tt, s)

  unfoldable pub turn_over : Method
  unfolding move_away open_next
  turn_over s =
      if ltb 0 rules.max_bytes && leb rules.max_bytes s.log.written
      then (move_away >> open_next) s
      else (ok tt, s)

  unfoldable pub keep_current : Method
  unfolding follow turn_over
  keep_current = follow >> turn_over

  abbrev pub reported : Method
  reported s = (ok tt, record s { unreported = 0; degraded = false })

  abbrev pub gap_marker : Sink → Marker
  gap_marker s = record (marker_named env "gap" s.log.prev) { dropped = some s.unreported }

  -- `unreported` falls by the number that the marker has, which was its own.
  unfoldable pub close_gap : Method
  unfolding write_line marker_text marker_named
  close_gap s =
      if s.degraded
      then ((λ s. kept s (write_line env s.log (marker_text env (gap_marker s)) s.disk))
            >> reported)
          s
      else (ok tt, s)

  unfoldable pub write_entry : Entry → Method
  unfolding write_line line_value
  write_entry entry s =
      kept s
        (write_line env s.log (env.to_string (line_value env.timestamp entry s.log.prev)) s.disk)

  unfoldable pub with_log : Method → Method
  unfolding keep_current
  with_log work s = if rules.enabled then (keep_current >> work) s else (ok tt, s)

  unfoldable pub write : Entry → Method
  unfolding with_log close_gap write_entry
  write entry = with_log (close_gap >> write_entry entry)

  unfoldable pub note_failure : Error → Sink → Sink
  note_failure error s = record s {
    dropped = (s.dropped + 1) % u64_size;
    unreported = (s.unreported + 1) % u64_size;
    degraded = true;
    last_failure = some error;
  }

  unfoldable pub inspected : Result (Unit {0}) × Sink → Result (Unit {0}) × Sink
  unfolding note_failure
  inspected (ok done, s) = (ok done, s)
  inspected (err error, s) = (err error, note_failure error s)

  -- `Sink::record`
  unfoldable pub record_entry : Entry → Method
  unfolding write note_failure
  record_entry entry s = inspected (write entry s)

  unfoldable pub recovered : Bool → Result (Unit {0}) × Sink → Result (Unit {0}) × Sink
  unfolding Failure.refuses Failure.as_str
  recovered read_only (ok done, s) = (ok done, s)
  recovered read_only (err error, s) =
      let s' = record s { last_failure = some error } in
      if Failure.refuses rules.on_failure read_only
      then (err (audit_degraded (Failure.as_str rules.on_failure) error), s')
      else (ok tt, s')

  -- Before a call runs: a degraded log is written again, or the policy decides.
  unfoldable pub admit : Bool → Method
  unfolding is_degraded with_log close_gap Failure.refuses Failure.as_str
  admit read_only s =
      if is_degraded s then recovered read_only (with_log close_gap s) else (ok tt, s)
