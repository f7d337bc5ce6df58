-- ===== src/Audit/Sound/Methods.antt =====
-- The methods of the sink keep the audit files sound.
use mathlib.Core.Path.{subst}
use ownpg.Base.{
  inl, ℕ, ◌<◌, String, ◌≡◌, refl, sym, ap, ◌∙◌, inr, Bool, true, false, not, true≢false, some, ◌&&◌,
  leb, ltb, last?, if-keeps,
}
use ownpg.Json.{Value}
use ownpg.Errors.{Result, ok, err}
use ownpg.Classify.Statement.{Reply}
use ownpg.Audit.Entry.{Entry, line_value, marker_value}
use ownpg.Audit.Entry.Reads.{line_value-Continues, marker_value-Continues}
use ownpg.Config.Failure
use ownpg.Audit.Disk.{Disk}
use ownpg.Audit.Log.{
  Env, OpenLog, write_line, marker_named, marker_text, open_file, rotate, rotated, resumed,
  or_empty,
}
use ownpg.Audit.Sink.{
  Rules, Sink, Method, then_run, ◌>>◌, kept, adopted, is_set, still_at, resume, renamed, move_away,
  reopened, open_next, follow, turn_over, keep_current, reported, gap_marker, close_gap,
  write_entry, with_log, write, note_failure, inspected, record_entry, recovered, is_degraded,
  admit,
}
use ownpg.Audit.Sound.{IsRead, Follows, DiskSound, LogSound, IsSound}
use ownpg.Audit.Sound.Writing.{Wrote}
use ownpg.Audit.Sound.Tail.{Reads}
use ownpg.Audit.Sound.Sparing.{Opened, open_file-Opened}
use ownpg.Audit.Sound.Pruning.{LogSound-same, Moved, rotate-Reads}
use ownpg.Audit.Sound.Steps.{
  written-Wrote, kept-Sound, adopted-Sound, failed-Sound, replaced-Sound, Quiet-Sound,
  then_run-Sound, prune-Sound,
}

module _ (env : Env) (parse : String → Reply Value) (reads : IsRead env.to_string parse)
    (rules : Rules) where
  abbrev Good : Sink → Type 0
  Good s = IsSound parse env.sha256_hex s

  resume-Sound : (s : Sink) → Good s → Good (resume rules env s).1
  unfolding resume
  resume-Sound s h =
      replaced-Sound env parse reads s
        (open_file env rules.base (resumed rules.on_failure) s.log.prev s.disk) h
        (open_file-Opened env parse reads rules.base (resumed rules.on_failure) s.log.prev s.disk tt
          h.disk)

  renamed-Sound :
      (s : Sink) (r : Result (String × OpenLog) × Disk)
      → Good s
      → Reads env parse reads (Moved env parse reads s.log) s.disk r
      → Good (renamed rules env s r).1
  renamed-Sound s (ok (name, log), d) h (disk, (same, (file, prev))) =
      let moved = LogSound-same env parse reads s.log s.disk d same h.log in
      record {
        disk = disk;
        log = record {
          follows =
              subst (λ (p : String). Follows parse env.sha256_hex p (d.file log.file)) (sym prev)
                (subst (λ (n : ℕ). Follows parse env.sha256_hex s.log.prev (d.file n)) (sym file)
                  moved.follows);
          locked = ap (λ (n : ℕ). (d.file n).taken) file ∙ moved.locked;
          known = subst (λ (n : ℕ). n < d.next) (sym file) moved.known;
        };
      }
  renamed-Sound s (err error, d) h quiet = Quiet-Sound env parse reads s d h quiet

  move_away-Sound : (s : Sink) → Good s → Good (move_away rules env s).1
  unfolding move_away
  move_away-Sound s h =
      if-keeps (λ (r : Result (Unit {0}) × Sink). Good r.1) (is_set s.log.rotated_to) (λ _. h)
        (λ _.
          renamed-Sound s (rotate env s.log s.disk) h
            (rotate-Reads env parse reads s.log s.disk h.disk))

  reopened-Sound :
      (s : Sink) (r : Result OpenLog × Disk)
      → Good s
      → Opened env parse reads s.disk r
      → Good (reopened rules env s r)
  unfolding reopened
  reopened-Sound s (ok log, d) h o =
      prune-Sound env parse reads rules (adopted s log d)
        (adopted-Sound env parse reads s log d h o)
  reopened-Sound s (err error, d) h o = failed-Sound env parse reads s error d h o

  open_next-Sound : (s : Sink) → Good s → Good (open_next rules env s).1
  unfolding open_next
  open_next-Sound s h =
      let start = rotated rules.on_failure (or_empty s.log.rotated_to) in
      reopened-Sound s (open_file env rules.base start s.log.prev s.disk) h
        (open_file-Opened env parse reads rules.base start s.log.prev s.disk tt h.disk)

  follow-Sound : (s : Sink) → Good s → Good (follow rules env s).1
  unfolding follow
  follow-Sound s h =
      if-keeps (λ (r : Result (Unit {0}) × Sink). Good r.1)
        (not (is_set s.log.rotated_to) && not (still_at s.log rules.base s.disk))
        (λ _. resume-Sound s h) (λ _. h)

  turn_over-Sound : (s : Sink) → Good s → Good (turn_over rules env s).1
  unfolding turn_over
  turn_over-Sound s h =
      if-keeps (λ (r : Result (Unit {0}) × Sink). Good r.1)
        (ltb 0 rules.max_bytes && leb rules.max_bytes s.log.written)
        (λ _.
          then_run-Sound env parse reads (move_away rules env s) (open_next rules env)
            (move_away-Sound s h) open_next-Sound)
        (λ _. h)

  keep_current-Sound : (s : Sink) → Good s → Good (keep_current rules env s).1
  unfolding keep_current
  keep_current-Sound s h =
      then_run-Sound env parse reads (follow rules env s) (turn_over rules env) (follow-Sound s h)
        turn_over-Sound

  -- The counters are no part of what is sound.
  counted-Sound : (s t : Sink) → s.disk ≡ t.disk → s.log ≡ t.log → Good s → Good t
  counted-Sound s t d l h = record {
    disk = subst (DiskSound parse env.sha256_hex) d h.disk;
    log =
        subst (λ (log : OpenLog). LogSound parse env.sha256_hex log t.disk) l
          (subst (LogSound parse env.sha256_hex s.log) d h.log);
  }

  close_gap-Sound : (s : Sink) → Good s → Good (close_gap rules env s).1
  unfolding close_gap marker_text marker_named
  close_gap-Sound s h =
      let m = gap_marker rules env s in
      if-keeps (λ (r : Result (Unit {0}) × Sink). Good r.1) s.degraded
        (λ _.
          then_run-Sound env parse reads
            (kept s (write_line env s.log (env.to_string (marker_value m)) s.disk))
            (reported rules env)
            (kept-Sound env parse reads s _ _ h (
              written-Wrote env parse reads s (marker_value m) h (inr (m, refl))
                (marker_value-Continues m (inr (refl, refl)))))
            (λ t h. counted-Sound t (record t { unreported = 0; degraded = false }) refl refl h))
        (λ _. h)

  write_entry-Sound : (entry : Entry) (s : Sink) → Good s → Good (write_entry rules env entry s).1
  unfolding write_entry
  write_entry-Sound entry s h = kept-Sound env parse reads s _ _ h (
      written-Wrote env parse reads s (line_value env.timestamp entry s.log.prev) h
        (inl (env.timestamp, entry, s.log.prev, refl))
        (line_value-Continues env.timestamp entry s.log.prev))

  with_log-Sound :
      (work : Method) (s : Sink)
      → ((t : Sink) → Good t → Good (work t).1)
      → Good s
      → Good (with_log rules env work s).1
  unfolding with_log
  with_log-Sound work s k h =
      if-keeps (λ (r : Result (Unit {0}) × Sink). Good r.1) rules.enabled
        (λ _.
          then_run-Sound env parse reads (keep_current rules env s) work (keep_current-Sound s h) k)
        (λ _. h)

  write-Sound : (entry : Entry) (s : Sink) → Good s → Good (write rules env entry s).1
  unfolding write
  write-Sound entry s h =
      with_log-Sound (close_gap rules env >> write_entry rules env entry) s
        (λ t h.
          then_run-Sound env parse reads (close_gap rules env t) (write_entry rules env entry)
            (close_gap-Sound t h) (write_entry-Sound entry))
        h

  inspected-Sound : (r : Result (Unit {0}) × Sink) → Good r.1 → Good (inspected rules env r).1
  unfolding inspected note_failure
  inspected-Sound (ok value, s) h = h
  inspected-Sound (err error, s) h = counted-Sound s (note_failure rules env error s) refl refl h

  -- Whichever calls of the file system fail, as long as a failed write is cut back: every file of the
  -- log that has no overlong line still verifies, and the open log still goes on with its file.
  pub record_entry-IsSound :
      (s : Sink) (entry : Entry)
      → IsSound parse env.sha256_hex s
      → IsSound parse env.sha256_hex (record_entry rules env entry s).1
  unfolding record_entry
  record_entry-IsSound s entry h = inspected-Sound (write rules env entry s) (write-Sound entry s h)

  recovered-Sound :
      (read_only : Bool) (r : Result (Unit {0}) × Sink)
      → Good r.1
      → Good (recovered rules env read_only r).1
  unfolding recovered
  recovered-Sound read_only (ok value, s) h = h
  recovered-Sound read_only (err error, s) h =
      let left = record s { last_failure = some error } in
      if-keeps (λ (r : Result (Unit {0}) × Sink). Good r.1)
        (Failure.refuses rules.on_failure read_only) (λ _. counted-Sound s left refl refl h)
        (λ _. counted-Sound s left refl refl h)

  -- The attempt to write a degraded log again keeps the files sound as well.
  pub admit-IsSound :
      (read_only : Bool) (s : Sink)
      → IsSound parse env.sha256_hex s
      → IsSound parse env.sha256_hex (admit rules env read_only s).1
  unfolding admit
  admit-IsSound read_only s h =
      if-keeps (λ (r : Result (Unit {0}) × Sink). Good r.1) (is_degraded rules env s)
        (λ _.
          recovered-Sound read_only (with_log rules env (close_gap rules env) s)
            (with_log-Sound (close_gap rules env) s close_gap-Sound h))
        (λ _. h)

  -- A record that succeeds ends with the entry in the file of the log.
  abbrev pub Ends : Entry → Result (Unit {0}) × Sink → Type 0
  Ends entry (ok value, t) =
      (prev : String) × (last? (t.disk.file t.log.file).lines
        ≡ some (env.to_string (line_value env.timestamp entry prev)))
  Ends entry (err error, t) = Unit

  kept-Ends :
      (entry : Entry) (s : Sink) (r : Result OpenLog × Disk)
      → Wrote env parse reads s.log
          (env.to_string (line_value env.timestamp entry s.log.prev))
          s.disk
          r
      → Ends entry (kept s r)
  kept-Ends entry s (ok log, d) (_, (_, _, at, last)) =
      (s.log.prev, ap (λ (n : ℕ). last? (d.file n).lines) at ∙ last)
  kept-Ends entry s (err error, d) h = tt

  then_run-Ends :
      (entry : Entry) (r : Result (Unit {0}) × Sink) (next : Method)
      → Good r.1
      → ((s : Sink) → Good s → Ends entry (next s))
      → Ends entry (then_run r next)
  then_run-Ends entry (ok value, s) next h k = k s h
  then_run-Ends entry (err error, s) next h k = tt

  write_entry-Ends :
      (entry : Entry) (s : Sink) → Good s → Ends entry (write_entry rules env entry s)
  unfolding write_entry
  write_entry-Ends entry s h = kept-Ends entry s _ (
      written-Wrote env parse reads s (line_value env.timestamp entry s.log.prev) h
        (inl (env.timestamp, entry, s.log.prev, refl))
        (line_value-Continues env.timestamp entry s.log.prev))

  inspected-Ends :
      (entry : Entry) (r : Result (Unit {0}) × Sink)
      → Ends entry r
      → Ends entry (inspected rules env r)
  unfolding inspected
  inspected-Ends entry (ok value, s) h = h
  inspected-Ends entry (err error, s) h = tt

  -- A record that succeeds leaves the entry as the last line of the file that the log goes on with,
  -- also where the log was moved aside, was opened again, or told of a gap before.
  pub record_entry-Ends :
      (s : Sink) (entry : Entry)
      → rules.enabled ≡ true
      → IsSound parse env.sha256_hex s
      → Ends entry (record_entry rules env entry s)
  unfolding record_entry write with_log
  record_entry-Ends s entry on h = inspected-Ends entry _ (
      if-keeps (Ends entry) rules.enabled
        (λ _. then_run-Ends entry (keep_current rules env s) _ (keep_current-Sound s h) (λ t h.
          then_run-Ends entry (close_gap rules env t) (write_entry rules env entry)
            (close_gap-Sound t h) (write_entry-Ends entry)))
        (λ e. absurd (true≢false (sym on ∙ e))))
