-- ===== src/Audit/Sink/Works.antt =====
-- A log that can be written: the file system works, the name leads to the open file and the file is
-- not full. `record` and `admit` of crates/ownpg-core/src/audit.rs then succeed.
use mathlib.Core.Path.{subst}
use ownpg.Base.{
  String, ◌≡◌, refl, sym, ◌∙◌, Bool, true, not, true≢false, List, [], ◌∷◌, ◌&&◌, leb, ltb, is_empty,
  if-keeps, arith,
}
use ownpg.Errors.{Result, ok, err}
use ownpg.Audit.Entry.{Entry}
use ownpg.Audit.Disk.{Disk, Fault, call, put}
use ownpg.Audit.Log.{Env, OpenLog, write_line, marker_text}
use ownpg.Audit.Sink.{
  Rules, Sink, Method, then_run, ◌>>◌, kept, is_set, still_at, follow, turn_over, keep_current,
  reported, gap_marker, close_gap, write_entry, with_log, write, inspected, record_entry, recovered,
  admit, is_degraded,
}

abbrev pub IsOk : Result (Unit {0}) → Type 0
IsOk (ok value) = Unit
IsOk (err error) = ⊥

-- The method succeeds and the file system still works.
abbrev Done : Result (Unit {0}) × Sink → Type 0
Done (ok value, s) = s.disk.faults ≡ []
Done (err error, s) = ⊥

abbrev Wrote : Result OpenLog × Disk → Type 0
Wrote (ok log, d) = d.faults ≡ []
Wrote (err error, d) = ⊥

then_run-Done :
    (r : Result (Unit {0}) × Sink) (next : Method)
    → Done r
    → ((s : Sink) → s.disk.faults ≡ [] → Done (next s))
    → Done (then_run r next)
then_run-Done (ok value, s) next h k = k s h
then_run-Done (err error, s) next h k = absurd h

kept-Done : (s : Sink) (r : Result OpenLog × Disk) → Wrote r → Done (kept s r)
kept-Done s (ok log, d) h = h
kept-Done s (err error, d) h = absurd h

module _ (env : Env) where
  works_without :
      (log : OpenLog) (line : String) (d : Disk)
      → Wrote (write_line env log line (record d { faults = [] }))
  unfolding write_line call put
  works_without log line d = refl

  write_line-Wrote :
      (log : OpenLog) (line : String) (d : Disk) → d.faults ≡ [] → Wrote (write_line env log line d)
  write_line-Wrote log line d h =
      subst
        (λ (faults : List Fault). Wrote (write_line env log line (record d { faults = faults })))
        (sym h) (works_without log line d)

  module _ (rules : Rules) where
    -- No failure is coming, the name leads to the open file, and the file is not full.
    abbrev pub is_steady : Sink → Bool
    is_steady s =
        is_empty s.disk.faults
        && not (not (is_set s.log.rotated_to) && not (still_at s.log rules.base s.disk))
        && not (ltb 0 rules.max_bytes && leb rules.max_bytes s.log.written)

    no_faults : (faults : List Fault) → is_empty faults ≡ true → faults ≡ []
    no_faults [] h = refl
    no_faults (f ∷ fs) h = cc

    keep_current-Done : (s : Sink) → is_steady s ≡ true → Done (keep_current rules env s)
    unfolding keep_current follow turn_over
    keep_current-Done s h =
        let faults = no_faults s.disk.faults (ground arith) in
        if-keeps (λ (r : Result (Unit {0}) × Sink). Done (then_run r (turn_over rules env)))
          (not (is_set s.log.rotated_to) && not (still_at s.log rules.base s.disk))
          (λ moved. absurd (true≢false (ground arith)))
          (λ _.
            if-keeps Done (ltb 0 rules.max_bytes && leb rules.max_bytes s.log.written)
              (λ full. absurd (true≢false (ground arith))) (λ _. faults))

    close_gap-Done : (s : Sink) → s.disk.faults ≡ [] → Done (close_gap rules env s)
    unfolding close_gap
    close_gap-Done s h =
        if-keeps Done s.degraded
          (λ _.
            then_run-Done
              (kept s (write_line env s.log (marker_text env (gap_marker rules env s)) s.disk))
              (reported rules env) (kept-Done s _ (write_line-Wrote s.log _ s.disk h)) (λ t k. k))
          (λ _. h)

    write_entry-Done :
        (entry : Entry) (s : Sink) → s.disk.faults ≡ [] → Done (write_entry rules env entry s)
    unfolding write_entry
    write_entry-Done entry s h = kept-Done s _ (write_line-Wrote s.log _ s.disk h)

    inspected-IsOk : (r : Result (Unit {0}) × Sink) → Done r → IsOk (inspected rules env r).0
    unfolding inspected
    inspected-IsOk (ok value, s) h = tt
    inspected-IsOk (err error, s) h = absurd h

    pub record_entry-IsOk :
        (s : Sink) (entry : Entry)
        → rules.enabled ≡ true
        → is_steady s ≡ true
        → IsOk (record_entry rules env entry s).0
    unfolding record_entry write with_log
    record_entry-IsOk s entry on h = inspected-IsOk _ (
        if-keeps Done rules.enabled
          (λ _. then_run-Done (keep_current rules env s) _ (keep_current-Done s h) (λ t k.
            then_run-Done (close_gap rules env t) (write_entry rules env entry) (close_gap-Done t k)
              (write_entry-Done entry)))
          (λ e. absurd (true≢false (sym on ∙ e))))

    close-Done :
        (s : Sink) → is_steady s ≡ true → Done ((keep_current rules env >> close_gap rules env) s)
    close-Done s h =
        then_run-Done (keep_current rules env s) (close_gap rules env) (keep_current-Done s h)
          close_gap-Done

    recovered-IsOk :
        (read_only : Bool) (r : Result (Unit {0}) × Sink)
        → Done r
        → IsOk (recovered rules env read_only r).0
    unfolding recovered
    recovered-IsOk read_only (ok value, s) h = tt
    recovered-IsOk read_only (err error, s) h = absurd h

    -- A call is admitted by a log that can be written.
    pub admit-IsOk :
        (read_only : Bool) (s : Sink) → is_steady s ≡ true → IsOk (admit rules env read_only s).0
    unfolding admit with_log is_degraded
    admit-IsOk read_only s h =
        if-keeps (λ (r : Result (Unit {0}) × Sink). IsOk r.0) (rules.enabled && s.degraded)
          (λ _. recovered-IsOk read_only _ (
            if-keeps Done rules.enabled (λ _. close-Done s h)
              (λ _. no_faults s.disk.faults (ground arith))))
          (λ _. tt)
