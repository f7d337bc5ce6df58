-- ===== src/Audit/Sink/Counts.antt =====
-- What leaves the counters of the audit sink alone: everything that follows, moves and prunes the log
-- in crates/ownpg-core/src/audit.rs.
use ownpg.Base.{String, ◌≡◌, refl, ◌∙◌, not, some, List, [], ◌∷◌, ◌&&◌, eqb, leb, ltb, if-keeps}
use ownpg.Errors.{Result, ok, err}
use ownpg.Audit.Entry.{PrunedFile}
use ownpg.Audit.Disk.{Disk, call, fault-keeps}
use ownpg.Audit.Log.{
  Env, OpenLog, release, write_line, open_file, rotate, or_empty, resumed, rotated, marker_text,
  marker_named,
}
use ownpg.Audit.Retention.{closed_files, sort_closed, selected, remove_all}
use ownpg.Audit.Sink.{
  Rules, Sink, Method, then_run, kept, adopted, replaced, note_pruned, prune_listed, prune, resume,
  move_away, renamed, reopened, open_next, follow, turn_over, keep_current, still_at, is_set,
}

-- The counters are what they were.
pub record SameCounts (s s' : Sink) : Type 0 where
  pub same_dropped : s'.dropped ≡ s.dropped
  pub same_unreported : s'.unreported ≡ s.unreported
  pub same_degraded : s'.degraded ≡ s.degraded

pub unchanged : (s : Sink) → SameCounts s s
unchanged s = record { same_dropped = refl; same_unreported = refl; same_degraded = refl }

pub moved : (s : Sink) (d : Disk) (log : OpenLog) → SameCounts s (record s { disk = d; log = log })
moved s d log = record { same_dropped = refl; same_unreported = refl; same_degraded = refl }

pub both : (a b c : Sink) → SameCounts a b → SameCounts b c → SameCounts a c
both a b c h k = record {
  same_dropped = k.same_dropped ∙ h.same_dropped;
  same_unreported = k.same_unreported ∙ h.same_unreported;
  same_degraded = k.same_degraded ∙ h.same_degraded;
}

then_run-SameCounts :
    (s : Sink) (r : Result (Unit {0}) × Sink) (next : Method)
    → SameCounts s r.1
    → ((s' : Sink) → SameCounts s' (next s').1)
    → SameCounts s (then_run r next).1
then_run-SameCounts s (ok value, s') next h k = both s s' (next s').1 h (k s')
then_run-SameCounts s (err error, s') next h k = h

kept-SameCounts : (s : Sink) (r : Result OpenLog × Disk) → SameCounts s (kept s r).1
kept-SameCounts s (ok log, d) = moved s d log
kept-SameCounts s (err error, d) = moved s d s.log

replaced-SameCounts : (s : Sink) (r : Result OpenLog × Disk) → SameCounts s (replaced s r).1
unfolding replaced adopted
replaced-SameCounts s (ok log, d) = moved s (release s.log.file d) log
replaced-SameCounts s (err error, d) = moved s d s.log

module _ (rules : Rules) (env : Env) where
  note_pruned-SameCounts :
      (ps : List PrunedFile) (s : Sink) → SameCounts s (note_pruned rules env ps s)
  unfolding note_pruned
  note_pruned-SameCounts [] s = unchanged s
  note_pruned-SameCounts (p ∷ ps) s = kept-SameCounts s (
      write_line env s.log
        (marker_text env (record (marker_named env "pruned" s.log.prev) { pruned = p ∷ ps }))
        s.disk)

  prune_listed-SameCounts : (s : Sink) → SameCounts s (prune_listed rules env s)
  unfolding prune_listed
  prune_listed-SameCounts s =
      let closed =
        sort_closed
          (closed_files rules.family (rules.base ∷ s.log.path ∷ []) s.disk s.disk.names) in
      let (pruned, d) =
        remove_all env (selected env.now rules.keep_days rules.keep_files closed) s.disk in
      let left = record s { disk = d } in
      both s left (note_pruned rules env pruned left) (moved s d s.log)
        (note_pruned-SameCounts pruned left)

  pub prune-SameCounts : (s : Sink) → SameCounts s (prune rules env s)
  unfolding prune call
  prune-SameCounts s =
      let (outcome, d) = call s.disk in
      let left = record s { disk = d } in
      if-keeps (SameCounts s) (eqb rules.keep_days 0 && eqb rules.keep_files 0) (λ _. unchanged s)
        (λ _.
          fault-keeps (SameCounts s) outcome
            (both s left (prune_listed rules env left) (moved s d s.log)
              (prune_listed-SameCounts left))
            (moved s d s.log))

  renamed-SameCounts :
      (s : Sink) (r : Result (String × OpenLog) × Disk) → SameCounts s (renamed rules env s r).1
  renamed-SameCounts s (ok (name, log), d) = moved s d (record log { rotated_to = some name })
  renamed-SameCounts s (err error, d) = moved s d s.log

  move_away-SameCounts : (s : Sink) → SameCounts s (move_away rules env s).1
  unfolding move_away
  move_away-SameCounts s =
      if-keeps (λ (r : Result (Unit {0}) × Sink). SameCounts s r.1) (is_set s.log.rotated_to)
        (λ _. unchanged s) (λ _. renamed-SameCounts s (rotate env s.log s.disk))

  reopened-SameCounts :
      (s : Sink) (r : Result OpenLog × Disk) → SameCounts s (reopened rules env s r)
  unfolding reopened adopted
  reopened-SameCounts s (ok log, d) =
      both s (adopted s log d) (prune rules env (adopted s log d))
        (moved s (release s.log.file d) log) (prune-SameCounts (adopted s log d))
  reopened-SameCounts s (err error, d) = moved s d s.log

  open_next-SameCounts : (s : Sink) → SameCounts s (open_next rules env s).1
  unfolding open_next
  open_next-SameCounts s = reopened-SameCounts s (
      open_file env rules.base (rotated rules.on_failure (or_empty s.log.rotated_to)) s.log.prev
        s.disk)

  pub keep_current-SameCounts : (s : Sink) → SameCounts s (keep_current rules env s).1
  unfolding keep_current follow turn_over resume
  keep_current-SameCounts s =
      let P = λ (s : Sink) (r : Result (Unit {0}) × Sink). SameCounts s r.1 in
      then_run-SameCounts s (follow rules env s) (turn_over rules env)
        (if-keeps (P s) (not (is_set s.log.rotated_to) && not (still_at s.log rules.base s.disk))
          (λ _.
            replaced-SameCounts s
              (open_file env rules.base (resumed rules.on_failure) s.log.prev s.disk))
          (λ _. unchanged s))
        (λ t.
          if-keeps (P t) (ltb 0 rules.max_bytes && leb rules.max_bytes t.log.written)
            (λ _.
              then_run-SameCounts t (move_away rules env t) (open_next rules env)
                (move_away-SameCounts t) open_next-SameCounts)
            (λ _. unchanged t))
