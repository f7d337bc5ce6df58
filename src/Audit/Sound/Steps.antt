-- ===== src/Audit/Sound/Steps.antt =====
-- What the methods of the sink do first and last keeps the audit files sound: a line, a file that is
-- opened, a pruning.
use mathlib.Core.Path.{subst}
use ownpg.Base.{String, refl, sym, ap, ◌∙◌, inr, false, List, [], ◌∷◌, ◌&&◌, eqb, arith, if-keeps}
use ownpg.Json.{Value}
use ownpg.Errors.{Error, Result, ok, err}
use ownpg.Classify.Statement.{Reply}
use ownpg.Audit.Chain.Extends.{Continues}
use ownpg.Audit.Entry.{PrunedFile, marker_value}
use ownpg.Audit.Entry.Reads.{marker_value-Continues}
use ownpg.Audit.Disk.{Disk, File, call, put, fault-keeps}
use ownpg.Audit.Log.{Env, OpenLog, write_line, marker_named, marker_text, release}
use ownpg.Audit.Retention.{closed_files, sort_closed, selected, remove_all}
use ownpg.Audit.Sink.{
  Rules, Sink, Method, then_run, kept, adopted, replaced, note_pruned, prune_listed, prune,
}
use ownpg.Audit.Sound.{IsRead, IsLine, Follows, IsSound}
use ownpg.Audit.Sound.Lines.{put-DiskSound, put-other}
use ownpg.Audit.Sound.Writing.{Wrote, write_line-Wrote, call-DiskSound}
use ownpg.Audit.Sound.Sparing.{Opened}
use ownpg.Audit.Sound.Pruning.{LogSound-same, Quiet, remove_all-Quiet}

module _ (env : Env) (parse : String → Reply Value) (reads : IsRead env.to_string parse) where
  abbrev pub Sound : Sink → Type 0
  Sound s = IsSound parse env.sha256_hex s

  pub kept-Sound :
      (s : Sink) (line : String) (r : Result OpenLog × Disk)
      → Sound s
      → Wrote env parse reads s.log line s.disk r
      → Sound (kept s r).1
  kept-Sound s line (ok log, d) h (disk, (log_sound, _, _, _)) = record {
    disk = disk;
    log = log_sound;
  }
  kept-Sound s line (err error, d) h (disk, same) = record {
    disk = disk;
    log = LogSound-same env parse reads s.log s.disk d same h.log;
  }

  -- A line that goes on with the file is written.
  pub written-Wrote :
      (s : Sink) (value : Value)
      → Sound s
      → IsLine value
      → Continues s.log.prev value
      → Wrote env parse reads s.log
          (env.to_string value)
          s.disk
          (write_line env s.log (env.to_string value) s.disk)
  written-Wrote s value h is_line continues =
      write_line-Wrote env parse reads s.log value s.disk h.disk
        (is_line, inr (h.log.follows, continues)) h.log.locked h.log.known

  pub adopted-Sound :
      (s : Sink) (log : OpenLog) (d : Disk)
      → Sound s
      → Opened env parse reads s.disk (ok log, d)
      → Sound (adopted s log d)
  unfolding adopted release put
  adopted-Sound s log d h (disk, (log_sound, (_, apart))) =
      let f = record (d.file s.log.file) { taken = false } in
      let own = apart s.log.file h.log.locked h.log.known in
      let same = put-other env parse reads d s.log.file log.file f own in
      record {
        disk = put-DiskSound env parse reads d s.log.file f disk (disk.files s.log.file);
        log = record {
          follows = subst (Follows parse env.sha256_hex log.prev) (sym same) log_sound.follows;
          locked = ap (λ (g : File). g.taken) same ∙ log_sound.locked;
          known = log_sound.known;
        };
      }

  -- Where no file is opened, the log goes on in its file.
  pub failed-Sound :
      (s : Sink) (error : Error) (d : Disk)
      → Sound s
      → Opened env parse reads s.disk (err error, d)
      → Sound (record s { disk = d })
  failed-Sound s error d h (disk, (spared, grows)) =
      let same = spared s.log.file h.log.locked h.log.known in
      record {
        disk = disk;
        log = record {
          follows = subst (Follows parse env.sha256_hex s.log.prev) (sym same) h.log.follows;
          locked = ap (λ (g : File). g.taken) same ∙ h.log.locked;
          known = omega (arith, h.log.known, grows);
        };
      }

  pub replaced-Sound :
      (s : Sink) (r : Result OpenLog × Disk)
      → Sound s
      → Opened env parse reads s.disk r
      → Sound (replaced s r).1
  unfolding replaced
  replaced-Sound s (ok log, d) h o = adopted-Sound s log d h o
  replaced-Sound s (err error, d) h o = failed-Sound s error d h o

  pub Quiet-Sound :
      (s : Sink) (d : Disk)
      → Sound s
      → Quiet env parse reads s.disk d
      → Sound (record s { disk = d })
  Quiet-Sound s d h (disk, same) = record {
    disk = disk;
    log = LogSound-same env parse reads s.log s.disk d same h.log;
  }

  pub then_run-Sound :
      (r : Result (Unit {0}) × Sink) (next : Method)
      → Sound r.1
      → ((s : Sink) → Sound s → Sound (next s).1)
      → Sound (then_run r next).1
  then_run-Sound (ok value, s) next h k = k s h
  then_run-Sound (err error, s) next h k = h

  module _ (rules : Rules) where
    note_pruned-Sound :
        (ps : List PrunedFile) (s : Sink) → Sound s → Sound (note_pruned rules env ps s)
    unfolding note_pruned marker_text marker_named
    note_pruned-Sound [] s h = h
    note_pruned-Sound (p ∷ ps) s h =
        let m = record (marker_named env "pruned" s.log.prev) { pruned = p ∷ ps } in
        kept-Sound s _ _ h (
          written-Wrote s (marker_value m) h (inr (m, refl))
            (marker_value-Continues m (inr (refl, refl))))

    prune_listed-Sound : (s : Sink) → Sound s → Sound (prune_listed rules env s)
    unfolding prune_listed
    prune_listed-Sound s h =
        let closed =
          sort_closed
            (closed_files rules.family (rules.base ∷ s.log.path ∷ []) s.disk s.disk.names) in
        let paths = selected env.now rules.keep_days rules.keep_files closed in
        let (pruned, d) = remove_all env paths s.disk in
        note_pruned-Sound pruned (record s { disk = d })
          (Quiet-Sound s d h (remove_all-Quiet env parse reads paths s.disk h.disk))

    pub prune-Sound : (s : Sink) → Sound s → Sound (prune rules env s)
    unfolding prune call
    prune-Sound s h =
        let (outcome, d) = call s.disk in
        let left = record s { disk = d } in
        let h' =
          Quiet-Sound s d h
            (call-DiskSound env parse reads s.disk h.disk, (λ id. refl, omega arith)) in
        if-keeps Sound (eqb rules.keep_days 0 && eqb rules.keep_files 0) (λ _. h)
          (λ _. fault-keeps Sound outcome (prune_listed-Sound left h') h')
