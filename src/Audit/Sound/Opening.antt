-- ===== src/Audit/Sound/Opening.antt =====
-- A file that is opened: the marker that is written opens an empty file, or goes on with its end.
use mathlib.Core.Path.{subst}
use ownpg.Base.{
  ℕ, ◌<◌, String, ◌≡◌, refl, sym, ap, ◌∙◌, inl, inr, true, false, not, none, ◌==◌, eq_iff, arith,
  Bool-cases,
}
use ownpg.Json.{Value}
use ownpg.Errors.{Result, ok, err}
use ownpg.Classify.Statement.{Reply}
use ownpg.Audit.Chain.Extends.{Opens, Continues}
use ownpg.Audit.Entry.{Marker, marker_value}
use ownpg.Audit.Entry.Reads.{marker_value-Continues, marker_value-Opens}
use ownpg.Audit.Disk.{Disk, File, put}
use ownpg.Audit.Log.{
  Env, OpenLog, after, recover_tail, release, Start, fresh, resumed, rotated, start_log,
  start_marker, marker_named, marker_text, write_line, start_locked, held,
}
use ownpg.Audit.Sound.{IsRead, DiskSound, LogSound}
use ownpg.Audit.Sound.Lines.{Admits, put-DiskSound, put-other}
use ownpg.Audit.Sound.Writing.{Touches, SameFiles, Wrote, write_line-Wrote}
use ownpg.Audit.Sound.Tail.{Reads, Recovered, recover_tail-Reads}

-- A new log follows nothing; one that goes on may follow another file.
abbrev pub IsCarried : Start → String → Type 0
IsCarried (fresh policy) carried = carried ≡ ""
IsCarried (resumed policy) carried = Unit
IsCarried (rotated policy source) carried = Unit

module _ (env : Env) where
  start_marker-Opens :
      (start : Start) (carried : String)
      → IsCarried start carried
      → Opens (marker_value (start_marker env start true carried carried))
  unfolding start_marker marker_named
  start_marker-Opens (fresh policy) carried h = marker_value-Opens _ refl (inl h)
  start_marker-Opens (resumed policy) carried h =
      marker_value-Opens _ refl (elim (Bool-cases (carried == "")) [
        | inl e ↦ inl ((eq_iff carried "").0 e)
        | inr e ↦ inr (ap not e)
      ])
  start_marker-Opens (rotated policy source) carried h = marker_value-Opens _ refl (inr refl)

  start_marker-Continues :
      (start : Start) (carried prev : String)
      → Continues prev (marker_value (start_marker env start false carried prev))
  unfolding start_marker marker_named
  start_marker-Continues (fresh policy) carried prev = marker_value-Continues _ (inr (refl, refl))
  start_marker-Continues (resumed policy) carried prev = marker_value-Continues _ (inr (refl, refl))
  start_marker-Continues (rotated policy source) carried prev =
      marker_value-Continues _ (inr (refl, refl))

module _ (env : Env) (parse : String → Reply Value) (reads : IsRead env.to_string parse) where
  abbrev sha : String → String
  sha = env.sha256_hex

  -- Only this file changes, and a log that is returned goes on with it.
  abbrev pub Starts : ℕ → Disk → Result OpenLog × Disk → Type 0
  Starts id d (ok log, d') =
      DiskSound parse sha d' × (LogSound parse sha log d' × (Touches id d d' × (log.file ≡ id)))
  Starts id d (err error, d') = DiskSound parse sha d' × Touches id d d'

  pub same-Touches : (id : ℕ) (d d' : Disk) → SameFiles d d' → Touches id d d'
  same-Touches id d d' (same, grows) = (λ other _. same other, grows)

  Wrote-Starts :
      (log : OpenLog) (line : String) (d : Disk) (r : Result OpenLog × Disk)
      → Wrote env parse reads log line d r
      → Starts log.file d r
  Wrote-Starts log line d (ok log', d') (h, (sound, touches, same, _)) =
      (h, (sound, (touches, same)))
  Wrote-Starts log line d (err error, d') (h, same) = (h, same-Touches log.file d d' same)

  -- The log that a file is opened with, and its marker.
  abbrev first_log : String → ℕ → ℕ → String → OpenLog
  first_log path id written prev = record {
    file = id;
    path = path;
    written = written;
    prev = prev;
    rotated_to = none;
  }

  marker-Starts :
      (path : String) (id written : ℕ) (prev : String) (m : Marker) (d : Disk)
      → DiskSound parse sha d
      → (d.file id).taken ≡ true
      → id < d.next
      → Admits env parse reads prev (d.file id) (marker_value m)
      → Starts id d (write_line env (first_log path id written prev) (marker_text env m) d)
  unfolding marker_text
  marker-Starts path id written prev m d h locked known admits =
      let log = first_log path id written prev in
      Wrote-Starts log (env.to_string (marker_value m)) d _
        (write_line-Wrote env parse reads log (marker_value m) d h admits locked known)

  start_log-Starts :
      (path : String) (id : ℕ) (start : Start) (carried : String) (found : ℕ × String) (d : Disk)
      → DiskSound parse sha d
      → (d.file id).taken ≡ true
      → id < d.next
      → IsCarried start carried
      → Recovered env parse reads (d.file id) found
      → Starts id d (start_log env path id start carried found d)
  unfolding start_log
  start_log-Starts path id start carried (written, tail) d h locked known carries (inl (e, idle)) =
      rw e (
        marker-Starts path id written carried (start_marker env start true carried carried) d h
          locked known (inr (_, refl), inl (idle, start_marker-Opens env start carried carries)))
  start_log-Starts path id start carried (written, tail) d h locked known carries
        (inr (e, follows)) =
      rw e (
        marker-Starts path id written tail (start_marker env start false carried tail) d h locked
          known (inr (_, refl), inr (follows, start_marker-Continues env start carried tail)))

  Touches-trans : (id : ℕ) (a b c : Disk) → Touches id a b → Touches id b c → Touches id a c
  Touches-trans id a b c (h, m) (k, n) =
      (λ other apart. k other apart ∙ h other apart, omega (arith, m, n))

  pub later-Starts :
      (id : ℕ) (d d' : Disk) (r : Result OpenLog × Disk)
      → Touches id d d'
      → Starts id d' r
      → Starts id d r
  later-Starts id d d' (ok log, e) t (h, (sound, (t', same))) =
      (h, (sound, (Touches-trans id d d' e t t', same)))
  later-Starts id d d' (err error, e) t (h, t') = (h, Touches-trans id d d' e t t')

  held-Starts :
      (id : ℕ) (d : Disk) (r : Result OpenLog × Disk) → Starts id d r → Starts id d (held env id r)
  unfolding release put
  held-Starts id d (ok log, d') h = h
  held-Starts id d (err error, d') (h, (same, grows)) =
      let f = record (d'.file id) { taken = false } in
      (
        put-DiskSound env parse reads d' id f h (h.files id),
        (λ other apart. put-other env parse reads d' id other f apart ∙ same other apart, grows),
      )

  module _ (path : String) (id : ℕ) (start : Start) (carried : String)
      (carries : IsCarried start carried) where
    Recovered-Starts :
        (d : Disk) (r : Result (ℕ × String) × Disk)
        → (d.file id).taken ≡ true
        → id < d.next
        → Reads env parse reads (Recovered env parse reads (d.file id)) d r
        → Starts id d (after r (start_log env path id start carried))
    Recovered-Starts d (ok found, d') locked known (h, (same, recovered)) =
        later-Starts id d d' (start_log env path id start carried found d')
          (same-Touches id d d' same)
          (start_log-Starts path id start carried found d' h
            (ap (λ (f : File). f.taken) (same.0 id) ∙ locked) (omega (arith, known, same.1)) carries
            (subst (λ (f : File). Recovered env parse reads f found) (sym (same.0 id)) recovered))
    Recovered-Starts d (err error, d') locked known (h, same) = (h, same-Touches id d d' same)

    pub start_locked-Starts :
        (d : Disk)
        → DiskSound parse sha d
        → (d.file id).taken ≡ true
        → id < d.next
        → Starts id d (start_locked env path id start carried d)
    unfolding start_locked
    start_locked-Starts d h locked known = held-Starts id d _ (
        Recovered-Starts d (recover_tail env path id d) locked known
          (recover_tail-Reads env parse reads path id d h))
