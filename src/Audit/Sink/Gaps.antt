-- ===== src/Audit/Sink/Gaps.antt =====
-- What is lost of the audit log, and what is said of it: the counters of `record` and `admit` in
-- crates/ownpg-core/src/audit.rs.
use Prim.Native.String.{◌++◌ as str_append}
use mathlib.Core.Path.{subst}
use ownpg.Base.{
  true≢false, String, List, [], ◌∷◌, ◌++◌, last?, last-append, ℕ, ◌+◌, ◌%◌, ◌≡◌, refl, sym, ap, ◌∙◌,
  ◌⊎◌, inl, inr, Bool, true, false, some, ◌&&◌, arith, if-keeps,
}
use ownpg.Errors.{Error, Result, ok, err, audit_degraded}
use ownpg.Config.Failure
use ownpg.Audit.Entry.{Entry, Marker, line_value, marker_value}
use ownpg.Audit.Disk.{Disk}
use ownpg.Audit.Log.{Env, OpenLog, marker_text, marker_named}
use ownpg.Audit.Log.Writes.{After, write_line-After}
use ownpg.Audit.Sink.{
  Rules, Sink, Method, then_run, ◌>>◌, kept, is_degraded, prune, keep_current, u64_size, reported,
  close_gap, gap_marker, write_entry, with_log, write, note_failure, inspected, record_entry,
  recovered, admit,
}
use ownpg.Audit.Sink.Counts.{SameCounts, moved, both, keep_current-SameCounts, prune-SameCounts}

-- A loss that no marker has told of is known.
abbrev pub IsCounted : Sink → Type 0
IsCounted s = s.degraded ≡ false → s.unreported ≡ 0

module _ (rules : Rules) (env : Env) where
  -- The last line is a gap marker that tells of `n` lost entries. A part of a line that could not be
  -- cut back before may stand in front of it.
  abbrev pub EndsWithGap : ℕ → List String → Type 0
  EndsWithGap n lines =
      (m : Marker) × (part : String) × (m.marker ≡ "gap")
      × (m.dropped ≡ some n)
      × (last? lines ≡ some (str_append part (env.to_string (marker_value m))))

  -- The lines of the file that the log goes on with.
  abbrev pub lines_of : Sink → List String
  lines_of s = (s.disk.file s.log.file).lines

  -- The losses of a degraded log are told of in its file.
  abbrev pub Tells : Sink → List String → Type 0
  Tells s lines = (s.degraded ≡ false) ⊎ EndsWithGap s.unreported lines

  abbrev pub IsClosed : Sink → Sink → Type 0
  IsClosed s t = (t.degraded ≡ false) × (t.unreported ≡ 0) × (t.dropped ≡ s.dropped)

  -- A gap is closed, or nothing has changed.
  abbrev pub Closes : Sink → Result (Unit {0}) × Sink → Type 0
  Closes s (ok value, t) = IsClosed s t × Tells s (lines_of t)
  Closes s (err error, t) = SameCounts s t

  written-Closes :
      (s : Sink) (r : Result OpenLog × Disk)
      → After env s.log (marker_text env (gap_marker rules env s)) s.disk r
      → Closes s (then_run (kept s r) (reported rules env))
  unfolding marker_text marker_named
  written-Closes s (ok log, d) (same, e) = (
    (refl, refl, refl),
    inr (
      gap_marker rules env s,
      (s.disk.file s.log.file).torn,
      refl,
      refl,
      ap (λ (n : ℕ). last? (d.file n).lines) same ∙ ap last? e ∙ last-append (lines_of s) _,
    ),
  )
  written-Closes s (err error, d) h = moved s d s.log

  close_gap-Closes : (s : Sink) → IsCounted s → Closes s (close_gap rules env s)
  unfolding close_gap
  close_gap-Closes s known =
      if-keeps (Closes s) s.degraded
        (λ _.
          written-Closes s _
            (write_line-After env s.log (marker_text env (gap_marker rules env s)) s.disk))
        (λ e. ((e, known e, refl), inl e))

  same-Tells : (s t : Sink) (lines : List String) → SameCounts s t → Tells t lines → Tells s lines
  same-Tells s t lines h (inl e) = inl (sym h.same_degraded ∙ e)
  same-Tells s t lines h (inr told) =
      inr (subst (λ (n : ℕ). EndsWithGap n lines) h.same_unreported told)

  after-Closes :
      (s t : Sink) (r : Result (Unit {0}) × Sink) → SameCounts s t → Closes t r → Closes s r
  after-Closes s t (ok value, u) h ((closed, none_left, same), told) =
      ((closed, none_left, same ∙ h.same_dropped), same-Tells s t (lines_of u) h told)
  after-Closes s t (err error, u) h k = both s t u h k

  -- What is done first leaves the counters alone.
  current-Closes :
      (s : Sink) (r : Result (Unit {0}) × Sink)
      → IsCounted s
      → SameCounts s r.1
      → Closes s (then_run r (close_gap rules env))
  current-Closes s (ok value, t) known h =
      after-Closes s t (close_gap rules env t) h
        (close_gap-Closes t (λ e. h.same_unreported ∙ known (sym h.same_degraded ∙ e)))
  current-Closes s (err error, t) known h = h

  with_log-Closes :
      (s : Sink)
      → rules.enabled ≡ true
      → IsCounted s
      → Closes s (with_log rules env (close_gap rules env) s)
  unfolding with_log
  with_log-Closes s on known =
      if-keeps (Closes s) rules.enabled
        (λ _.
          current-Closes s (keep_current rules env s) known (keep_current-SameCounts rules env s))
        (λ e. absurd (true≢false (sym on ∙ e)))

  -- How a record ends. The entry is the last line of the file, and before it the losses are told of
  -- where the log was degraded; or the entry is one more that is lost.
  abbrev pub Accounts : Entry → Sink → Result (Unit {0}) × Sink → Type 0
  Accounts entry s (ok value, t) =
      IsClosed s t
      × ((before : List String) × (part : String) × (prev : String) × (lines_of t
            ≡ before ++ str_append part (env.to_string (line_value env.timestamp entry prev)) ∷ [])
          × Tells s before)
  Accounts entry s (err error, t) =
      (t.degraded ≡ true)
      × (t.last_failure ≡ some error)
      × (t.dropped ≡ (s.dropped + 1) % u64_size)
      × ((t.unreported ≡ (s.unreported + 1) % u64_size)
          ⊎ ((t.unreported ≡ 1) × Tells s (lines_of t)))

  entered-Accounts :
      (entry : Entry) (s t : Sink) (r : Result OpenLog × Disk)
      → IsClosed s t
      → Tells s (lines_of t)
      → After env t.log (env.to_string (line_value env.timestamp entry t.log.prev)) t.disk r
      → Accounts entry s (inspected rules env (kept t r))
  unfolding note_failure inspected
  entered-Accounts entry s t (ok log, d) h told (same, e) = (
    h,
    (
      lines_of t,
      (t.disk.file t.log.file).torn,
      t.log.prev,
      ap (λ (n : ℕ). (d.file n).lines) same ∙ e,
      told,
    ),
  )
  entered-Accounts entry s t (err error, d) (closed, zero_left, same) told e = (
    refl,
    refl,
    ap (λ (n : ℕ). (n + 1) % u64_size) same,
    inr (ap (λ (n : ℕ). (n + 1) % u64_size) zero_left, subst (Tells s) (sym e) told),
  )

  closed-Accounts :
      (s : Sink) (entry : Entry) (r : Result (Unit {0}) × Sink)
      → Closes s r
      → Accounts entry s (inspected rules env (then_run r (write_entry rules env entry)))
  unfolding write_entry note_failure inspected
  closed-Accounts s entry (ok value, t) (h, told) = entered-Accounts entry s t _ h told (
      write_line-After env t.log (env.to_string (line_value env.timestamp entry t.log.prev)) t.disk)
  closed-Accounts s entry (err error, t) h = (
    refl,
    refl,
    ap (λ (n : ℕ). (n + 1) % u64_size) h.same_dropped,
    inl (ap (λ (n : ℕ). (n + 1) % u64_size) h.same_unreported),
  )

  then_run_assoc :
      (r : Result (Unit {0}) × Sink) (f g : Method)
      → then_run r (f >> g) ≡ then_run (then_run r f) g
  then_run_assoc (ok value, t) f g = refl
  then_run_assoc (err error, t) f g = refl

  Accounts-IsCounted :
      (entry : Entry) (s : Sink) (r : Result (Unit {0}) × Sink) → Accounts entry s r → IsCounted r.1
  Accounts-IsCounted entry s (ok value, t) ((_, none_left, _), _) = λ _. none_left
  Accounts-IsCounted entry s (err error, t) h = λ e. absurd (true≢false (sym h.0 ∙ e))

  write-Accounts :
      (s : Sink) (entry : Entry)
      → rules.enabled ≡ true
      → IsCounted s
      → Accounts entry s (record_entry rules env entry s)
  unfolding record_entry write with_log
  write-Accounts s entry on known =
      if-keeps (λ (r : Result (Unit {0}) × Sink). Accounts entry s (inspected rules env r))
        rules.enabled
        (λ _.
          subst (λ (r : Result (Unit {0}) × Sink). Accounts entry s (inspected rules env r))
            (sym (
              then_run_assoc (keep_current rules env s) (close_gap rules env)
                (write_entry rules env entry)))
            (closed-Accounts s entry _ (
              current-Closes s (keep_current rules env s) known
                (keep_current-SameCounts rules env s))))
        (λ e. absurd (true≢false (sym on ∙ e)))

  pub record_entry-Accounts :
      (s : Sink) (entry : Entry)
      → rules.enabled ≡ true
      → IsCounted s
      → Accounts entry s (record_entry rules env entry s)
        × IsCounted (record_entry rules env entry s).1
  record_entry-Accounts s entry on known =
      let accounts = write-Accounts s entry on known in
      (accounts, Accounts-IsCounted entry s (record_entry rules env entry s) accounts)

  -- What `admit` answers.
  abbrev pub Admission : Bool → Sink → Result (Unit {0}) × Sink → Type 0
  Admission read_only s (ok value, t) =
      (IsClosed s t × Tells s (lines_of t))
      ⊎ ((Failure.refuses rules.on_failure read_only ≡ false) × SameCounts s t)
  Admission read_only s (err error, t) =
      (cause : Error) × (error ≡ audit_degraded (Failure.as_str rules.on_failure) cause)
      × (t.last_failure ≡ some cause)
      × (Failure.refuses rules.on_failure read_only ≡ true)
      × (s.degraded ≡ true)
      × SameCounts s t

  recovered-Admission :
      (read_only : Bool) (s : Sink) (r : Result (Unit {0}) × Sink)
      → s.degraded ≡ true
      → Closes s r
      → Admission read_only s (recovered rules env read_only r)
  unfolding recovered
  recovered-Admission read_only s (ok value, t) bad h = inl h
  recovered-Admission read_only s (err error, t) bad h =
      let failed = record t { last_failure = some error } in
      let same =
        both s t failed h
          (record { same_dropped = refl; same_unreported = refl; same_degraded = refl }) in
      if-keeps (Admission read_only s) (Failure.refuses rules.on_failure read_only)
        (λ e. (error, refl, refl, e, bad, same)) (λ e. inr (e, same))

  admission :
      (read_only : Bool) (s : Sink)
      → rules.enabled ≡ true
      → IsCounted s
      → Admission read_only s (admit rules env read_only s)
  unfolding admit is_degraded
  admission read_only s on known =
      if-keeps (Admission read_only s) (rules.enabled && s.degraded)
        (λ e.
          recovered-Admission read_only s (with_log rules env (close_gap rules env) s)
            (ground arith) (with_log-Closes s on known))
        (λ e.
          (let closed : s.degraded ≡ false = ground arith in
            inl ((closed, known closed, refl), inl closed)))

  same-IsCounted : (s t : Sink) → SameCounts s t → IsCounted s → IsCounted t
  same-IsCounted s t h known = λ e. h.same_unreported ∙ known (sym h.same_degraded ∙ e)

  Admission-IsCounted :
      (read_only : Bool) (s : Sink) (r : Result (Unit {0}) × Sink)
      → IsCounted s
      → Admission read_only s r
      → IsCounted r.1
  Admission-IsCounted read_only s (ok value, t) known (inl ((_, none_left, _), _)) = λ _. none_left
  Admission-IsCounted read_only s (ok value, t) known (inr (_, same)) =
      same-IsCounted s t same known
  Admission-IsCounted read_only s (err error, t) known (_, _, _, _, _, same) =
      same-IsCounted s t same known

  pub admit-IsCounted :
      (read_only : Bool) (s : Sink)
      → rules.enabled ≡ true
      → IsCounted s
      → IsCounted (admit rules env read_only s).1
  admit-IsCounted read_only s on known =
      Admission-IsCounted read_only s (admit rules env read_only s) known
        (admission read_only s on known)

  -- A new sink knows of no loss, and a pruning changes no counter.
  pub prune-IsCounted : (s : Sink) → IsCounted s → IsCounted (prune rules env s)
  prune-IsCounted s known =
      same-IsCounted s (prune rules env s) (prune-SameCounts rules env s) known
