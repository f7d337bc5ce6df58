-- ===== src/Audit/Sink/Active.antt =====
-- The files that the audit log is writing are never pruned: `Sink::prune` of
-- crates/ownpg-core/src/audit.rs.
use ownpg.Base.{
  true≢false, ℕ, String, ◌≡◌, refl, sym, ap, ◌∙◌, inl, inr, Bool, true, false, not, Option, none,
  some, List, [], ◌∷◌, ◌==◌, ◌&&◌, eqb, All, contains, eq_iff, arith, Bool-cases, if-keeps,
}
use ownpg.Errors.{Error, Result, ok, err, audit_unwritable}
use ownpg.Audit.Entry.{PrunedFile}
use ownpg.Audit.Disk.{
  named-without, Disk, Fault, works, fails, leaves, named, remove, call, put, fault-keeps,
}
use ownpg.Audit.Family.{Family, owns}
use ownpg.Audit.Log.{
  Env, OpenLog, Io, after, stop, fallible, write_line, marked, marker_text, marker_named,
}
use ownpg.Audit.Retention.{
  Closed, is_closed, closed_files, sort_closed, selected, last_line_hash, remove_locked,
  remove_closed, remove_all,
}
use ownpg.Audit.Retention.Selects.{selected-All}
use ownpg.Audit.Retention.Sorts.{sort_closed-All}
use ownpg.Audit.Sink.{Rules, Sink, kept, note_pruned, prune_listed, prune}

module _ (env : Env) (name : String) where
  -- The action leaves the name where it leads.
  abbrev Keeps : {T : Type 0} → Disk → Result T × Disk → Type 0
  Keeps d r = named name r.1.names ≡ named name d.names

  after-Keeps :
      {T U : Type 0} (d : Disk) (r : Result T × Disk) (next : T → Io U)
      → Keeps d r
      → ((value : T) (d' : Disk) → Keeps d' (next value d'))
      → Keeps d (after r next)
  after-Keeps d (ok value, d') next h k = k value d' ∙ h
  after-Keeps d (err stop, d') next h k = h

  fallible-Keeps : (path : String) (d : Disk) → Keeps d (fallible env path d)
  unfolding fallible call
  fallible-Keeps path d =
      fault-keeps (λ (r : Result (Unit {0}) × Disk). Keeps d r) (call d).0 refl refl

  removed-Keeps :
      (path hash : String) (d : Disk)
      → (path == name) ≡ false
      → Keeps d (ok (some hash), remove path d)
  unfolding remove
  removed-Keeps path hash d h = named-without name path d.names h

  remove_locked-Keeps :
      (path : String) (id : ℕ) (d : Disk)
      → (path == name) ≡ false
      → Keeps d (remove_locked env path id d)
  unfolding remove_locked
  remove_locked-Keeps path id d h =
      if-keeps (λ (r : Result (Option String) × Disk). Keeps d r) (d.file id).taken (λ _. refl)
        (λ _. after-Keeps d (fallible env path d) _ (fallible-Keeps path d) (λ _ d.
          after-Keeps d (fallible env path d) _ (fallible-Keeps path d) (λ _ d.
            after-Keeps d (fallible env path d) _ (fallible-Keeps path d)
              (λ _ d. removed-Keeps path (last_line_hash env (d.file id)) d h))))

  found-Keeps :
      (o : Option ℕ) (error : Error) (d : Disk) (next : ℕ → Result (Option String) × Disk)
      → ((id : ℕ) → Keeps d (next id))
      → Keeps {T = Option String} d (elim o [ none ↦ stop error d | some id ↦ next id ])
  found-Keeps none error d next h = refl
  found-Keeps (some id) error d next h = h id

  remove_closed-Keeps :
      (path : String) (d : Disk) → (path == name) ≡ false → Keeps d (remove_closed env path d)
  unfolding remove_closed
  remove_closed-Keeps path d h =
      after-Keeps d (fallible env path d) _ (fallible-Keeps path d) (λ _ d.
        found-Keeps (named path d.names) (audit_unwritable path env.io_error) d
          (λ id. remove_locked env path id d) (λ id. remove_locked-Keeps path id d h))

  remove_all-Keeps :
      (paths : List String) (d : Disk)
      → All (λ path. (path == name) ≡ false) paths
      → named name (remove_all env paths d).1.names ≡ named name d.names
  unfolding remove_all
  remove_all-Keeps [] d h = refl
  remove_all-Keeps (path ∷ paths) d (p, h) =
      remove_all-Keeps paths (remove_closed env path d).1 h ∙ remove_closed-Keeps path d p

  marked-Keeps :
      (outcome : Fault) (log : OpenLog) (line : String) (d : Disk)
      → Keeps d (marked env outcome log line d)
  unfolding put
  marked-Keeps works log line d = refl
  marked-Keeps fails log line d = refl
  marked-Keeps (leaves part) log line d = refl

  write_line-Keeps :
      (log : OpenLog) (line : String) (d : Disk) → Keeps d (write_line env log line d)
  unfolding write_line call
  write_line-Keeps log line d = marked-Keeps (call d).0 log line (call d).1

and_not : (a b : Bool) → (not a && b) ≡ true → a ≡ false
and_not a b h = ground arith

differs :
    (active : List String) (name other : String)
    → contains active name ≡ true
    → contains active other ≡ false
    → (other == name) ≡ false
differs active name other h k = elim (Bool-cases (other == name)) [
  | inl e ↦ absurd (true≢false (sym h ∙ ap (contains active) (sym ((eq_iff other name).0 e)) ∙ k))
  | inr e ↦ e
]

closed_files-differ :
    (family : Family) (active : List String) (name : String) (d : Disk) (names : List (String × ℕ))
    → contains active name ≡ true
    → All (λ c. (c.name == name) ≡ false) (closed_files family active d names)
unfolding closed_files is_closed
closed_files-differ family active name d [] h = tt
closed_files-differ family active name d ((other, id) ∷ rest) h =
    let ih = closed_files-differ family active name d rest h in
    if-keeps (All (λ (c : Closed). (c.name == name) ≡ false))
      (not (contains active other) && owns family other)
      (λ e.
        (differs active name other h (and_not (contains active other) (owns family other) e), ih))
      (λ _. ih)

module _ (rules : Rules) (env : Env) where
  kept-names :
      (s : Sink) (name : String) (r : Result OpenLog × Disk)
      → named name (kept s r).1.disk.names ≡ named name r.1.names
  kept-names s name (ok log, d) = refl
  kept-names s name (err error, d) = refl

  note_pruned-names :
      (ps : List PrunedFile) (s : Sink) (name : String)
      → named name (note_pruned rules env ps s).disk.names ≡ named name s.disk.names
  unfolding note_pruned
  note_pruned-names [] s name = refl
  note_pruned-names (p ∷ ps) s name =
      let line =
        marker_text env (record (marker_named env "pruned" s.log.prev) { pruned = p ∷ ps }) in
      kept-names s name (write_line env s.log line s.disk)
      ∙ write_line-Keeps env name s.log line s.disk

  prune_listed-names :
      (s : Sink) (name : String)
      → contains (rules.base ∷ s.log.path ∷ []) name ≡ true
      → named name (prune_listed rules env s).disk.names ≡ named name s.disk.names
  unfolding prune_listed
  prune_listed-names s name h =
      let active = rules.base ∷ s.log.path ∷ [] in
      let closed = sort_closed (closed_files rules.family active s.disk s.disk.names) in
      let paths = selected env.now rules.keep_days rules.keep_files closed in
      let safe =
        selected-All (λ path. (path == name) ≡ false) env.now rules.keep_days rules.keep_files
          closed
          (sort_closed-All (λ c. (c.name == name) ≡ false)
            (closed_files rules.family active s.disk s.disk.names)
            (closed_files-differ rules.family active name s.disk s.disk.names h)) in
      let (pruned, d) = remove_all env paths s.disk in
      note_pruned-names pruned (record s { disk = d }) name
      ∙ remove_all-Keeps env name paths s.disk safe

  -- Whatever the limits, the times and the failures of the file system are, the name of the log and
  -- the name of the file that is open lead after a pruning where they led before.
  pub prune-names :
      (s : Sink) (name : String)
      → contains (rules.base ∷ s.log.path ∷ []) name ≡ true
      → named name (prune rules env s).disk.names ≡ named name s.disk.names
  unfolding prune call
  prune-names s name h =
      let (outcome, d) = call s.disk in
      let left = record s { disk = d } in
      let P = λ (t : Sink). named name t.disk.names ≡ named name s.disk.names in
      if-keeps P (eqb rules.keep_days 0 && eqb rules.keep_files 0) (λ _. refl)
        (λ _. fault-keeps P outcome (prune_listed-names left name h) refl)
