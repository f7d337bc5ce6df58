-- ===== src/Audit/Retention.antt =====
-- Which closed files of the log are removed, and what is left of them: the selection of
-- `Sink::prune`, `last_line_hash` and `remove_closed` of crates/ownpg-core/src/audit.rs. The
-- metadata of a file that is listed can be read, and every listed name is a file.
pub mod Sorts
pub mod Selects
use ownpg.Base.{
  ℕ, zero, suc, ◌-◌, ◌*◌, String, Bool, true, false, not, Option, none, some, List, [], ◌∷◌, ◌==◌,
  ◌&&◌, ◌||◌, leb, ltb, eqb, length, last?, contains, if◌then◌else◌,
}
use ownpg.Errors.{Result, ok, err, audit_unwritable}
use ownpg.Audit.Entry.{PrunedFile}
use ownpg.Audit.Disk.{Disk, File, named, remove, call, file_size}
use ownpg.Audit.Family.{Family, owns, rotation_order}
use ownpg.Audit.Log.{
  Env, Io, after, ◌>>=◌, ◌>>◌, done, stop, fallible, tail_digest, tail_scan_bytes, holds_text,
  or_empty, ends_within,
}

pub record Closed : Type 0 where
  pub modified : ℕ
  pub name : String

-- `Vec<u64>` in its derived order.
abbrev pub list_leb : List ℕ → List ℕ → Bool
list_leb [] ms = true
list_leb (n ∷ ns) [] = false
list_leb (n ∷ ns) (m ∷ ms) = ltb n m || (eqb n m && list_leb ns ms)

unfoldable pub comes_first : Closed → Closed → Bool
unfolding rotation_order
comes_first a b =
    ltb a.modified b.modified
    || (eqb a.modified b.modified && list_leb (rotation_order a.name) (rotation_order b.name))

-- `sort_by`, which is stable.
unfoldable pub insert_closed : Closed → List Closed → List Closed
unfolding comes_first
insert_closed c [] = c ∷ []
insert_closed c (d ∷ ds) =
    let later = d ∷ insert_closed c ds in if comes_first c d then c ∷ d ∷ ds else later

unfoldable pub sort_closed : List Closed → List Closed
unfolding insert_closed
sort_closed [] = []
sort_closed (c ∷ cs) = insert_closed c (sort_closed cs)

unfoldable pub is_closed : Family → List String → String → Bool
unfolding owns contains
is_closed family active name = not (contains active name) && owns family name

-- The files that are not active and belong to the family.
unfoldable pub closed_files : Family → List String → Disk → List (String × ℕ) → List Closed
unfolding is_closed
closed_files family active d [] = []
closed_files family active d ((name, id) ∷ rest) =
    let others = closed_files family active d rest in
    if is_closed family active name
    then record { modified = (d.file id).modified; name = name } ∷ others
    else others

abbrev pub seconds_per_day : ℕ
seconds_per_day = 86400

-- The instant before which a file has expired, if a number of days is set and lies in the past.
unfoldable pub cutoff : ℕ → ℕ → Option ℕ
cutoff now keep_days =
    if eqb keep_days 0
    then none
    else if ltb now (keep_days * seconds_per_day)
    then none
    else some (now - keep_days * seconds_per_day)

unfoldable pub over_count : ℕ → ℕ → ℕ
over_count keep_files count = if eqb keep_files 0 then 0 else count - keep_files

unfoldable pub is_expired : Option ℕ → ℕ → Bool
is_expired none modified = false
is_expired (some instant) modified = ltb modified instant

-- The loop over the sorted files, at a position: the first `over` go, and the expired ones.
unfoldable pub doomed : Option ℕ → ℕ → ℕ → List Closed → List String
unfolding is_expired
doomed limit over position [] = []
doomed limit over position (c ∷ cs) =
    let rest = doomed limit over (suc position) cs in
    if not (is_expired limit c.modified) && leb over position then rest else c.name ∷ rest

-- What `prune` removes: `closed` in the order of the sort.
unfoldable pub selected : ℕ → ℕ → ℕ → List Closed → List String
unfolding cutoff over_count doomed
selected now keep_days keep_files closed =
    doomed (cutoff now keep_days) (over_count keep_files (length closed)) 0 closed

module _ (env : Env) where
  unfoldable pub last_line_hash : File → String
  unfolding file_size ends_within
  last_line_hash file =
      if leb (file_size file) 0
      then ""
      else if holds_text file.torn
      then tail_digest env tail_scan_bytes file.torn
      else tail_digest env (tail_scan_bytes - 1) (or_empty (last? file.lines))

  -- Another process may hold the lock, and then the file stays.
  unfoldable pub remove_locked : String → ℕ → Io (Option String)
  unfolding fallible last_line_hash remove
  remove_locked name id d =
      if (d.file id).taken
      then done none d
      else (do
        fallible env name
        fallible env name
        hash ← λ d. (ok (last_line_hash (d.file id)), d)
        fallible env name
        λ d. (ok (some hash), remove name d))
          d

  unfoldable pub remove_closed : String → Io (Option String)
  unfolding fallible named remove_locked
  remove_closed name = do
    fallible env name
    λ d. elim (named name d.names) [
      | none ↦ stop (audit_unwritable name env.io_error) d
      | some id ↦ remove_locked name id d
    ]

  abbrev add_pruned : String → Result (Option String) → List PrunedFile → List PrunedFile
  add_pruned name (ok (some hash)) rest = record { name = name; last_hash = hash } ∷ rest
  add_pruned name (ok none) rest = rest
  add_pruned name (err _) rest = rest

  -- A file that could not be removed is only noted.
  unfoldable pub remove_all : List String → Disk → List PrunedFile × Disk
  unfolding remove_closed
  remove_all [] d = ([], d)
  remove_all (name ∷ names) d =
      let (removed, d') = remove_closed name d in
      let (rest, d'') = remove_all names d' in (add_pruned name removed rest, d'')
