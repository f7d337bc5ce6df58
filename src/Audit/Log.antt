-- ===== src/Audit/Log.antt =====
-- The open file of the audit log: `write_line`, `recover_tail`, `open_file` and `rotate` of
-- crates/ownpg-core/src/audit.rs. A path is the name of a file in the directory of the log.
pub mod Names
pub mod Writes
use Prim.Native.String.{len, ◌++◌ as str_append}
use ownpg.Base.{
  ℕ, zero, suc, ◌+◌, ◌-◌, String, Bool, true, false, not, Option, none, some, [], ◌∷◌, ◌++◌, ◌==◌,
  ◌&&◌, leb, eqb, last?, length, if◌then◌else◌,
}
use ownpg.Json.{Value}
use ownpg.Errors.{Error, Result, ok, err, audit_unwritable}
use ownpg.Config.Failure
use ownpg.Config.Failure.{AuditFailure}
use ownpg.Audit.Chain.{chain_start}
use ownpg.Audit.Entry.{Marker, marker_value}
use ownpg.Audit.Disk.{
  Disk, File, Fault, works, fails, leaves, call, create, rename, named, put, file_size,
}

-- What one call of the log takes from outside: the clocks, the process, and the functions of other
-- crates and of the standard library.
pub record Env : Type 0 where
  pub timestamp : String
  pub process : ℕ
  pub unix_timestamp : ℕ
  pub now : ℕ
  pub to_string : Value → String
  pub sha256_hex : String → String
  pub decimal : ℕ → String
  pub io_error : String

pub record OpenLog : Type 0 where
  pub file : ℕ
  pub path : String
  pub written : ℕ
  pub prev : String
  pub rotated_to : Option String

-- An action on the disk, which stays as it was left where an action fails.
abbrev pub Io : Type 0 → Type 0
Io T = Disk → Result T × Disk

abbrev pub after : {T U : Type 0} → Result T × Disk → (T → Io U) → Result U × Disk
after (err stop, d) next = (err stop, d)
after (ok value, d) next = next value d

infixl 5 ◌>>=◌ ◌>>◌
abbrev pub ◌>>=◌ : {T U : Type 0} → Io T → (T → Io U) → Io U
◌>>=◌ io next d = after (io d) next

abbrev pub ◌>>◌ : {U : Type 0} → Io (Unit {0}) → Io U → Io U
first >> second = first >>= λ _. second

abbrev pub done : {T : Type 0} → T → Io T
done value d = (ok value, d)

abbrev pub stop : {T : Type 0} → Error → Io T
stop error d = (err error, d)

abbrev pub tail_scan_bytes : ℕ
tail_scan_bytes = 65536

-- The end of a text that is read when at most `n` bytes are.
unfoldable pub ends_within : ℕ → String → String
ends_within n String.[] = ""
ends_within n (String.◌∷◌ c s) =
    let shorter = ends_within n s in
    if leb (len (String.◌∷◌ c s)) n then String.◌∷◌ c s else shorter

abbrev pub holds_text : String → Bool
holds_text s = not (s == "")

pub data Start : Type 0 where
  fresh resumed : (on_failure : AuditFailure) → Start
  rotated : (on_failure : AuditFailure) (source : String) → Start

abbrev pub or_empty : Option String → String
or_empty none = ""
or_empty (some s) = s

-- A handle that is dropped gives its lock back.
unfoldable pub release : ℕ → Disk → Disk
unfolding put
release id d = put id (record (d.file id) { taken = false }) d

module _ (env : Env) where
  -- A call of the file system that either works or fails.
  unfoldable pub fallible : String → Io (Unit {0})
  unfolding call
  fallible path d =
      let (outcome, d') = call d in
      elim outcome [ works ↦ (ok tt, d') | _ ↦ (err (audit_unwritable path env.io_error), d') ]

  abbrev pub marked : Fault → OpenLog → String → Disk → Result OpenLog × Disk
  marked works log text d =
      let file = d.file log.file in
      (
        ok (record log { written = log.written + len text + 1; prev = env.sha256_hex text }),
        put log.file
            (record file {
              lines = file.lines ++ (str_append file.torn text) ∷ [];
              torn = "";
              modified = env.now;
            })
            d,
      )
  marked fails log text d = (
    err (audit_unwritable log.path env.io_error),
    put log.file (record (d.file log.file) { torn = "" }) d,
  )
  marked (leaves part) log text d =
      let file = d.file log.file in
      (
        err (audit_unwritable log.path env.io_error),
        put log.file (record file { torn = str_append file.torn part; modified = env.now }) d,
      )

  -- A failed write is cut back to the `written` bytes, which are those of the lines, unless that
  -- fails as well.
  unfoldable pub write_line : OpenLog → String → Io OpenLog
  unfolding call put
  write_line log text d = let (outcome, d') = call d in marked outcome log text d'

  -- The digest of the end of the file that is read.
  abbrev pub tail_digest : ℕ → String → String
  tail_digest bytes line = env.sha256_hex (ends_within bytes line)

  abbrev ended : ℕ → File → Disk → Disk
  ended id file d = put id (record file { lines = file.lines ++ file.torn ∷ []; torn = "" }) d

  unfoldable pub end_line : String → ℕ → ℕ → String → Io (ℕ × String)
  unfolding fallible put
  end_line path id written digest = do
    fallible path
    λ d. (ok (written, digest), ended id (d.file id) d)

  -- A torn last line is ended, so that the next line begins a new one.
  unfoldable pub recover_lines : String → ℕ → Io (ℕ × String)
  unfolding fallible put file_size ends_within
  recover_lines path id d =
      let file = d.file id in
      if holds_text file.torn
      then end_line path id (file_size file + 1) (tail_digest tail_scan_bytes file.torn) d
      else done (file_size file, tail_digest (tail_scan_bytes - 1) (or_empty (last? file.lines))) d

  unfoldable pub read_tail : String → ℕ → Io (ℕ × String)
  unfolding recover_lines fallible
  read_tail path id = do fallible path; recover_lines path id

  unfoldable pub recover_tail : String → ℕ → Io (ℕ × String)
  unfolding read_tail fallible file_size
  recover_tail path id = do
    fallible path
    λ d. if leb (file_size (d.file id)) 0 then done (0, "") d else read_tail path id d

  unfoldable pub marker_named : String → String → Marker
  marker_named name prev = record {
    timestamp = env.timestamp;
    marker = name;
    process = env.process;
    on_failure = none;
    rotated_from = none;
    resumed = false;
    dropped = none;
    pruned = [];
    prev = prev;
  }

  -- The marker that a file is opened with; `starts` says that the file was empty.
  unfoldable pub start_marker : Start → Bool → String → String → Marker
  unfolding Failure.as_str marker_named
  start_marker (fresh on_failure) starts carried prev = record (marker_named chain_start prev) {
    on_failure = some (Failure.as_str on_failure);
  }
  start_marker (resumed on_failure) starts carried prev = record (marker_named chain_start prev) {
    on_failure = some (Failure.as_str on_failure);
    resumed = starts && holds_text carried;
  }
  start_marker (rotated on_failure source) starts carried prev =
      record (marker_named chain_start prev) {
        on_failure = some (Failure.as_str on_failure);
        rotated_from = if starts then some source else none;
      }

  unfoldable pub marker_text : Marker → String
  unfolding marker_value
  marker_text m = env.to_string (marker_value m)

  unfoldable pub start_log : String → ℕ → Start → String → ℕ × String → Io OpenLog
  unfolding start_marker marker_text write_line
  start_log path id start carried (written, tail) =
      let starts = eqb written 0 in
      let prev = if starts then carried else tail in
      write_line
        (record { file = id; path = path; written = written; prev = prev; rotated_to = none })
        (marker_text (start_marker start starts carried prev))

  -- The lock may be held, by another process or by the handle that is still open.
  unfoldable pub try_lock : String → ℕ → Io (Unit {0})
  unfolding fallible put
  try_lock path id d =
      if (d.file id).taken
      then (
        err (
            audit_unwritable path
              "another process holds this audit file; give each server its own audit_path"),
        d,
      )
      else after (fallible path d) (λ _ d. (ok tt, put id (record (d.file id) { taken = true }) d))

  abbrev pub held : ℕ → Result OpenLog × Disk → Result OpenLog × Disk
  unfolding release
  held id (err stop, d) = (err stop, release id d)
  held id (ok log, d) = (ok log, d)

  unfoldable pub start_locked : String → ℕ → Start → String → Io OpenLog
  unfolding release recover_tail start_log
  start_locked path id start carried d =
      held id ((do recovered ← recover_tail path id; start_log path id start carried recovered) d)

  unfoldable pub open_file : String → Start → String → Io OpenLog
  unfolding fallible create try_lock start_locked
  open_file path start carried = do
    fallible path
    fallible path
    id ← λ d. (let (id, d') = create path d in (ok id, d'))
    try_lock path id
    start_locked path id start carried

  abbrev rotated_name : String → String → ℕ → String
  rotated_name file_name stamp counter =
      str_append file_name
        (str_append "." (str_append stamp (str_append "." (env.decimal counter))))

  abbrev is_taken : String → Disk → Bool
  is_taken name d = elim (named name d.names) [ none ↦ false | some id ↦ true ]

  -- The loop that counts until a name is free; each round meets another name of the directory.
  unfoldable pub free_name : ℕ → String → String → ℕ → String → Disk → String
  unfolding named
  free_name zero file_name stamp counter candidate d = candidate
  free_name (suc rounds) file_name stamp counter candidate d =
      let later =
        free_name rounds file_name stamp (suc counter) (rotated_name file_name stamp counter) d in
      if is_taken candidate d then later else candidate

  -- A file that was renamed is made read-only; where `set_permissions` fails, that is only noted.
  unfoldable pub moved_to : OpenLog → String → Option Disk → Io (String × OpenLog)
  unfolding call
  moved_to log name none d = (err (audit_unwritable log.path env.io_error), d)
  moved_to log name (some d') d = (ok (name, record log { path = name }), (call d').1)

  -- The name that was given, and the log at it.
  unfoldable pub rotate : OpenLog → Io (String × OpenLog)
  unfolding free_name fallible rename moved_to
  rotate log d =
      let stamp = env.decimal env.unix_timestamp in
      let name =
        free_name (suc (length d.names)) log.path stamp 1
          (str_append log.path (str_append "." stamp)) d in
      (do fallible log.path; λ d'. moved_to log name (rename log.path name d') d') d
