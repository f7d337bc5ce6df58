-- ===== src/Audit/Sink/Setup.antt =====
-- How the sink is opened: `Sink::open`, `location`, `family_label` and `default_file_name` of
-- crates/ownpg-core/src/audit.rs. A path is a file name in the directory of the log.
use Prim.Native.Char.{Char, code}
use Prim.Native.String.{[], ◌∷◌, ◌++◌}
use ownpg.Base.{
  ℕ, zero, suc, String, Bool, true, false, not, Option, none, some, ◌==◌, ◌&&◌, ◌||◌, leb, eqb,
  if◌then◌else◌,
}
use ownpg.Errors.{Result, ok, err}
use ownpg.Config.Failure.{AuditFailure, continue}
use ownpg.Audit.Disk.{Disk}
use ownpg.Audit.Family.{Family, per_process, fixed, is_digit}
use ownpg.Audit.Log.{Env, OpenLog, Io, fresh, open_file}
use ownpg.Audit.Sink.{Rules, Sink, prune}

-- `AuditSettings`, each with its value.
pub record Settings : Type 0 where
  pub enabled : Bool
  pub path : Option String
  pub max_bytes : ℕ
  pub keep_files : ℕ
  pub keep_days : ℕ
  pub on_failure : AuditFailure

abbrev within : ℕ → Char → ℕ → Bool
within low c high = leb low (code c) && leb (code c) high

abbrev is_label_char : Char → Bool
is_label_char c =
    within b'a' c b'z' || within b'A' c b'Z' || is_digit c || eqb (code c) b'-' || eqb (code c) b'_'

unfoldable pub label_of : String → String
label_of [] = []
label_of (c ∷ s) = if is_label_char c then c ∷ label_of s else "_" ++ label_of s

unfoldable pub first_chars : ℕ → String → String
first_chars zero s = []
first_chars (suc n) [] = []
first_chars (suc n) (c ∷ s) = c ∷ first_chars n s

abbrev label_digest_hex_chars : ℕ
label_digest_hex_chars = 8

module _ (env : Env) where
  -- A label that changes the name carries a digest of the name.
  unfoldable pub family_label : Option String → String
  unfolding label_of first_chars
  family_label none = "default"
  family_label (some name) =
      if name == ""
      then "default"
      else if label_of name == name
      then label_of name
      else label_of name ++ ("~" ++ first_chars label_digest_hex_chars (env.sha256_hex name))

  unfoldable pub default_file_name : Option String → String
  unfolding family_label
  default_file_name profile =
      "audit-" ++ (family_label profile ++ ("-" ++ (env.decimal env.process ++ ".jsonl")))

  unfoldable pub location : Option String → Option String → String × Family
  unfolding default_file_name family_label
  location none profile =
      (default_file_name profile, per_process ("audit-" ++ (family_label profile ++ "-")))
  location (some path) profile = (path, fixed path)

  -- A sink that is not enabled has no open log; no method reads the one that stands here.
  abbrev disabled : Disk → Rules × Sink
  disabled d = (
    record {
      max_bytes = 0;
      keep_files = 0;
      keep_days = 0;
      on_failure = continue;
      base = "";
      family = fixed "";
      enabled = false;
    },
    record {
      disk = d;
      log = record { file = 0; path = ""; written = 0; prev = ""; rotated_to = none };
      dropped = 0;
      unreported = 0;
      degraded = false;
      last_failure = none;
    },
  )

  abbrev pub rules_of : Settings → String × Family → Rules
  rules_of settings (base, family) = record {
    max_bytes = settings.max_bytes;
    keep_files = settings.keep_files;
    keep_days = settings.keep_days;
    on_failure = settings.on_failure;
    base = base;
    family = family;
    enabled = true;
  }

  abbrev pub new_sink : OpenLog → Disk → Sink
  new_sink log d = record {
    disk = d;
    log = log;
    dropped = 0;
    unreported = 0;
    degraded = false;
    last_failure = none;
  }

  unfoldable pub started : Rules → Result OpenLog × Disk → Result (Rules × Sink) × Disk
  unfolding prune
  started rules (err stop, d) = (err stop, d)
  started rules (ok log, d) = let s = prune rules env (new_sink log d) in (ok (rules, s), s.disk)

  -- `Sink::open`
  unfoldable pub open_sink : Settings → Option String → Io (Rules × Sink)
  unfolding location open_file started
  open_sink settings profile d =
      if not settings.enabled
      then (ok (disabled d), d)
      else let rules = rules_of settings (location settings.path profile) in
        started rules (open_file env rules.base (fresh rules.on_failure) "" d)
