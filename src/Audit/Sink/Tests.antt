-- ===== src/Audit/Sink/Tests.antt =====
-- Runs of the audit sink on one small directory.
use ownpg.Base.{
  String, suc, ap, sym, ◌∙◌, zero, contains, ◌≡◌, ◌++◌, ℕ, refl, Bool, true, false, none, some,
  List, [], ◌∷◌,
}
use ownpg.Config.Mode.{read_only}
use ownpg.Config.Failure.{refuse_writes}
use ownpg.Audit.Entry.{Entry, allowed, stdio, local}
use ownpg.Audit.Disk.{Disk, Fault, update, new_file, named}
use ownpg.Audit.Family.{fixed}
use ownpg.Audit.Log.{rotate, Env}
use ownpg.Audit.Retention.{Closed, sort_closed, selected}
use ownpg.Audit.Retention.Selects.{names, outdated, AreOlder, Keeps, selected-reference}
use mathlib.Core.List.{Perm}
use ownpg.Audit.Sink.{Rules, Sink, prune}
use ownpg.Audit.Sink.Active.{prune-names}
use ownpg.Audit.Log.Names.{Moves, rotate-Moves}

abbrev pub toy_env : Env
toy_env = record {
  timestamp = "t";
  process = 7;
  unix_timestamp = 100;
  now = 100;
  to_string = λ v. "line";
  sha256_hex = λ s. "digest";
  decimal = λ n. "1";
  io_error = "no space";
}

abbrev small_rules : Rules
small_rules = record {
  max_bytes = 0;
  keep_files = 2;
  keep_days = 0;
  on_failure = refuse_writes;
  base = "log";
  family = fixed "log";
  enabled = true;
}

abbrev one_file : List Fault → Disk
one_file faults = record {
  names = ("log", 0) ∷ [];
  file = update (λ id. new_file) 0 (record new_file { lines = "line" ∷ []; taken = true });
  next = 1;
  faults = faults;
}

abbrev sink_on : List Fault → Bool → ℕ → Sink
sink_on faults degraded lost = record {
  disk = one_file faults;
  log = record { file = 0; path = "log"; written = 5; prev = "digest"; rotated_to = none };
  dropped = lost;
  unreported = lost;
  degraded = degraded;
  last_failure = none;
}

abbrev pub entry : Entry
entry = record {
  request_id = "r";
  call_id = some 1;
  tool = "read";
  operation = none;
  mode = read_only;
  transport = stdio;
  principal = "p";
  principal_kind = local;
  database = "d";
  schema = "s";
  statement_class = none;
  statement_hash = none;
  statement = none;
  relations = [];
  decision = allowed;
  rule = none;
  handle_id = none;
  cursor_id = none;
  duration_ms = 3;
  row_count = none;
  rows_affected = none;
  truncated = false;
  outcome = some "ok";
  superuser = false;
}

prune-names_example :
    named "log" (prune small_rules toy_env (sink_on [] false 0)).disk.names
    ≡ named "log" (sink_on [] false 0).disk.names
unfolding contains
prune-names_example = prune-names small_rules toy_env (sink_on [] false 0) "log" refl

abbrev closed_three : List Closed
closed_three =
    record { modified = 90; name = "log.3" }
    ∷ record { modified = 10; name = "log.1" }
    ∷ record { modified = 50; name = "log.2" }
    ∷ []

selected-reference_example :
    (older newer : List Closed) × Perm (older ++ newer) closed_three
    × AreOlder older newer
    × Keeps 2 older newer
    × (selected 100000 1 2 (sort_closed closed_three)
        ≡ names older ++ names (outdated 100000 1 newer))
selected-reference_example = selected-reference 100000 1 2 closed_three

-- A number as so many strokes: different numbers have different texts.
strokes : ℕ → String
strokes zero = ""
strokes (suc n) = String.◌∷◌ "1" (strokes n)

count_strokes : String → ℕ
count_strokes String.[] = 0
count_strokes (String.◌∷◌ c s) = suc (count_strokes s)

count_strokes-strokes : (n : ℕ) → count_strokes (strokes n) ≡ n
unfolding strokes count_strokes
count_strokes-strokes zero = refl
count_strokes-strokes (suc n) = ap suc (count_strokes-strokes n)

stroke_env : Env
stroke_env = record toy_env { decimal = strokes }

strokes_differ : (m n : ℕ) → stroke_env.decimal m ≡ stroke_env.decimal n → m ≡ n
unfolding stroke_env
strokes_differ m n e = sym (count_strokes-strokes m) ∙ ap count_strokes e ∙ count_strokes-strokes n

rotate-Moves_example :
    Moves stroke_env
      (sink_on [] false 0).log
      (one_file [])
      (rotate stroke_env (sink_on [] false 0).log (one_file []))
rotate-Moves_example = rotate-Moves stroke_env strokes_differ (sink_on [] false 0).log (one_file [])
