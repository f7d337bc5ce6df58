-- ===== src/Audit/Sound/Tests.antt =====
-- A run of the audit log in an empty directory, with the notation of the tests and a toy digest.
use Prim.Native.String.{◌∷◌ as char_cons}
use ownpg.Base.{false, ◌⊎◌, ◌≡◌, refl, inl, true, none, some, [], ◌∷◌, arith}
use ownpg.Errors.{Result, ok, err}
use ownpg.Config.Failure.{refuse_writes}
use ownpg.Audit.Disk.{Disk, works, fails, new_file}
use ownpg.Audit.Family.{fixed}
use ownpg.Audit.Log.{Env}
use ownpg.Audit.Sink.{Rules, Sink, record_entry, admit}
use ownpg.Audit.Sink.Setup.{Settings, rules_of, new_sink, open_sink}
use ownpg.Audit.Sink.Gaps.{IsCounted}
use ownpg.Audit.Sink.Tests.{entry}
use ownpg.Audit.Sound.{IsRead, DiskSound, IsSound}
use ownpg.Audit.Sound.Codec.{toy_text, toy_parse, toy_parse-toy_text}
use ownpg.Audit.Sound.Methods.{Ends}
use ownpg.Audit.Sink.Works.{IsOk, is_steady}
use ownpg.Audit.Sound.Steady.{record_entry-Lands}
use ownpg.Audit.Sound.Runs.{Moment, at, begun, recorded, admitted, changed, Disturbs, run-Holds}

abbrev env : Env
env = record {
  timestamp = "t";
  process = 7;
  unix_timestamp = 100;
  now = 100;
  to_string = toy_text;
  sha256_hex = char_cons "#";
  decimal = λ n. "1";
  io_error = "no space";
}

abbrev later_moment : Moment
later_moment = record { timestamp = "u"; unix_timestamp = 101; now = 101 }

abbrev settings : Settings
settings = record {
  enabled = true;
  path = some "log";
  max_bytes = 1;
  keep_files = 2;
  keep_days = 0;
  on_failure = refuse_writes;
}

abbrev no_files : Disk
no_files = record { names = []; file = λ id. new_file; next = 0; faults = [] }

no_files-DiskSound : DiskSound toy_parse env.sha256_hex no_files
no_files-DiskSound = record { files = λ id. inl (refl, refl); quiet = tt; known = tt }

abbrev opened : Result (Rules × Sink) × Disk
opened = open_sink env settings none no_files

-- What was opened, with anything where the opening failed.
abbrev part : Result (Rules × Sink) × Disk → Rules × (Sink × Disk)
part (ok (rules, s), d) = (rules, (s, d))
part (err error, d) = (
  rules_of env settings ("", fixed ""),
  (new_sink env (record { file = 0; path = ""; written = 0; prev = ""; rotated_to = none }) d, d),
)

abbrev rules : Rules
rules = (part opened).0

abbrev start : Sink
start = (part opened).1.0

toy_reads : IsRead toy_text toy_parse
toy_reads v is_line = (
  v,
  toy_parse-toy_text v,
  record { version = refl; prev = refl; marker = refl; rotated_from = refl; resumed = refl },
)

start_Holds : IsSound toy_parse env.sha256_hex start × IsCounted start
unfolding open_sink
start_Holds =
    run-Holds env toy_parse toy_reads settings none no_files (part opened).1.1 rules start start
      refl no_files-DiskSound refl begun

-- The second call of the file system fails.
abbrev failing_disk : Disk
failing_disk = record start.disk { faults = works ∷ fails ∷ [] }

abbrev failing : Sink
failing = record start { disk = failing_disk }

failing-Disturbs : Disturbs toy_parse env.sha256_hex start failing_disk
failing-Disturbs =
    let h = start_Holds.0.disk in
    record {
      sound = record { files = h.files; quiet = (tt, (tt, tt)); known = h.known };
      spared = refl;
      grows = omega arith;
    }

abbrev after_record : Sink
after_record = (record_entry rules (at env later_moment) entry failing).1

run-Holds_example :
    IsSound toy_parse env.sha256_hex (admit rules (at env later_moment) true after_record).1
    × IsCounted (admit rules (at env later_moment) true after_record).1
unfolding open_sink
run-Holds_example =
    run-Holds env toy_parse toy_reads settings none no_files (part opened).1.1 rules start
      (admit rules (at env later_moment) true after_record).1 refl no_files-DiskSound refl
      (admitted after_record true later_moment
        (recorded failing entry later_moment (changed start failing_disk failing-Disturbs begun)))

start_enabled : rules.enabled ≡ true
unfolding open_sink
start_enabled = refl

-- The file is full, so it is moved away and the entry is written to a new one.
record_entry-Lands_example :
    Ends
      (at env later_moment)
      toy_parse
      toy_reads
      rules
      entry
      (record_entry rules (at env later_moment) entry start)
    × ((is_steady (at env later_moment) rules start ≡ false)
        ⊎ IsOk (record_entry rules (at env later_moment) entry start).0)
record_entry-Lands_example =
    record_entry-Lands (at env later_moment) toy_parse toy_reads rules start entry start_enabled
      start_Holds.0
