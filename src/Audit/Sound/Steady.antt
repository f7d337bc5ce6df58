-- ===== src/Audit/Sound/Steady.antt =====
-- A record where the log stays in its file and the file system works.
use ownpg.Base.{String, ◌≡◌, ◌⊎◌, inl, inr, true, false, Bool-cases}
use ownpg.Json.{Value}
use ownpg.Classify.Statement.{Reply}
use ownpg.Audit.Entry.{Entry}
use ownpg.Audit.Log.{Env}
use ownpg.Audit.Sink.Works.{IsOk, is_steady, record_entry-IsOk}
use ownpg.Audit.Sink.{Rules, Sink, record_entry}
use ownpg.Audit.Sound.{IsRead, IsSound}
use ownpg.Audit.Sound.Methods.{Ends, record_entry-Ends}

module _ (env : Env) (parse : String → Reply Value) (reads : IsRead env.to_string parse)
    (rules : Rules) where
  -- The sink is enabled, each file of the directory verifies, is empty or has a line of 65536 bytes or
  -- more, the open log goes on with its file, and each write that fails is cut back. The parser is
  -- assumed to read each line that the log writes and to find the version, `prev`, `marker`,
  -- `rotated_from` and `resumed` as they were written. Then a record that succeeds leaves the entry
  -- as the last line of the file that the log goes on with, also where the log was moved aside, was
  -- opened again, or told of a gap before; and it succeeds where the file system works, the name leads
  -- to the open file and the file is not full.
  pub record_entry-Lands :
      (s : Sink) (entry : Entry)
      → rules.enabled ≡ true
      → IsSound parse env.sha256_hex s
      → Ends env parse reads rules entry (record_entry rules env entry s)
        × ((is_steady env rules s ≡ false) ⊎ IsOk (record_entry rules env entry s).0)
  record_entry-Lands s entry on h = (
    record_entry-Ends env parse reads rules s entry on h,
    elim (Bool-cases (is_steady env rules s)) [
      | inl steady ↦ inr (record_entry-IsOk env rules s entry on steady)
      | inr other ↦ inl other
    ],
  )
