-- ===== src/Config/Mode.antt =====
-- The access mode of a run: `Mode` of crates/ownpg-core/src/config/mod.rs.
use ownpg.Base.{String, Bool, true, false}

pub data Mode : Type 0 where
  read_only write_only read_write : Mode

unfoldable pub as_str : Mode → String
as_str read_only = "read-only"
as_str write_only = "write-only"
as_str read_write = "read-write"

unfoldable pub allows_reads : Mode → Bool
allows_reads read_only = true
allows_reads read_write = true
allows_reads _ = false

unfoldable pub allows_writes : Mode → Bool
allows_writes write_only = true
allows_writes read_write = true
allows_writes _ = false
