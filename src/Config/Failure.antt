-- ===== src/Config/Failure.antt =====
-- What happens when the audit log cannot be written: `AuditFailure` of
-- crates/ownpg-core/src/config/mod.rs.
use ownpg.Base.{String, Bool, true, false, not}

pub data AuditFailure : Type 0 where
  continue refuse_writes refuse_all : AuditFailure

unfoldable pub as_str : AuditFailure → String
as_str continue = "continue"
as_str refuse_writes = "refuse-writes"
as_str refuse_all = "refuse-all"

unfoldable pub refuses : AuditFailure → Bool → Bool
refuses continue read_only = false
refuses refuse_writes read_only = not read_only
refuses refuse_all read_only = true
