-- ===== src/Classify/Kinds.antt =====
-- Statement classes and the tables of the classifier: crates/ownpg-core/src/classify.rs.
use ownpg.Base.{ℕ, String, Bool, List, [], ◌∷◌, contains, leb, if◌then◌else◌}
use ownpg.Config.Mode
use ownpg.Config.Mode.{Mode}

abbrev pub catalog_schemas : List String
catalog_schemas = "pg_catalog" ∷ "information_schema" ∷ "pg_temp" ∷ []

abbrev pub denied_functions : List String
denied_functions =
    "pg_read_file" ∷ "pg_read_binary_file" ∷ "pg_ls_dir" ∷ "pg_ls_logdir" ∷ "pg_ls_waldir"
    ∷ "pg_ls_tmpdir" ∷ "pg_ls_archive_statusdir" ∷ "pg_ls_logicalsnapdir" ∷ "pg_ls_logicalmapdir"
    ∷ "pg_ls_replslotdir" ∷ "pg_stat_file" ∷ "lo_import" ∷ "lo_export" ∷ "dblink" ∷ "dblink_connect"
    ∷ "dblink_connect_u" ∷ "dblink_exec" ∷ "dblink_send_query" ∷ "pg_sleep" ∷ "pg_sleep_for"
    ∷ "pg_sleep_until" ∷ "pg_terminate_backend" ∷ "pg_cancel_backend" ∷ "set_config"
    ∷ "pg_reload_conf" ∷ "pg_rotate_logfile" ∷ "pg_file_write" ∷ "pg_file_unlink" ∷ "pg_file_rename"
    ∷ "pg_logdir_ls" ∷ []

abbrev pub notify_and_lock_functions : List String
notify_and_lock_functions =
    "pg_notify" ∷ "pg_advisory_lock" ∷ "pg_advisory_lock_shared" ∷ "pg_try_advisory_lock"
    ∷ "pg_try_advisory_lock_shared" ∷ "pg_advisory_unlock" ∷ "pg_advisory_unlock_shared"
    ∷ "pg_advisory_unlock_all" ∷ []

abbrev pub transaction_lock_functions : List String
transaction_lock_functions =
    "pg_advisory_xact_lock" ∷ "pg_advisory_xact_lock_shared" ∷ "pg_try_advisory_xact_lock"
    ∷ "pg_try_advisory_xact_lock_shared" ∷ []

abbrev pub statistics_reset_functions : List String
statistics_reset_functions =
    "pg_stat_reset" ∷ "pg_stat_reset_shared" ∷ "pg_stat_reset_single_table_counters"
    ∷ "pg_stat_reset_single_function_counters" ∷ "pg_stat_reset_slru"
    ∷ "pg_stat_reset_replication_slot" ∷ "pg_stat_reset_subscription_stats"
    ∷ "pg_stat_reset_backend_stats" ∷ "pg_stat_statements_reset" ∷ []

pub data StatementClass : Type 0 where
  read write procedure maintenance ddl roles : StatementClass

unfoldable pub as_str : StatementClass → String
as_str read = "read"
as_str write = "write"
as_str procedure = "procedure"
as_str maintenance = "maintenance"
as_str ddl = "ddl"
as_str roles = "roles"

unfoldable pub allowed_in : StatementClass → Mode → Bool
unfolding Mode.allows_reads Mode.allows_writes
allowed_in read mode = Mode.allows_reads mode
allowed_in _ mode = Mode.allows_writes mode

-- The derived `Ord`: the order of the declaration.
abbrev pub rank : StatementClass → ℕ
rank read = 0
rank write = 1
rank procedure = 2
rank maintenance = 3
rank ddl = 4
rank roles = 5

-- `a.max(b)`
unfoldable pub max : StatementClass → StatementClass → StatementClass
max a b = if leb (rank a) (rank b) then b else a

pub data Verdict : Type 0 where
  class : StatementClass → Verdict
  refuse : String → Verdict

abbrev pub read_kinds : List String
read_kinds = "SelectStmt" ∷ "VariableShowStmt" ∷ "ExplainStmt" ∷ "CopyStmt" ∷ []

abbrev pub write_kinds : List String
write_kinds = "InsertStmt" ∷ "UpdateStmt" ∷ "DeleteStmt" ∷ "MergeStmt" ∷ []

abbrev pub procedure_kinds : List String
procedure_kinds = "DoStmt" ∷ "CallStmt" ∷ []

abbrev pub maintenance_kinds : List String
maintenance_kinds =
    "VacuumStmt" ∷ "ReindexStmt" ∷ "ClusterStmt" ∷ "CheckPointStmt" ∷ "RefreshMatViewStmt" ∷ []

abbrev pub ddl_kinds : List String
ddl_kinds =
    "CreateStmt" ∷ "AlterTableStmt" ∷ "DropStmt" ∷ "TruncateStmt" ∷ "IndexStmt" ∷ "ViewStmt"
    ∷ "CreateSeqStmt" ∷ "AlterSeqStmt" ∷ "CreateFunctionStmt" ∷ "AlterFunctionStmt"
    ∷ "CreateTrigStmt" ∷ "CreateEventTrigStmt" ∷ "AlterEventTrigStmt" ∷ "CreateEnumStmt"
    ∷ "AlterEnumStmt" ∷ "CreateDomainStmt" ∷ "AlterDomainStmt" ∷ "CreateRangeStmt"
    ∷ "CompositeTypeStmt" ∷ "DefineStmt" ∷ "CreateExtensionStmt" ∷ "AlterExtensionStmt"
    ∷ "AlterExtensionContentsStmt" ∷ "CommentStmt" ∷ "CreatePolicyStmt" ∷ "AlterPolicyStmt"
    ∷ "RenameStmt" ∷ "AlterObjectSchemaStmt" ∷ "AlterObjectDependsStmt" ∷ "AlterOwnerStmt"
    ∷ "CreateSchemaStmt" ∷ "CreateTableAsStmt" ∷ "RuleStmt" ∷ "CreateStatsStmt" ∷ "AlterStatsStmt"
    ∷ "CreateOpClassStmt" ∷ "CreateOpFamilyStmt" ∷ "AlterOpFamilyStmt" ∷ "CreateCastStmt"
    ∷ "CreateTransformStmt" ∷ "CreateConversionStmt" ∷ "CreateAmStmt" ∷ "SecLabelStmt"
    ∷ "AlterCollationStmt" ∷ "AlterTypeStmt" ∷ "CreatedbStmt" ∷ "DropdbStmt" ∷ "AlterDatabaseStmt"
    ∷ "AlterDatabaseSetStmt" ∷ "AlterDatabaseRefreshCollStmt" ∷ "CreatePublicationStmt"
    ∷ "AlterPublicationStmt" ∷ "AlterTableMoveAllStmt" ∷ "AlterTableSpaceOptionsStmt"
    ∷ "AlterOperatorStmt" ∷ "CreatePlangStmt" ∷ "CreateTableSpaceStmt" ∷ "DropTableSpaceStmt" ∷ []

abbrev pub roles_kinds : List String
roles_kinds =
    "CreateRoleStmt" ∷ "AlterRoleStmt" ∷ "AlterRoleSetStmt" ∷ "DropRoleStmt" ∷ "GrantStmt"
    ∷ "GrantRoleStmt" ∷ "AlterDefaultPrivilegesStmt" ∷ "DropOwnedStmt" ∷ "ReassignOwnedStmt" ∷ []

abbrev pub setting_kinds : List String
setting_kinds = "VariableSetStmt" ∷ []

abbrev pub discard_kinds : List String
discard_kinds = "DiscardStmt" ∷ []

abbrev pub load_kinds : List String
load_kinds = "LoadStmt" ∷ []

abbrev pub transaction_kinds : List String
transaction_kinds = "TransactionStmt" ∷ []

abbrev pub cursor_kinds : List String
cursor_kinds = "DeclareCursorStmt" ∷ "FetchStmt" ∷ "ClosePortalStmt" ∷ []

abbrev pub prepared_kinds : List String
prepared_kinds = "PrepareStmt" ∷ "ExecuteStmt" ∷ "DeallocateStmt" ∷ []

abbrev pub notify_kinds : List String
notify_kinds = "ListenStmt" ∷ "UnlistenStmt" ∷ "NotifyStmt" ∷ []

abbrev pub lock_kinds : List String
lock_kinds = "LockStmt" ∷ []

abbrev pub system_kinds : List String
system_kinds = "AlterSystemStmt" ∷ []

abbrev pub subscription_kinds : List String
subscription_kinds =
    "CreateSubscriptionStmt" ∷ "AlterSubscriptionStmt" ∷ "DropSubscriptionStmt" ∷ []

abbrev pub foreign_kinds : List String
foreign_kinds =
    "CreateForeignServerStmt" ∷ "AlterForeignServerStmt" ∷ "CreateFdwStmt" ∷ "AlterFdwStmt"
    ∷ "CreateUserMappingStmt" ∷ "AlterUserMappingStmt" ∷ "DropUserMappingStmt"
    ∷ "ImportForeignSchemaStmt" ∷ "CreateForeignTableStmt" ∷ []

abbrev pub raw_kinds : List String
raw_kinds = "RawStmt" ∷ []

-- The arms of the `match`, from the first on; a kind in none of them is refused.
unfoldable pub class_of : String → Verdict
unfolding contains
class_of kind =
    if contains read_kinds kind
    then class read
    else if contains write_kinds kind
    then class write
    else if contains procedure_kinds kind
    then class procedure
    else if contains maintenance_kinds kind
    then class maintenance
    else if contains ddl_kinds kind
    then class ddl
    else if contains roles_kinds kind
    then class roles
    else if contains setting_kinds kind
    then refuse "session settings are managed by the server"
    else if contains discard_kinds kind
    then refuse "DISCARD resets session state the server relies on"
    else if contains load_kinds kind
    then refuse "LOAD loads code into the database server"
    else if contains transaction_kinds kind
    then refuse "transactions are managed through the pg_transaction tool"
    else if contains cursor_kinds kind
    then refuse "cursors are managed by the server through paging"
    else if contains prepared_kinds kind
    then refuse "prepared statements are managed by the server"
    else if contains notify_kinds kind
    then refuse "LISTEN and NOTIFY are not available through this server"
    else if contains lock_kinds kind
    then refuse "LOCK is not available; a transaction handle holds its own locks"
    else if contains system_kinds kind
    then refuse "ALTER SYSTEM changes the server configuration"
    else if contains subscription_kinds kind
    then refuse "subscriptions open a connection from the database host"
    else if contains foreign_kinds kind
    then refuse "foreign data access reaches outside the database"
    else if contains raw_kinds kind
    then class read
    else refuse "a statement kind this server does not run"
