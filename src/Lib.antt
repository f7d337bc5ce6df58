-- ===== src/Lib.antt =====
-- OwnPG: a verification library for the safety core of the server, crates/ownpg-core.
--
-- OwnPG is an MCP server that lets a client run SQL on one PostgreSQL database. A text that arrives
-- at a tool is parsed and classified (classify), checked against the mode and the schema that the
-- server was configured with (authorize), held back for a confirmation if it destroys data (the
-- gate), and its rows are collected under caps and shaped for the client (the collector).
--
-- The files, all about crates/ownpg-core/src:
--   Base           shared names, Boolean tests on the native naturals, lists and text
--   Errors         error.rs: the variants of Error that the modelled code builds, and Result
--   Json           the JSON values of serde_json that the code reads: a data type with its own
--                  readers (get, pointer, as_str, as_i64, as_bool, as_array)
--   Config         config/mod.rs. Mode: Mode and its predicates. Groups: ToolGroup and
--                  Settings::loaded_groups. Failure: AuditFailure.
--   Classify       classify.rs. Kinds: StatementClass, the tables of functions and class_of. Names:
--                  dotted_name, split_qualified, qualified_name. Rows: the conditions that keep
--                  every row. Walk: walk and its Findings. Cascade: cascade_targets. Statement:
--                  classify. Authorize: authorize. Safety: what the two give together.
--   Shape          shape.rs. Cells: sanitize, escape_cell, cut_cell. Collector: Caps, Collector
--                  (offer, push, finish).
--   Confirm        tools/confirm.rs: Gate with matches, consume, ask and check.
--   Audit          audit.rs. Chain: verify_chain, the check of the hash chain of a file. Entry: the
--                  lines and the markers. Disk: the directory, with calls that may fail. Family: the
--                  names of the files. Log: the open file (write_line, recover_tail, open_file,
--                  rotate). Retention: which files prune removes. Sink: Sink, with Setup (Sink::open),
--                  Works (a log that can be written) and Gaps (what is lost and told).
--                  Sound holds what is sound about the files and the proofs of it.
--   Render         render.rs: quote_ident and quote_literal. Quoted holds the lexical rules of SQL
--                  by which the database reads the quoted texts.
--   Engine         engine.rs. Commit: how a COMMIT ends (commit_checked, lost_commit_outcome,
--                  finish_block). Handles: the write handle of a server without a pool. Begin:
--                  begin_transaction. Lane: the cursors of a connection. Savepoints:
--                  check_savepoint and truncate_savepoints.
--
-- State is passed explicitly: walk takes Findings and returns them, the gate returns the verdict and
-- the gate it leaves, an offer returns the collector and the row it gives back. Errors are values of
-- Result. The mutations of classify on its local variables are the record Grade, passed through the
-- steps in the order of the source.
--
-- Recursion on a JSON value is structural. is_constant_expression and matches_every_row reach their
-- children by paths, so they recurse on fuel, which the depth of the value gives; a path only leads
-- to a value of smaller depth, so the fuel never runs out (Classify.Rows.Fuel).
--
-- Parameters, since their code is not in the repository: the SQL parser with its count of
-- statements, fingerprint and normalisation and the digest of the text (record Parser), the split of
-- a text into graphemes, the conversion of a cell to a JSON value, and of the gate the sealed state,
-- the clocks, the random nonce and the reading of a form (records Codec and Call), and of the audit
-- log the JSON text of a value, its parser, which is assumed to find the keys of the chain in each line
-- that the log writes as they were written, the digest, the clocks and the decimal text of a number (record
-- Env), and of the engine the answers of the database, as a list, and what `track` answers, which fails where
-- the call was cancelled.
--
-- The audit log stands on a small model of the file system: a name leads to a file, a file is its
-- lines and what follows the last line feed, a file that has lost its name stays with the handle that
-- is open, and each call takes its result, success or failure, from a list, so every sequence of
-- failures is a case. rotate counts until a name is free; the loop is given one round more than
-- there are names, and each round meets another name, so a free one is found (Audit.Log.Names). Methods of the sink run under its lock, one
-- after the other; between them other processes may change names and files.
--
-- Not modelled: connections, TLS, SSH, the protocol, the tools that build SQL, the rest of
-- render.rs, the sink's probe, warning and flush, the engine's statements and pooled handles,
-- and the command line, which are mostly I/O.
pub mod Base
pub mod Errors
pub mod Json
pub mod Config
pub mod Classify
pub mod Shape
pub mod Confirm
pub mod Audit
pub mod Render
pub mod Engine
