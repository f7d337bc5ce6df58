-- ===== src/Engine/Begin/Tests.antt =====
-- A transaction that is opened on an idle connection.
use ownpg.Base.{true, false, none, []}
use ownpg.Errors.{ok}
use ownpg.Engine.Commit.{Client}
use ownpg.Engine.Handles.{Limits}
use ownpg.Engine.Begin.{Connection, begin_transaction}
use ownpg.Engine.Begin.Begins.{Begins, Second, handle_of, begin_transaction-Begins}

abbrev limits : Limits
limits = record { handle_expiry = 1000; transaction_timeout = 5000 }

abbrev client : Client
client = record { closed = false; answers = []; sent = [] }

abbrev reading : Connection
reading = record {
  primary = record { write_handle = none; closed = []; client = client; ended = [] };
  in_read_transaction = true;
  cursors = [];
}

begin_transaction-Begins_example :
    Begins limits none none 1200 reading "h2" "ann"
      (begin_transaction limits none none 1200 true (ok client) (ok tt) "h2" "ann" reading)
    × Second limits none none 1200 true
        (handle_of reading)
        (begin_transaction limits none none 1200 true (ok client) (ok tt) "h2" "ann" reading)
begin_transaction-Begins_example =
    begin_transaction-Begins limits none none 1200 reading "h2" "ann" true (ok client) (ok tt)
