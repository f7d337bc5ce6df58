-- ===== src/Engine/Handles/Tests.antt =====
-- One handle that ends in time and too late.
use ownpg.Base.{refl, false, none, some, []}
use ownpg.Errors.{ok}
use ownpg.Engine.Commit.{Client}
use ownpg.Engine.Handles.{WriteHandle, Primary, Limits, committed, deadline, finish_transaction}
use ownpg.Engine.Handles.Ends.{holding, Ends, Rejected, finish_transaction-Rejected}

abbrev limits : Limits
limits = record { handle_expiry = 1000; transaction_timeout = 5000 }

abbrev handle : WriteHandle
handle = record {
  id = "h1";
  principal = "ann";
  savepoints = [];
  statements = 2;
  expires_at = 1500;
  lifetime = some 5000;
  lifetime_ends_at = some 5500;
}

abbrev client : Client
client = record { closed = false; answers = []; sent = [] }

abbrev idle : Primary
idle = record { write_handle = none; closed = []; client = client; ended = [] }

finish_transaction-Rejected_example : Rejected limits none 1500 handle idle (
    finish_transaction limits none 1500 (ok tt) "h1" "ann" "COMMIT" committed (holding handle idle))
unfolding deadline
finish_transaction-Rejected_example =
    finish_transaction-Rejected limits none 1500 (ok tt) "h1" "ann" "COMMIT" committed handle idle
      refl
