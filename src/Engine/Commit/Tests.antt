-- ===== src/Engine/Commit/Tests.antt =====
-- A commit whose connection is lost, and one that is answered.
use ownpg.Base.{true, false, none, some, [], ◌∷◌}
use ownpg.Errors.{sql_failed}
use ownpg.Engine.Commit.{
  Answer, row, failed, Client, Probe, reached, status, query, check_sql, finish_block,
}
use ownpg.Engine.Commit.Truthful.{IsOk, Tells, finish_block-Tells}

abbrev broken_off : Answer
broken_off =
    failed
      (record { fatal = none; is_closed = true; described = sql_failed none "connection closed" })

-- The check is answered, the connection is lost in the COMMIT.
abbrev losing : Client
losing = record {
  closed = false;
  answers = (row (some "741"), false) ∷ (broken_off, true) ∷ [];
  sent = [];
}

abbrev seen_later : Probe
seen_later = reached (status (some "in progress") ∷ status (some "committed") ∷ [])

finish_block-Tells_example :
    Tells
      (some seen_later)
      (query (check_sql (some seen_later)) losing).0
      (query "COMMIT" (query (check_sql (some seen_later)) losing).1)
      (finish_block (some seen_later) "h" "COMMIT" losing).0
finish_block-Tells_example = finish_block-Tells (some seen_later) "h" losing

lost_but_committed : IsOk (finish_block (some seen_later) "h" "COMMIT" losing).0
unfolding finish_block
lost_but_committed = tt
