-- ===== src/Postgres/Tests.antt =====
-- Tests of PostgresConnection: a libpq that keeps the statements it is sent.
use cloud_storage_system.Base.{◌≡◌, refl, true, some, List, [], ◌∷◌, ◌++◌}
use cloud_storage_system.Base.Int.{pos}
use cloud_storage_system.Base.Text.{Text, text}
use cloud_storage_system.Postgres.{
  succeeded, checked, locked, run_exec, command_ok, PgResult, Libpq, Config, PostgresConnection,
  new_connection, returns, blocks, execute_query, connect, begin_transaction, open_guard,
}
use cloud_storage_system.Base.{none, false}
use cloud_storage_system.Postgres.{execute_parameterized_query}
use cloud_storage_system.Postgres.Blocking.{
  queries, commits, perform_all, any_locks_twice, locks_twice, perform_all-refused, connect-blocks,
}

abbrev done : PgResult
done = record { status = command_ok; rows = []; cmd_tuples = text "0" }

abbrev willing : Libpq (List Text)
willing = record {
  connect_db = λ info d. (d ++ info ∷ [], true);
  exec = λ query d. (d ++ query ∷ [], some done);
  exec_params = λ query values d. (d ++ query ∷ [], some done);
  is_ok = λ d. true;
  error_message = λ d. [];
  finish = λ d. d;
}

abbrev local : Config
local = record {
  host = text "localhost";
  port = pos 5432;
  database = text "banking_system";
  username = text "banking_user";
  password = [];
  connection_timeout = pos 30;
}

-- A connection that is set, with the mutex free: a statement reaches libpq.
abbrev connected : PostgresConnection (List Text)
connected = record (new_connection local []) { connection = true }

sends :
    execute_query willing (text "SELECT 1") connected
    ≡ returns (record connected { database = text "SELECT 1" ∷ [] }) true
unfolding execute_query run_exec locked checked succeeded
sends = refl

connect-blocks_example :
    let s = new_connection {D = List Text} local [] in
    (connect willing s ≡ blocks)
    × (begin_transaction willing s ≡ blocks)
    × (open_guard willing s ≡ blocks)
connect-blocks_example = connect-blocks willing (new_connection local [])

perform_all-refused_example :
    let s = new_connection local [] in
    (perform_all willing (queries (text "SELECT 1") ∷ commits ∷ []) s ≡ returns s tt)
    × (execute_query willing (text "SELECT 2") s ≡ returns s false)
    × (execute_parameterized_query willing (text "SELECT 2") [] s ≡ returns s none)
unfolding any_locks_twice locks_twice
perform_all-refused_example =
    perform_all-refused willing (queries (text "SELECT 1") ∷ commits ∷ []) local []
      (text "SELECT 2") []
