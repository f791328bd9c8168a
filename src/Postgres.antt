-- ===== src/Postgres.antt =====
-- PostgresConnection and TransactionGuard (database/postgres_connection.cpp) over libpq, with the
-- mutex that every operation locks.
pub mod Blocking
mod Tests
use cloud_storage_system.Base.{
  Bool, true, false, ◌||◌, Option, none, some, List, [], ◌∷◌, ◌++◌, if◌then◌else◌,
}
use cloud_storage_system.Base.Int.{ℤ}
use cloud_storage_system.Base.Text.{Text, text, to_string}

-- ExecStatusType: the two statuses of success, and the others.
pub data ExecStatus : Type 0 where
  command_ok : ExecStatus
  tuples_ok : ExecStatus
  failed_status : ExecStatus

-- PGresult: the values of its rows, where a value that is NULL reads as the empty text, and
-- PQcmdTuples.
pub record PgResult : Type 0 where
  pub status : ExecStatus
  pub rows : List (List Text)
  pub cmd_tuples : Text

-- libpq and the server behind it: PQconnectdb with PQstatus of the new connection, PQexec and
-- PQexecParams, which give no result where the connection is lost, PQstatus, PQerrorMessage and
-- PQfinish.
pub record Libpq (D : Type 0) : Type 0 where
  pub connect_db : Text → D → D × Bool
  pub exec : Text → D → D × Option PgResult
  pub exec_params : Text → List (Option Text) → D → D × Option PgResult
  pub is_ok : D → Bool
  pub error_message : D → Text
  pub finish : D → D

-- struct Config
pub record Config : Type 0 where
  pub host : Text
  pub port : ℤ
  pub database : Text
  pub username : Text
  pub password : Text
  pub connection_timeout : ℤ

-- The members of PostgresConnection: whether connection_ is set, in_transaction_, and whether the
-- calling thread holds mutex_; with the database.
pub record PostgresConnection (D : Type 0) : Type 0 where
  pub config : Config
  pub connection : Bool
  pub in_transaction : Bool
  pub held : Bool
  pub database : D

abbrev pub new_connection : {D : Type 0} → Config → D → PostgresConnection D
new_connection config d = record {
  config = config;
  connection = false;
  in_transaction = false;
  held = false;
  database = d;
}

-- A call returns, or waits for a mutex that its own thread holds. (The standard leaves that
-- undefined; std::mutex waits for ever.)
pub data Outcome (S A : Type 0) : Type 0 where
  returns : S → A → Outcome S A
  blocks : Outcome S A

abbrev pub Call : Type 0 → Type 0 → Type 0
Call D A = PostgresConnection D → Outcome (PostgresConnection D) A

infixl 5 ◌>>=◌ ◌>>◌
abbrev pub ◌>>=◌ : {D A B : Type 0} → Call D A → (A → Call D B) → Call D B
◌>>=◌ m f s = elim (m s) [ returns s' a ↦ f a s' | blocks ↦ blocks ]

abbrev pub ◌>>◌ : {D A B : Type 0} → Call D A → Call D B → Call D B
m >> k = m >>= λ _. k

abbrev pub give : {D A : Type 0} → A → Call D A
give a s = returns s a

abbrev pub unlock :
    {D A : Type 0} → Outcome (PostgresConnection D) A → Outcome (PostgresConnection D) A
unlock (returns s a) = returns (record s { held = false }) a
unlock blocks = blocks

-- std::lock_guard over a body: the mutex is not recursive, and is free again after the body.
unfoldable pub locked : {D A : Type 0} → Call D A → Call D A
locked body s = if s.held then blocks else unlock (body (record s { held = true }))

unfoldable pub connection_info : Config → Text
connection_info c =
    c.username
    ++ (text "@" ++ (c.host ++ (text ":" ++ (to_string c.port ++ (text "/" ++ c.database)))))

unfoldable pub connection_string : Config → Text
connection_string c =
    text "host="
    ++ (c.host
        ++ (text " port="
            ++ (to_string c.port
                ++ (text " dbname="
                    ++ (c.database
                        ++ (text " user="
                            ++ (c.username
                                ++ (text " password="
                                    ++ (c.password
                                        ++ (text " connect_timeout="
                                            ++ to_string c.connection_timeout))))))))))

unfoldable pub succeeded : ExecStatus → Bool
succeeded command_ok = true
succeeded tuples_ok = true
succeeded failed_status = false

-- The tests of a result that the three queries share: an unsuccessful one is dropped.
unfoldable pub checked : Option PgResult → Option PgResult
checked none = none
checked (some r) = if succeeded r.status then some r else none

module _ {D : Type 0} (pq : Libpq D) where
  unfoldable pub run_exec : Text → Call D (Option PgResult)
  run_exec query s =
      if s.connection
      then (let (d, r) = pq.exec query s.database in
          returns (record s { database = d }) (checked r))
      else returns s none

  unfoldable pub execute_query_with_result : Text → Call D (Option PgResult)
  execute_query_with_result query = locked (run_exec query)

  unfoldable pub execute_query : Text → Call D Bool
  execute_query query =
      locked (run_exec query >>= λ r. give (elim r [ none ↦ false | some _ ↦ true ]))

  unfoldable pub run_params : Text → List (Option Text) → Call D (Option PgResult)
  run_params query values s =
      if s.connection
      then (let (d, r) = pq.exec_params query values s.database in
          returns (record s { database = d }) (checked r))
      else returns s none

  unfoldable pub execute_parameterized_query : Text → List (Option Text) → Call D (Option PgResult)
  execute_parameterized_query query values = locked (run_params query values)

  -- The three ends of a transaction: BEGIN, COMMIT and ROLLBACK go through executeQuery.
  unfoldable pub begin_transaction : Call D Bool
  begin_transaction = locked do
    begun ← execute_query (text "BEGIN")
    λ s. returns (if begun then record s { in_transaction = true } else s) begun

  unfoldable pub end_transaction : Text → Call D Bool
  end_transaction command = locked λ s.
      if s.in_transaction
      then (execute_query command >>= λ success s'.
            returns (record s' { in_transaction = false }) success)
          s
      else returns s false

  unfoldable pub commit_transaction : Call D Bool
  commit_transaction = end_transaction (text "COMMIT")

  unfoldable pub rollback_transaction : Call D Bool
  rollback_transaction = end_transaction (text "ROLLBACK")

  unfoldable pub close_connection : Call D (Unit {0})
  close_connection s = returns (record s { connection = false; database = pq.finish s.database }) tt

  unfoldable pub disconnect : Call D (Unit {0})
  disconnect = locked λ s.
      if s.connection
      then (if s.in_transaction
          then (rollback_transaction >> close_connection) s
          else close_connection s)
      else returns s tt

  -- connect, from PQconnectdb on.
  unfoldable pub set_session : Call D Bool
  set_session = do
    execute_query (text "SET SESSION synchronous_commit = off;")
    execute_query (text "SET SESSION work_mem = '64MB';")
    execute_query (text "SET SESSION maintenance_work_mem = '256MB';")
    give true

  unfoldable pub open_connection : Call D Bool
  open_connection s =
      let (d, ok) = pq.connect_db (connection_string s.config) s.database in
      let s' = record s { connection = true; database = d } in
      if ok then set_session s' else (disconnect >> give false) s'

  unfoldable pub connect : Call D Bool
  connect =
      locked λ s. if s.connection then (disconnect >> open_connection) s else open_connection s

  unfoldable pub is_connected : Call D Bool
  is_connected = locked λ s. returns s (if s.connection then pq.is_ok s.database else false)

  unfoldable pub get_last_error : Call D Text
  get_last_error =
      locked
        λ s. returns s (if s.connection then pq.error_message s.database else text "Not connected")

  -- TransactionGuard: its constructor, which throws where the transaction does not begin (no
  -- value), commit, rollback and the destructor, over committed_.
  unfoldable pub open_guard : Call D (Option Bool)
  open_guard = begin_transaction >>= λ begun. give (if begun then some false else none)

  unfoldable pub commit_guard : Bool → Call D Bool
  commit_guard committed = if committed then give true else commit_transaction

  unfoldable pub rollback_guard : Bool → Call D Bool
  rollback_guard committed = if committed then give true else (rollback_transaction >> give true)

  unfoldable pub close_guard : Bool → Call D (Unit {0})
  close_guard committed = if committed then give tt else (rollback_transaction >> give tt)
