-- ===== src/Persistence.antt =====
-- BankingPersistence (database/banking_persistence.cpp) over a connection: what its operations have in
-- common, and the system events.
pub mod Statements
pub mod Accounts
pub mod Transactions
pub mod Payments
pub mod Balances
pub mod Schema
use cloud_storage_system.Base.{
  ℕ, zero, suc, Bool, true, false, not, Option, none, some, List, [], ◌∷◌, ◌++◌, if◌then◌else◌,
  get_or, is_some,
}
use cloud_storage_system.Base.Int.{ℤ}
use cloud_storage_system.Base.Text.{Text, text, text_eq, to_string}
use cloud_storage_system.Base.Text.Stoi.{stoi}
use cloud_storage_system.Postgres.{PgResult}
use cloud_storage_system.Persistence.Statements.{insert_system_event}

-- The operations of PostgresConnection as its users see them where they return.
pub record Connection (D : Type 0) : Type 0 where
  pub query : Text → D → D × Option PgResult
  pub query_params : Text → List (Option Text) → D → D × Option PgResult
  pub command : Text → D → D × Bool
  pub begin_transaction : D → D × Bool
  pub commit_transaction : D → D × Bool
  pub rollback_transaction : D → D × Bool

-- PQgetvalue; a row has the columns of its statement.
abbrev pub cell : ℕ → List Text → Text
cell i [] = []
cell zero (x ∷ xs) = x
cell (suc i) (x ∷ xs) = cell i xs

abbrev pub flag_cell : ℕ → List Text → Bool
flag_cell i row = text_eq (cell i row) (text "t")

-- `s.empty() ? nullptr : s.c_str()`
abbrev pub nullable : Text → Option Text
nullable [] = none
nullable (c ∷ cs) = some (c ∷ cs)

-- The rest of an operation that only wants its statement carried out.
abbrev pub accepted : {D : Type 0} → D × Option PgResult → D × Bool
accepted (d, r) = (d, is_some r)

-- `std::string(PQcmdTuples(result)) != "0"`
abbrev pub touched : Option PgResult → Bool
touched none = false
touched (some r) = not (text_eq r.cmd_tuples (text "0"))

-- The loop over the rows: one that does not convert throws, and those before it are kept.
unfoldable pub read_rows : {A : Type 0} → (List Text → Option A) → List (List Text) → List A
read_rows f [] = []
read_rows f (row ∷ rows) = elim (f row) [ none ↦ [] | some a ↦ a ∷ read_rows f rows ]

unfoldable pub read_result : {A : Type 0} → (List Text → Option A) → Option PgResult → List A
read_result f none = []
read_result f (some r) = read_rows f r.rows

-- The first row, where there is one and it converts.
unfoldable pub read_first : {A : Type 0} → (List Text → Option A) → Option PgResult → Option A
read_first f none = none
read_first f (some r) = elim r.rows [ [] ↦ none | row ∷ _ ↦ f row ]

module _ {D : Type 0} (conn : Connection D) where
  unfoldable pub log_system_event : Text → Text → Text → Text → Text → D → D × Bool
  log_system_event event_type severity message component correlation_id d = accepted (
      conn.query_params insert_system_event
        (some event_type
          ∷ some severity
          ∷ some message
          ∷ nullable component
          ∷ nullable correlation_id
          ∷ [])
        d)
