-- ===== src/Persistence/Transactions.antt =====
-- The transaction records and fraud alerts of BankingPersistence (database/banking_persistence.cpp).
use cloud_storage_system.Base.{Bool, Option, some, List, [], ◌∷◌, ◌++◌, ◌>>=◌}
use cloud_storage_system.Base.Int.{ℤ}
use cloud_storage_system.Base.Text.{Text, text, to_string}
use cloud_storage_system.Base.Text.Stoi.{stoi}
use cloud_storage_system.Base.Dict.{Dict}
use cloud_storage_system.Persistent.Store.{TransactionRecord}
use cloud_storage_system.Persistence.{Connection, cell, nullable, accepted, read_result, read_first}
use cloud_storage_system.Persistence.Statements.{
  insert_transaction, select_transactions, select_outgoing, insert_alert,
}

-- A text in quotes, with nothing escaped.
abbrev pub quoted : Text → Text
quoted t = b'"' ∷ (t ++ b'"' ∷ [])

-- What follows the first entry.
unfoldable pub more_metadata : Dict Text → Text
more_metadata [] = []
more_metadata ((key, value) ∷ rest) =
    b',' ∷ (quoted key ++ (b':' ∷ (quoted value ++ more_metadata rest)))

unfoldable pub metadata_text : Dict Text → Text
metadata_text [] = text "{}"
metadata_text ((key, value) ∷ rest) =
    b'{' ∷ (quoted key ++ (b':' ∷ (quoted value ++ (more_metadata rest ++ b'}' ∷ []))))

unfoldable pub more_factors : List Text → Text
more_factors [] = []
more_factors (factor ∷ rest) = b',' ∷ (quoted factor ++ more_factors rest)

unfoldable pub factors_text : List Text → Text
factors_text [] = text "{}"
factors_text (factor ∷ rest) = b'{' ∷ (quoted factor ++ (more_factors rest ++ b'}' ∷ []))

-- A row of select_transactions; the metadata are not read.
unfoldable pub transaction_of_row : List Text → Option TransactionRecord
transaction_of_row row = do
  amount ← stoi (cell 3 row)
  balance_before ← stoi (cell 4 row)
  balance_after ← stoi (cell 5 row)
  timestamp ← stoi (cell 6 row)
  some (record {
    id = cell 0 row;
    account_id = cell 1 row;
    transaction_type = cell 2 row;
    amount = amount;
    balance_before = balance_before;
    balance_after = balance_after;
    timestamp = timestamp;
    reference_id = cell 7 row;
    description = cell 8 row;
    metadata = [];
  })

module _ {D : Type 0} (conn : Connection D) where
  unfoldable pub save_transaction : TransactionRecord → D → D × Bool
  save_transaction t d = accepted (
      conn.query_params insert_transaction
        (nullable t.id
          ∷ some t.account_id
          ∷ some t.transaction_type
          ∷ some (to_string t.amount)
          ∷ some (to_string t.balance_before)
          ∷ some (to_string t.balance_after)
          ∷ some (to_string t.timestamp)
          ∷ nullable t.reference_id
          ∷ nullable t.description
          ∷ some (metadata_text t.metadata)
          ∷ [])
        d)

  unfoldable pub get_account_transactions : Text → ℤ → ℤ → D → D × List TransactionRecord
  get_account_transactions account_id limit offset d =
      let (d', result) =
        conn.query_params select_transactions
          (some account_id ∷ some (to_string limit) ∷ some (to_string offset) ∷ []) d in
      (d', read_result transaction_of_row result)

  unfoldable pub get_account_outgoing_total : Text → D → D × Option ℤ
  get_account_outgoing_total account_id d =
      let (d', result) = conn.query_params select_outgoing (some account_id ∷ []) d in
      (d', read_first (λ row. stoi (cell 0 row)) result)

  -- The risk score is given as std::to_string prints it.
  unfoldable pub save_fraud_alert : Text → Text → Text → List Text → Text → ℤ → D → D × Bool
  save_fraud_alert account_id transaction_id risk_score risk_factors recommendation confidence_level
        d =
      accepted (
        conn.query_params insert_alert
          (some account_id
            ∷ nullable transaction_id
            ∷ some risk_score
            ∷ some (factors_text risk_factors)
            ∷ some recommendation
            ∷ some (to_string confidence_level)
            ∷ [])
          d)
