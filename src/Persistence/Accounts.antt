-- ===== src/Persistence/Accounts.antt =====
-- The account operations of BankingPersistence (database/banking_persistence.cpp).
use cloud_storage_system.Base.{Bool, true, false, Option, none, some, [], ◌∷◌, ◌++◌, if◌then◌else◌}
use cloud_storage_system.Base.Int.{ℤ}
use cloud_storage_system.Base.Text.{Text, text, to_string}
use cloud_storage_system.Base.Text.Stoi.{stoi}
use cloud_storage_system.Persistence.{Connection, cell, touched, read_first, log_system_event}
use cloud_storage_system.Persistence.Statements.{
  insert_account, insert_creation, select_active, select_balance, update_balance,
}

module _ {D : Type 0} (conn : Connection D) where
  -- createAccount, from its last statement to its first. The TransactionGuard rolls back on every
  -- way out but for a commit that succeeded.
  unfoldable pub commit_account : Text → ℤ → D → D × Bool
  commit_account account_id initial_balance d =
      let (d', committed) = conn.commit_transaction d in
      let (d'', _) =
        log_system_event conn (text "ACCOUNT_CREATED") (text "INFO")
          (text "Account created: "
            ++ (account_id ++ (text " with balance " ++ to_string initial_balance)))
          (text "persistence") [] d' in
      ((if committed then d'' else (conn.rollback_transaction d'').0), true)

  unfoldable pub insert_creation_event : Text → ℤ → D → D × Bool
  insert_creation_event account_id initial_balance d =
      let (d', result) =
        conn.query_params insert_creation (some account_id ∷ some (to_string initial_balance) ∷ [])
          d in
      elim result [
        | none ↦ ((conn.rollback_transaction d').0, false)
        | some _ ↦ commit_account account_id initial_balance d'
      ]

  unfoldable pub insert_new_account : Text → ℤ → D → D × Bool
  insert_new_account account_id initial_balance d =
      let (d', result) =
        conn.query_params insert_account (some account_id ∷ some (to_string initial_balance) ∷ [])
          d in
      elim result [
        | none ↦ ((conn.rollback_transaction d').0, false)
        | some _ ↦ insert_creation_event account_id initial_balance d'
      ]

  unfoldable pub create_account : Text → ℤ → D → D × Bool
  create_account account_id initial_balance d =
      let (d', begun) = conn.begin_transaction d in
      if begun then insert_new_account account_id initial_balance d' else (d', false)

  unfoldable pub account_exists : Text → D → D × Bool
  account_exists account_id d =
      let (d', result) = conn.query_params select_active (some account_id ∷ []) d in
      (d', elim result [ none ↦ false | some r ↦ elim r.rows [ [] ↦ false | _ ∷ _ ↦ true ] ])

  unfoldable pub get_account_balance : Text → D → D × Option ℤ
  get_account_balance account_id d =
      let (d', result) = conn.query_params select_balance (some account_id ∷ []) d in
      (d', read_first (λ row. stoi (cell 0 row)) result)

  unfoldable pub update_account_balance : Text → ℤ → D → D × Bool
  update_account_balance account_id new_balance d =
      let (d', result) =
        conn.query_params update_balance (some account_id ∷ some (to_string new_balance) ∷ []) d in
      if touched result
      then (let (d'', _) =
            log_system_event conn (text "BALANCE_UPDATED") (text "INFO")
              (text "Account "
                ++ (account_id ++ (text " balance updated to " ++ to_string new_balance)))
              (text "persistence") [] d' in
          (d'', true))
      else (d', false)
