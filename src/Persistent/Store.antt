-- ===== src/Persistent/Store.antt =====
-- The class BankingPersistence (include/database/banking_persistence.hpp) as the persistent bank uses
-- it: a record of operations over the contents of the database. Its implementation sends SQL.
use cloud_storage_system.Base.{Bool, Option, List}
use cloud_storage_system.Base.Int.{ℤ}
use cloud_storage_system.Base.Text.{Text}
use cloud_storage_system.Base.Dict.{Dict}

-- struct TransactionRecord
pub record TransactionRecord : Type 0 where
  pub id : Text
  pub account_id : Text
  pub transaction_type : Text
  pub amount : ℤ
  pub balance_before : ℤ
  pub balance_after : ℤ
  pub timestamp : ℤ
  pub reference_id : Text
  pub description : Text
  pub metadata : Dict Text

-- struct ScheduledPaymentRecord
pub record ScheduledPaymentRecord : Type 0 where
  pub payment_id : Text
  pub account_id : Text
  pub amount : ℤ
  pub due_timestamp : ℤ
  pub created_at : ℤ
  pub is_canceled : Bool
  pub is_processed : Bool
  pub processing_timestamp : ℤ
  pub creation_order : ℤ

-- struct BalanceEvent
pub record BalanceEvent : Type 0 where
  pub timestamp : ℤ
  pub balance_delta : ℤ
  pub event_type : Text

-- An operation has no result where it throws.
pub record Store (D : Type 0) : Type 0 where
  pub create_account : Text → ℤ → D → D × Option Bool
  pub save_transaction : TransactionRecord → D → D × Option Bool
  pub save_balance_event : Text → BalanceEvent → D → D × Option Bool
  pub save_scheduled_payment : ScheduledPaymentRecord → D → D × Option Bool
  pub cancel_scheduled_payment : Text → D → D × Option Bool
  pub save_account_merge : Text → Text → ℤ → ℤ → D → D × Option Bool
  pub get_top_spenders : ℤ → D → Option (List (Text × ℤ))
  pub get_balance_at_time : Text → ℤ → D → Option (Option ℤ)
  pub get_account_creation_times : D → Option (Dict ℤ)
  pub log_system_event : Text → Text → Text → Text → D → D × Option Bool
  pub begin_transaction : D → D × Bool
  pub commit_transaction : D → D × Bool
  pub rollback_transaction : D → D
