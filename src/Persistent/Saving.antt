-- ===== src/Persistent/Saving.antt =====
-- The state of BankingSystemPersistent and persistTransaction (banking_system_persistent.cpp).
use cloud_storage_system.Base.{Bool, true, false, none, some, [], ◌++◌, if◌then◌else◌, is_some}
use cloud_storage_system.Base.Int.{ℤ, ◌-ℤ◌}
use cloud_storage_system.Base.Text.{Text, text}
use cloud_storage_system.Base.Dict.{Dict}
use cloud_storage_system.Persistent.Store.{TransactionRecord, ScheduledPaymentRecord, Store}

-- The state: the bank in memory, the database, and account_creation_cache_.
pub record Persistent (S D : Type 0) : Type 0 where
  pub memory : S
  pub store : D
  pub cache : Dict ℤ

-- The configuration: whether persistence_ is set, enable_audit_logging, and what the members of a
-- ScheduledPaymentRecord hold that its default constructor leaves uninitialised.
pub record Config : Type 0 where
  pub persistence : Bool
  pub audit : Bool
  pub new_payment_record : ScheduledPaymentRecord

module _ {D : Type 0} (db : Store D) (config : Config) where
  -- persistTransaction; an exception counts as a failure, a balance event that is not saved does not.
  unfoldable pub save_event : Text → Text → ℤ → ℤ → ℤ → D → D × Bool
  save_event kind account_id before after timestamp d =
      let (d', saved) =
        db.save_balance_event account_id
          (record {
            timestamp = timestamp;
            balance_delta = after -ℤ before;
            event_type = kind ++ text "_EVENT";
          })
          d in
      (d', is_some saved)

  abbrev pub transaction_record : Text → Text → ℤ → ℤ → ℤ → ℤ → Text → TransactionRecord
  transaction_record kind account_id amount before after timestamp reference_id = record {
    id = [];
    account_id = account_id;
    transaction_type = kind;
    amount = amount;
    balance_before = before;
    balance_after = after;
    timestamp = timestamp;
    reference_id = reference_id;
    description = [];
    metadata = [];
  }

  unfoldable pub persist_transaction : Text → Text → ℤ → ℤ → ℤ → ℤ → Text → D → D × Bool
  persist_transaction kind account_id amount before after timestamp reference_id d =
      if config.persistence
      then (let (d', saved) =
            db.save_transaction
              (transaction_record kind account_id amount before after timestamp reference_id) d in
          elim saved [
            | none ↦ (d', false)
            | some ok ↦
                if ok then save_event kind account_id before after timestamp d' else (d', false)
          ])
      else (d, true)
