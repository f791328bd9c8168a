-- ===== src/Persistence/Payments.antt =====
-- The scheduled payments of BankingPersistence (database/banking_persistence.cpp).
use cloud_storage_system.Base.{Bool, false, Option, some, List, [], ◌∷◌, if◌then◌else◌, ◌>>=◌}
use cloud_storage_system.Base.Int.{ℤ, pos}
use cloud_storage_system.Base.Text.{Text, to_string}
use cloud_storage_system.Base.Text.Stoi.{stoi}
use cloud_storage_system.Persistent.Store.{ScheduledPaymentRecord}
use cloud_storage_system.Persistence.{
  Connection, cell, flag_cell, accepted, touched, read_result, read_first,
}
use cloud_storage_system.Persistence.Statements.{
  insert_payment, select_payment, set_processed, set_canceled, select_due,
}

-- A row of select_payment.
unfoldable pub payment_of_row : List Text → Option ScheduledPaymentRecord
payment_of_row row = do
  amount ← stoi (cell 2 row)
  due_timestamp ← stoi (cell 3 row)
  created_at ← stoi (cell 4 row)
  processing_timestamp ← stoi (cell 7 row)
  creation_order ← stoi (cell 8 row)
  some (record {
    payment_id = cell 0 row;
    account_id = cell 1 row;
    amount = amount;
    due_timestamp = due_timestamp;
    created_at = created_at;
    is_canceled = flag_cell 5 row;
    is_processed = flag_cell 6 row;
    processing_timestamp = processing_timestamp;
    creation_order = creation_order;
  })

-- A row of select_due, into a new record, whose processing_timestamp stays as it was.
unfoldable pub due_payment_of_row : ℤ → List Text → Option ScheduledPaymentRecord
due_payment_of_row uninitialised row = do
  amount ← stoi (cell 2 row)
  due_timestamp ← stoi (cell 3 row)
  created_at ← stoi (cell 4 row)
  creation_order ← stoi (cell 7 row)
  some (record {
    payment_id = cell 0 row;
    account_id = cell 1 row;
    amount = amount;
    due_timestamp = due_timestamp;
    created_at = created_at;
    is_canceled = flag_cell 5 row;
    is_processed = flag_cell 6 row;
    processing_timestamp = uninitialised;
    creation_order = creation_order;
  })

module _ {D : Type 0} (conn : Connection D) where
  unfoldable pub save_scheduled_payment : ScheduledPaymentRecord → D → D × Bool
  save_scheduled_payment payment d = accepted (
      conn.query_params insert_payment
        (some payment.payment_id
          ∷ some payment.account_id
          ∷ some (to_string payment.amount)
          ∷ some (to_string payment.due_timestamp)
          ∷ some (to_string payment.creation_order)
          ∷ [])
        d)

  unfoldable pub get_scheduled_payment : Text → D → D × Option ScheduledPaymentRecord
  get_scheduled_payment payment_id d =
      let (d', result) = conn.query_params select_payment (some payment_id ∷ []) d in
      (d', read_first payment_of_row result)

  unfoldable pub update_scheduled_payment : Text → Bool → ℤ → D → D × Bool
  update_scheduled_payment payment_id is_processed processing_timestamp d =
      let (d', result) =
        (if is_processed
          then conn.query_params set_processed
              (some payment_id ∷ some (to_string processing_timestamp) ∷ []) d
          else conn.query_params set_canceled (some payment_id ∷ []) d) in
      (d', touched result)

  unfoldable pub get_due_payments : ℤ → ℤ → D → D × List ScheduledPaymentRecord
  get_due_payments uninitialised current_timestamp d =
      let (d', result) = conn.query_params select_due (some (to_string current_timestamp) ∷ []) d in
      (d', read_result (due_payment_of_row uninitialised) result)

  unfoldable pub cancel_scheduled_payment : Text → D → D × Bool
  cancel_scheduled_payment payment_id = update_scheduled_payment payment_id false (pos 0)
