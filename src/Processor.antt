-- ===== src/Processor.antt =====
-- TransactionProcessor (concurrent/transaction_processor.cpp): the execution of one transaction, and
-- a worker that takes transactions from the queue.
pub mod Calls
pub mod Refinement
pub mod Worker
mod Tests
use cloud_storage_system.Base.{
  ℕ, zero, suc, Bool, true, false, Option, none, some, List, [], ◌∷◌, if◌then◌else◌, ◌>>=◌,
}
use cloud_storage_system.Base.Int.{ℤ, pos}
use cloud_storage_system.Base.Text.{Text, text}
use cloud_storage_system.Interface.{BankingSystem}
use cloud_storage_system.Protocol.Json.{Json, at, get_int, get_string, Codec}
use cloud_storage_system.Protocol.Messages.{
  MessageType, create_account_message, deposit_message, transfer_message, get_balance_message,
  top_spenders_message, schedule_payment_message, cancel_payment_message, merge_accounts_message,
  error_status, invalid_request_status, account_not_found_status, insufficient_funds_status,
  Request, Response,
}
use cloud_storage_system.Protocol.Responses.{
  error, account_created, deposit_result, transfer_result, balance_result, top_spenders_result,
  payment_scheduled, payment_cancelled, accounts_merged,
}
use cloud_storage_system.Protocol.Serial.{deserialize_request, serialize_response}

-- request.payload[key], as an argument of an operation: an exception comes before the call.
abbrev pub string_at : Text → Request → Option Text
string_at key request = at key request.payload >>= get_string

abbrev pub int_at : Text → Request → Option ℤ
int_at key request = at key request.payload >>= get_int

module _ {S : Type 0} (bank : BankingSystem S) where
  -- The cases of the switch on request.type. No result stands for an exception.
  unfoldable pub run_create_account : Request → S → Option (S × Response)
  run_create_account request s = do
    account_id ← string_at (text "account_id") request
    let (s', success) = bank.create_account request.timestamp account_id s
    some (
      s',
      (if success
          then account_created account_id request.timestamp
          else error error_status (text "Account creation failed") request.timestamp),
    )

  unfoldable pub run_deposit : Request → S → Option (S × Response)
  run_deposit request s = do
    account_id ← string_at (text "account_id") request
    amount ← int_at (text "amount") request
    let (s', result) = bank.deposit request.timestamp account_id amount s
    some (
      s',
      elim result [
        | some balance ↦ deposit_result balance request.timestamp
        | none ↦ error account_not_found_status (text "Account not found") request.timestamp
      ],
    )

  unfoldable pub run_transfer : Request → S → Option (S × Response)
  run_transfer request s = do
    source_account ← string_at (text "source_account") request
    target_account ← string_at (text "target_account") request
    amount ← int_at (text "amount") request
    let (s', result) = bank.transfer request.timestamp source_account target_account amount s
    some (
      s',
      elim result [
        | some balance ↦ transfer_result balance request.timestamp
        | none ↦ error insufficient_funds_status (text "Transfer failed") request.timestamp
      ],
    )

  unfoldable pub run_get_balance : Request → S → Option (S × Response)
  run_get_balance request s = do
    account_id ← string_at (text "account_id") request
    time_at ← int_at (text "time_at") request
    let (s', result) = bank.get_balance request.timestamp account_id time_at s
    some (
      s',
      elim result [
        | some balance ↦ balance_result balance request.timestamp
        | none ↦ error account_not_found_status (text "Account not found") request.timestamp
      ],
    )

  unfoldable pub run_top_spenders : Request → S → Option (S × Response)
  run_top_spenders request s = do
    n ← int_at (text "n") request
    let (s', spenders) = bank.top_spenders request.timestamp n s
    some (s', top_spenders_result spenders request.timestamp)

  unfoldable pub run_schedule_payment : Request → S → Option (S × Response)
  run_schedule_payment request s = do
    account_id ← string_at (text "account_id") request
    amount ← int_at (text "amount") request
    delay ← int_at (text "delay") request
    let (s', payment_id) = bank.schedule_payment request.timestamp account_id amount delay s
    some (
      s',
      elim payment_id [
        | some id ↦ payment_scheduled id request.timestamp
        | none ↦ error account_not_found_status (text "Payment scheduling failed") request.timestamp
      ],
    )

  unfoldable pub run_cancel_payment : Request → S → Option (S × Response)
  run_cancel_payment request s = do
    account_id ← string_at (text "account_id") request
    payment_id ← string_at (text "payment_id") request
    let (s', success) = bank.cancel_payment request.timestamp account_id payment_id s
    some (
      s',
      (if success
          then payment_cancelled request.timestamp
          else error error_status (text "Payment cancellation failed") request.timestamp),
    )

  unfoldable pub run_merge_accounts : Request → S → Option (S × Response)
  run_merge_accounts request s = do
    account_id_1 ← string_at (text "account_id_1") request
    account_id_2 ← string_at (text "account_id_2") request
    let (s', success) = bank.merge_accounts request.timestamp account_id_1 account_id_2 s
    some (
      s',
      (if success
          then accounts_merged request.timestamp
          else error error_status (text "Account merge failed") request.timestamp),
    )

  unfoldable pub dispatch : MessageType → Request → S → Option (S × Response)
  dispatch create_account_message request s = run_create_account request s
  dispatch deposit_message request s = run_deposit request s
  dispatch transfer_message request s = run_transfer request s
  dispatch get_balance_message request s = run_get_balance request s
  dispatch top_spenders_message request s = run_top_spenders request s
  dispatch schedule_payment_message request s = run_schedule_payment request s
  dispatch cancel_payment_message request s = run_cancel_payment request s
  dispatch merge_accounts_message request s = run_merge_accounts request s
  dispatch _ request s =
      some (s, error invalid_request_status (text "Unsupported operation") request.timestamp)

  -- processTransaction, with the text that it hands to the callback.
  unfoldable pub process_transaction : Codec → Text → S → S × Text
  process_transaction c transaction_json s =
      elim (deserialize_request c transaction_json >>= λ request. dispatch request.type request s) [
        | some (s', response) ↦ (s', serialize_response c response)
        | none ↦ (s, serialize_response c (error error_status (text "Processing error") (pos 0)))
      ]

  -- workerThread, alone on a queue that nothing is added to, while running_ holds: it ends at an
  -- empty transaction, which it takes, or waits at the end of the queue.
  unfoldable pub work : Codec → List Text → S → S × List Text × ℕ
  work c [] s = (s, [], 0)
  work c ([] ∷ queue) s = (s, [], 0)
  work c ((b ∷ bs) ∷ queue) s =
      let (s', response) = process_transaction c (b ∷ bs) s in
      let (s'', responses, processed) = work c queue s' in
      (s'', response ∷ responses, suc processed)
