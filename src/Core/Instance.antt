-- ===== src/Core/Instance.antt =====
-- BankingSystemImpl as an implementation of the interface BankingSystem.
use cloud_storage_system.Base.{Option}
use cloud_storage_system.Base.Int.{ℤ}
use cloud_storage_system.Base.Text.{Text}
use cloud_storage_system.Interface.{BankingSystem}
use cloud_storage_system.Core.State.{Bank}
use cloud_storage_system.Core.Due.{process_due}
use cloud_storage_system.Core.Operations.{
  create_account, deposit, transfer, schedule_payment, cancel_payment, merge_accounts, balance_at,
}
use cloud_storage_system.Core.Spenders.{top_spenders}

-- GetBalance, where rootAtTime returns; its result is not used.
unfoldable pub query_balance : ℤ → Text → ℤ → Bank → Bank × Option ℤ
query_balance t a time_at s = let s' = process_due t s in (s', balance_at a time_at s')

abbrev pub in_memory : BankingSystem Bank
in_memory = record {
  create_account = create_account;
  deposit = deposit;
  transfer = transfer;
  top_spenders = top_spenders;
  schedule_payment = schedule_payment;
  cancel_payment = cancel_payment;
  merge_accounts = merge_accounts;
  get_balance = query_balance;
}
