-- ===== src/Persistent/Tests.antt =====
-- A store that counts what it is told, and the theorems of this component applied to it.
use cloud_storage_system.Base.{ℕ, suc, Bool, true, false, none, some, []}
use cloud_storage_system.Base.Int.{pos}
use cloud_storage_system.Base.Text.{Text, text}
use cloud_storage_system.Core.State.{Bank, empty}
use cloud_storage_system.Persistent.Store.{Store}
use cloud_storage_system.Persistent.Saving.{Persistent, Config}

-- It answers every write with `ok`.
abbrev counting : Bool → Store ℕ
counting ok = record {
  create_account = λ a v d. (suc d, some ok);
  save_transaction = λ r d. (suc d, some ok);
  save_balance_event = λ a e d. (suc d, some ok);
  save_scheduled_payment = λ r d. (suc d, some ok);
  cancel_scheduled_payment = λ id d. (suc d, some ok);
  save_account_merge = λ b a t v d. (suc d, some ok);
  get_top_spenders = λ n d. some [];
  get_balance_at_time = λ a t d. some none;
  get_account_creation_times = λ d. some [];
  log_system_event = λ k s m c d. (suc d, some ok);
  begin_transaction = λ d. (d, true);
  commit_transaction = λ d. (d, true);
  rollback_transaction = λ d. d;
}

abbrev persisting : Config
persisting = record {
  persistence = true;
  audit = true;
  new_payment_record = record {
    payment_id = [];
    account_id = [];
    amount = pos 0;
    due_timestamp = pos 0;
    created_at = pos 0;
    is_canceled = false;
    is_processed = false;
    processing_timestamp = pos 0;
    creation_order = pos 0;
  };
}

abbrev acc : Text
acc = text "acc1"

abbrev fresh : Persistent Bank ℕ
fresh = record { memory = empty; store = 0; cache = [] }
