-- ===== src/Persistent/Operations.antt =====
-- The operations of BankingSystemPersistent (banking_system_persistent.cpp), over the bank in memory
-- and the store. Logging is left out.
use cloud_storage_system.Base.{
  Bool, true, false, ◌&&◌, Option, none, some, List, [], ◌++◌, map, if◌then◌else◌, is_some, get_or,
}
use cloud_storage_system.Base.Int.{ℤ, pos, ◌+ℤ◌, ltb_ℤ}
use cloud_storage_system.Base.Text.{Text, text, to_string}
use cloud_storage_system.Base.Dict.{insert}
use cloud_storage_system.Interface.{BankingSystem}
use cloud_storage_system.Core.Spenders.{show_spender}
use cloud_storage_system.Persistent.Store.{Store}
use cloud_storage_system.Persistent.Saving.{Persistent, Config, persist_transaction}

module _ {S D : Type 0} (bank : BankingSystem S) (db : Store D) (config : Config) where
  -- CreateAccount, once the bank in memory has created the account. The answer to a failure creates
  -- another account in memory.
  unfoldable pub log_creation : Text → Persistent S D → Persistent S D × Bool
  log_creation account_id p =
      if config.audit
      then (let (d, logged) =
            db.log_system_event (text "ACCOUNT_CREATED") (text "INFO")
              (text "Account created: " ++ account_id) (text "banking_system") p.store in
          (record p { store = d }, is_some logged))
      else (p, true)

  unfoldable pub persist_creation : ℤ → Text → Persistent S D → Persistent S D × Bool
  persist_creation timestamp account_id p =
      let (d, created) = db.create_account account_id (pos 0) p.store in
      elim created [
        | none ↦ (record p { store = d }, false)
        | some ok ↦
            if ok
            then log_creation account_id
                (record p { store = d; cache = insert account_id timestamp p.cache })
            else (
              record p {
                memory =
                    (bank.create_account timestamp (account_id ++ text "_rollback") p.memory).0;
                store = d;
              },
              false,
            )
      ]

  unfoldable pub create_account : ℤ → Text → Persistent S D → Persistent S D × Bool
  create_account timestamp account_id p =
      let (m, created) = bank.create_account timestamp account_id p.memory in
      let p' = record p { memory = m } in
      if created
      then (if config.persistence then persist_creation timestamp account_id p' else (p', true))
      else (p', false)

  -- Deposit, once the bank in memory has answered `balance_after`.
  unfoldable pub persist_deposit : ℤ → Text → ℤ → ℤ → ℤ → Persistent S D → Persistent S D × Option ℤ
  persist_deposit timestamp account_id amount before after p =
      let (d, saved) =
        persist_transaction db config (text "DEPOSIT") account_id amount before after timestamp []
          p.store in
      (record p { store = d }, (if saved then some after else none))

  unfoldable pub deposit : ℤ → Text → ℤ → Persistent S D → Persistent S D × Option ℤ
  deposit timestamp account_id amount p =
      let (m, before) = bank.get_balance timestamp account_id timestamp p.memory in
      elim before [
        | none ↦ (record p { memory = m }, none)
        | some balance_before ↦
            (let (m', result) = bank.deposit timestamp account_id amount m in
              elim result [
                | none ↦ (record p { memory = m' }, none)
                | some balance_after ↦
                    persist_deposit timestamp account_id amount balance_before balance_after
                      (record p { memory = m' })
              ])
      ]

  -- The part of Transfer inside its TransactionGuard, whose destructor rolls back what commit() has
  -- not committed; a failed commit does not change the result.
  unfoldable pub transfer_id : ℤ → Text → Text → Text
  transfer_id timestamp source target =
      text "transfer_" ++ (to_string timestamp ++ (text "_" ++ (source ++ (text "_" ++ target))))

  unfoldable pub persist_both : ℤ → Text → Text → ℤ → ℤ × ℤ → ℤ × ℤ → D → D × Bool
  persist_both timestamp source target amount (s_before, s_after) (t_before, t_after) d =
      let reference = transfer_id timestamp source target in
      let (d1, sent) =
        persist_transaction db config (text "TRANSFER_SEND") source amount s_before s_after
          timestamp reference d in
      let (d2, received) =
        persist_transaction db config (text "TRANSFER_RECEIVE") target amount t_before t_after
          timestamp reference d1 in
      let (d3, committed) = db.commit_transaction d2 in
      if sent
      then (if received
          then ((if committed then d3 else db.rollback_transaction d3), true)
          else (db.rollback_transaction d2, false))
      else (db.rollback_transaction d1, false)

  unfoldable pub persist_transfer :
      ℤ → Text → Text → ℤ → ℤ × ℤ → ℤ × ℤ → Persistent S D → Persistent S D × Option ℤ
  persist_transfer timestamp source target amount sends receives p =
      if config.persistence
      then (let (d, begun) = db.begin_transaction p.store in
          let (d', saved) = persist_both timestamp source target amount sends receives d in
          if begun
          then (record p { store = d' }, (if saved then some sends.1 else none))
          else (record p { store = d }, none))
      else (p, some sends.1)

  -- Transfer, once both accounts have answered their balances.
  unfoldable pub move : ℤ → Text → Text → ℤ → ℤ → ℤ → Persistent S D → Persistent S D × Option ℤ
  move timestamp source target amount s_before t_before p =
      let (m, result) = bank.transfer timestamp source target amount p.memory in
      let (m', target_after) = bank.get_balance timestamp target timestamp m in
      elim result [
        | none ↦ (record p { memory = m }, none)
        | some s_after ↦ elim target_after [
          | none ↦ (record p { memory = m' }, none)
          | some t_after ↦
              persist_transfer timestamp source target amount (s_before, s_after)
                (t_before, t_after) (record p { memory = m' })
        ]
      ]

  unfoldable pub transfer : ℤ → Text → Text → ℤ → Persistent S D → Persistent S D × Option ℤ
  transfer timestamp source target amount p =
      let (m1, source_before) = bank.get_balance timestamp source timestamp p.memory in
      let (m2, target_before) = bank.get_balance timestamp target timestamp m1 in
      elim source_before [
        | none ↦ (record p { memory = m2 }, none)
        | some s_before ↦ elim target_before [
          | none ↦ (record p { memory = m2 }, none)
          | some t_before ↦
              move timestamp source target amount s_before t_before (record p { memory = m2 })
        ]
      ]

  -- TopSpenders: the database's answer, and the bank's where there is no database or it throws.
  unfoldable pub top_spenders : ℤ → ℤ → Persistent S D → Persistent S D × List Text
  top_spenders timestamp n p =
      let (m, spenders) = bank.top_spenders timestamp n p.memory in
      let fallback : Persistent S D × List Text = (record p { memory = m }, spenders) in
      if config.persistence
      then elim (db.get_top_spenders n p.store) [
        | none ↦ fallback
        | some rows ↦ (p, map show_spender rows)
      ]
      else fallback

  unfoldable pub schedule_payment : ℤ → Text → ℤ → ℤ → Persistent S D → Persistent S D × Option Text
  schedule_payment timestamp account_id amount delay p =
      let (m, result) = bank.schedule_payment timestamp account_id amount delay p.memory in
      let p' = record p { memory = m } in
      elim result [
        | none ↦ (p', none)
        | some payment_id ↦
            if config.persistence
            then (let (d, saved) =
                  db.save_scheduled_payment
                    (record config.new_payment_record {
                      payment_id = payment_id;
                      account_id = account_id;
                      amount = amount;
                      due_timestamp = timestamp +ℤ delay;
                      created_at = timestamp;
                    })
                    p'.store in
                (record p' { store = d }, (if get_or false saved then some payment_id else none)))
            else (p', some payment_id)
      ]

  -- What a true result of the bank in memory is answered with, once the store was told.
  abbrev told : Persistent S D → D × Option Bool → Persistent S D × Bool
  told p (d, saved) = (record p { store = d }, get_or false saved)

  unfoldable pub cancel_payment : ℤ → Text → Text → Persistent S D → Persistent S D × Bool
  cancel_payment timestamp account_id payment_id p =
      let (m, result) = bank.cancel_payment timestamp account_id payment_id p.memory in
      let p' = record p { memory = m } in
      if result
      then (if config.persistence
          then told p' (db.cancel_scheduled_payment payment_id p'.store)
          else (p', true))
      else (p', false)

  unfoldable pub merge_accounts : ℤ → Text → Text → Persistent S D → Persistent S D × Bool
  merge_accounts timestamp account_id_1 account_id_2 p =
      let (m, balance_2) = bank.get_balance timestamp account_id_2 timestamp p.memory in
      elim balance_2 [
        | none ↦ (record p { memory = m }, false)
        | some transferred ↦
            (let (m', result) = bank.merge_accounts timestamp account_id_1 account_id_2 m in
              let p' = record p { memory = m' } in
              if result
              then (if config.persistence
                  then told p' (
                      db.save_account_merge account_id_2 account_id_1 timestamp transferred
                        p'.store)
                  else (p', true))
              else (p', false))
      ]

  -- GetBalance: for a time in the past the database's answer, where it has one.
  unfoldable pub get_balance : ℤ → Text → ℤ → Persistent S D → Persistent S D × Option ℤ
  get_balance timestamp account_id time_at p =
      let (m, balance) = bank.get_balance timestamp account_id time_at p.memory in
      let fallback : Persistent S D × Option ℤ = (record p { memory = m }, balance) in
      if config.persistence && ltb_ℤ time_at timestamp
      then elim (db.get_balance_at_time account_id time_at p.store) [
        | some (some past) ↦ (p, some past)
        | some none ↦ fallback
        | none ↦ fallback
      ]
      else fallback

  -- loadFromDatabase: only the cache of creation times is filled.
  unfoldable pub load_from_database : Persistent S D → Persistent S D × Bool
  load_from_database p =
      if config.persistence
      then elim (db.get_account_creation_times p.store) [
        | none ↦ (p, false)
        | some times ↦ (record p { cache = times }, true)
      ]
      else (p, true)

  -- The persistent bank as an implementation of the interface.
  abbrev pub persistent : BankingSystem (Persistent S D)
  persistent = record {
    create_account = create_account;
    deposit = deposit;
    transfer = transfer;
    top_spenders = top_spenders;
    schedule_payment = schedule_payment;
    cancel_payment = cancel_payment;
    merge_accounts = merge_accounts;
    get_balance = get_balance;
  }
