-- ===== src/Core/Tests.antt =====
-- Runs of the bank on small inputs, and the theorems at inputs that meet their hypotheses.
use mathlib.Core.List.Perm
use cloud_storage_system.Base.{◌≡◌, refl, true, false, some, none, List, [], ◌∷◌, arith, is_some}
use cloud_storage_system.Base.Int.{pos, negsuc, ◌+ℤ◌, ◌-ℤ◌, ◌≤ℤ◌, ◌<ℤ◌}
use cloud_storage_system.Base.Text.{Text, text, text_eq, text_lt, decimal, to_string}
use cloud_storage_system.Base.Dict.{lookup, insert, erase}
use cloud_storage_system.Core.State.{PaymentInfo, Bank, empty, record_event, add_outgoing, push_due}
use cloud_storage_system.Core.Due.{
  process_due, drain, pay_all, pay_one, charge, debit, mark_processed,
}
use cloud_storage_system.Core.Operations.{
  create_account, deposit, transfer, schedule_payment, cancel_payment, merge_accounts, get_balance,
  balance_at, payment_id, new_payment, create_account_now, deposit_now, transfer_now,
  schedule_payment_now, cancel_payment_now, merge_accounts_now, open_account, credit, move_funds,
  enlist, mark_canceled, absorb, reassign, reassign_one,
}
use cloud_storage_system.Core.Runs.{
  merges, Operation, creates, deposits, transfers, schedules, queries, step, run,
}
use cloud_storage_system.Base.Text.{text_eq_iff}
use cloud_storage_system.Core.History.{funds, history, run-IsReconciled}
use cloud_storage_system.Core.Queries.{balance_at_current}
use cloud_storage_system.Core.Totals.{total, turnover, process_due-turnover}
use cloud_storage_system.Core.Conservation.{cash_in, step-total}
use cloud_storage_system.Core.Payments.Pending.{run-ArePendingLive}
use cloud_storage_system.Core.Payments.Queue.{InQueue}
use cloud_storage_system.Base.{arith}
use cloud_storage_system.Core.Payments.Settling.{process_due-settles}
use cloud_storage_system.Core.Payments.Fresh.{schedule_payment-fresh}
use cloud_storage_system.Core.Payments.Cancel.{IsVoid, cancel_payment_final}
use cloud_storage_system.Core.Solvency.{run_bounds, transfer_negative}
use cloud_storage_system.Core.Merges.{get_balance_returns}
use cloud_storage_system.Core.Spenders.{
  ranks, place, sort, collect, ranking, show_spender, top_spenders,
}
use cloud_storage_system.Base.{false}
use cloud_storage_system.Core.Spenders.Order.{ranking-perm}

abbrev acc1 : Text
acc1 = text "acc1"

abbrev acc2 : Text
acc2 = text "acc2"

-- Every operation, unfolded.
unfoldable run_all : List Operation → Bank
unfolding run step create_account deposit transfer schedule_payment cancel_payment merge_accounts
    process_due drain pay_all pay_one charge debit mark_processed create_account_now deposit_now
    transfer_now schedule_payment_now cancel_payment_now merge_accounts_now open_account credit
    move_funds enlist mark_canceled absorb reassign reassign_one record_event add_outgoing push_due
    lookup insert erase text_eq payment_id decimal ◌+ℤ◌ ◌-ℤ◌
run_all ops = run ops empty

-- The payment of 50 is made before the transfer; the query at 20 comes after all.
abbrev busy : List Operation
busy =
    creates (pos 1) acc1
    ∷ creates (pos 2) acc2
    ∷ deposits (pos 3) acc1 (pos 500)
    ∷ schedules (pos 5) acc1 (pos 50) (pos 5)
    ∷ schedules (pos 6) acc2 (pos 7) (pos 40)
    ∷ transfers (pos 12) acc1 acc2 (pos 100)
    ∷ []

-- The second account is merged into the first one, and its payment of 7 is due after that.
abbrev united : List Operation
united =
    creates (pos 1) acc1
    ∷ creates (pos 2) acc2
    ∷ deposits (pos 3) acc1 (pos 500)
    ∷ schedules (pos 6) acc2 (pos 7) (pos 40)
    ∷ merges (pos 20) acc1 acc2
    ∷ []

busy_balances : (run_all busy).balances ≡ (acc1, pos 350) ∷ (acc2, pos 100) ∷ []
unfolding run_all
busy_balances = refl

busy_events :
    lookup acc1 (run_all busy).events
    ≡ some ((pos 1, pos 0) ∷ (pos 3, pos 500) ∷ (pos 10, negsuc 49) ∷ (pos 12, negsuc 99) ∷ [])
unfolding run_all
busy_events = refl

busy_outgoing : (run_all busy).outgoing ≡ (acc1, pos 150) ∷ []
unfolding run_all
busy_outgoing = refl

run-IsReconciled_example :
    funds acc1 (run busy empty).balances ≡ history acc1 (run busy empty).events
run-IsReconciled_example = run-IsReconciled busy acc1

balance_at_current_example : balance_at acc1 (pos 20) (run busy empty) ≡ some (pos 350)
unfolding run_all
balance_at_current_example = balance_at_current busy acc1 (pos 350) (pos 20) refl (omega arith)

step-total_example :
    total (step (transfers (pos 60) acc1 acc2 (pos 5)) (run busy empty)).balances
    ≡ total (process_due (pos 60) (run busy empty)).balances
      +ℤ cash_in (transfers (pos 60) acc1 acc2 (pos 5)) (process_due (pos 60) (run busy empty))
step-total_example = step-total busy (transfers (pos 60) acc1 acc2 (pos 5))

process_due-turnover_example :
    turnover (process_due (pos 60) (run busy empty)) ≡ turnover (run busy empty)
process_due-turnover_example = process_due-turnover (pos 60) (run busy empty)

-- The second payment, which is still to be made at 20.
abbrev second : PaymentInfo
second = record {
  account_id = acc2;
  amount = pos 7;
  due_timestamp = pos 46;
  canceled = false;
  processed = false;
  creation_order = 2;
}

process_due-settles_example :
    (pos 20 <ℤ pos 46) × InQueue (pos 46) (payment_id 2) (process_due (pos 20) (run busy empty)).due
unfolding run_all
process_due-settles_example =
    process_due-settles busy (pos 20) (payment_id 2) second
      (record { found = refl; pending = (refl, refl) })

run-ArePendingLive_example : is_some (lookup acc2 (run busy empty).balances) ≡ true
unfolding run_all
run-ArePendingLive_example =
    run-ArePendingLive busy (payment_id 2) second (record { found = refl; pending = (refl, refl) })

schedule_payment-fresh_example :
    let s = process_due (pos 20) (run busy empty) in
    (lookup (payment_id 3) s.payments ≡ none)
    × (lookup
          (payment_id 3)
          (schedule_payment (pos 20) acc1 (pos 9) (pos 1) (run busy empty)).0.payments
        ≡ some (new_payment (pos 20) acc1 (pos 9) (pos 1) s.next_ordinal))
unfolding run_all
schedule_payment-fresh_example =
    schedule_payment-fresh busy (pos 20) acc1 (pos 9) (pos 1) (payment_id 3) refl

cancel_payment_final_example :
    IsVoid
      (payment_id 2)
      (run (queries (pos 90) ∷ []) (cancel_payment (pos 20) acc2 (payment_id 2) (run busy empty)).0)
unfolding run_all
cancel_payment_final_example =
    cancel_payment_final (pos 20) acc2 (payment_id 2) (run busy empty) (queries (pos 90) ∷ []) refl

run_bounds_example : (pos 0 ≤ℤ pos 350) × (pos 350 ≤ℤ total (run busy empty).balances)
unfolding run_all
run_bounds_example = run_bounds busy acc1 (pos 350) (omega arith) refl

-- A transfer of -400 from an account with 350 takes 400 from one with 100.
transfer_negative_example :
    ((transfer (pos 20) acc1 acc2 (negsuc 399) (run busy empty)).1 ≡ some (pos 350 -ℤ negsuc 399))
    × (lookup acc2 (transfer (pos 20) acc1 acc2 (negsuc 399) (run busy empty)).0.balances
        ≡ some (pos 100 +ℤ negsuc 399))
    × (pos 350 <ℤ pos 350 -ℤ negsuc 399)
    × (pos 100 +ℤ negsuc 399 <ℤ pos 100)
unfolding run_all
transfer_negative_example =
    transfer_negative (pos 20) acc1 acc2 (negsuc 399) (pos 350) (pos 100) (run busy empty)
      (λ e. ground (arith, text_eq_iff acc1 acc2, e)) refl refl (omega arith) (omega arith)

get_balance_returns_example :
    let s = run united empty in
    get_balance 2 (pos 50) acc2 (pos 45) s
    ≡ some (process_due (pos 50) s, balance_at acc2 (pos 45) (process_due (pos 50) s))
unfolding run_all
get_balance_returns_example = get_balance_returns united (pos 50) acc2 (pos 45) 2 (omega arith)

ranking-perm_example :
    ranking (record (run_all busy) { balances = (acc2, pos 100) ∷ (acc1, pos 350) ∷ [] })
    ≡ ranking (run_all busy)
unfolding run_all
ranking-perm_example =
    ranking-perm (run_all busy) ((acc2, pos 100) ∷ (acc1, pos 350) ∷ [])
      (Perm.swap (acc1, pos 350) (acc2, pos 100) [])

top_of_busy :
    (top_spenders (pos 20) (pos 5) (run_all busy)).1 ≡ text "acc1(150)" ∷ text "acc2(0)" ∷ []
unfolding run_all ranking sort place collect ranks top_spenders show_spender to_string text_lt
top_of_busy = refl
