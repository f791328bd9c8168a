-- ===== src/Core/Due.antt =====
-- BankingSystemImpl::processDuePayments (banking_core_impl.cpp).
use cloud_storage_system.Base.{true, none, some, List, [], ◌∷◌, if◌then◌else◌}
use cloud_storage_system.Base.Int.{ℤ, ◌-ℤ◌, leb_ℤ, neg}
use cloud_storage_system.Base.Text.{Text}
use cloud_storage_system.Base.Dict.{lookup, insert}
use cloud_storage_system.Core.State.{PaymentInfo, Bank, record_event, add_outgoing}

-- The debit of a payment that the balance covers.
unfoldable pub debit : PaymentInfo → ℤ → Bank → Bank
debit info balance s = record s {
  balances = insert info.account_id (balance -ℤ info.amount) s.balances;
  events = record_event info.account_id info.due_timestamp (neg info.amount) s.events;
  outgoing = add_outgoing info.account_id info.amount s.outgoing;
}

-- `info.processed = true`, through the reference into the map.
unfoldable pub mark_processed : Text → PaymentInfo → Bank → Bank
mark_processed id info s = record s {
  payments = insert id (record info { processed = true }) s.payments;
}

-- A payment that is known and not canceled.
unfoldable pub charge : Text → PaymentInfo → Bank → Bank
charge id info s = elim (lookup info.account_id s.balances) [
  | none ↦ s
  | some balance ↦
      mark_processed id info (if leb_ℤ info.amount balance then debit info balance s else s)
]

-- The body of the inner loop.
unfoldable pub pay_one : Text → Bank → Bank
pay_one id s = elim (lookup id s.payments) [
  | none ↦ s
  | some info ↦ if info.canceled then s else charge id info s
]

-- The inner loop, over the payments of one due time.
unfoldable pub pay_all : List Text → Bank → Bank
pay_all [] s = s
pay_all (id ∷ ids) s = pay_all ids (pay_one id s)

-- The outer loop, over the map of due times: an entry is erased, then its payments are made.
unfoldable pub drain : ℤ → List (ℤ × List Text) → Bank → Bank
drain t [] s = record s { due = [] }
drain t ((d, ids) ∷ q) s =
    let rest = drain t q (pay_all ids (record s { due = q })) in
    if leb_ℤ d t then rest else record s { due = (d, ids) ∷ q }

unfoldable pub process_due : ℤ → Bank → Bank
process_due t s = drain t s.due s
