-- ===== src/Core/Operations.antt =====
-- The public operations of BankingSystemImpl (banking_core_impl.cpp). Each begins with
-- processDuePayments; what follows is the function whose name ends in `_now`.
use cloud_storage_system.Base.{
  ℕ, zero, suc, ◌+◌, Bool, true, false, ◌||◌, not, Option, none, some, List, [], ◌∷◌, ◌++◌,
  if◌then◌else◌, get_or,
}
use cloud_storage_system.Base.Int.{ℤ, pos, ◌+ℤ◌, ◌-ℤ◌, leb_ℤ, ltb_ℤ, neg}
use cloud_storage_system.Base.Text.{Text, text, text_eq, decimal}
use cloud_storage_system.Base.Dict.{Dict, lookup, insert, erase}
use cloud_storage_system.Core.State.{PaymentInfo, Bank, record_event, add_outgoing, push_due}
use cloud_storage_system.Core.Due.{process_due}

-- CreateAccount, for an account that is not there. A second life of an account keeps the time of
-- the first one in `creation_time`.
unfoldable pub open_account : ℤ → Text → Bank → Bank
open_account t a s = record s {
  balances = insert a (pos 0) s.balances;
  creation_times = insert a (get_or [] (lookup a s.creation_times) ++ t ∷ []) s.creation_times;
  creation_time = insert a (get_or t (lookup a s.creation_time)) s.creation_time;
  events = record_event a t (pos 0) s.events;
  merged = erase a s.merged;
}

-- CreateAccount
unfoldable pub create_account_now : ℤ → Text → Bank → Bank × Bool
create_account_now t a s = elim (lookup a s.balances) [
  | some _ ↦ (s, false)
  | none ↦ (open_account t a s, true)
]

unfoldable pub create_account : ℤ → Text → Bank → Bank × Bool
create_account t a s = create_account_now t a (process_due t s)

-- Deposit, into an account that holds `balance`.
unfoldable pub credit : ℤ → Text → ℤ → ℤ → Bank → Bank
credit t a amount balance s = record s {
  balances = insert a (balance +ℤ amount) s.balances;
  events = record_event a t amount s.events;
}

-- Deposit
unfoldable pub deposit_now : ℤ → Text → ℤ → Bank → Bank × Option ℤ
deposit_now t a amount s = elim (lookup a s.balances) [
  | none ↦ (s, none)
  | some balance ↦ (credit t a amount balance s, some (balance +ℤ amount))
]

unfoldable pub deposit : ℤ → Text → ℤ → Bank → Bank × Option ℤ
deposit t a amount s = deposit_now t a amount (process_due t s)

-- The part of Transfer past its tests: the two accounts hold `have` and `other`.
unfoldable pub move_funds : ℤ → Text → Text → ℤ → ℤ → ℤ → Bank → Bank
move_funds t source target amount have other s = record s {
  balances = insert target (other +ℤ amount) (insert source (have -ℤ amount) s.balances);
  events = record_event target t amount (record_event source t (neg amount) s.events);
  outgoing = add_outgoing source amount s.outgoing;
}

-- Transfer
unfoldable pub transfer_now : ℤ → Text → Text → ℤ → Bank → Bank × Option ℤ
transfer_now t source target amount s =
    if text_eq source target then (s, none) else elim (lookup source s.balances) [
      | none ↦ (s, none)
      | some have ↦ elim (lookup target s.balances) [
        | none ↦ (s, none)
        | some other ↦
            if ltb_ℤ have amount
            then (s, none)
            else (move_funds t source target amount have other s, some (have -ℤ amount))
      ]
    ]

unfoldable pub transfer : ℤ → Text → Text → ℤ → Bank → Bank × Option ℤ
transfer t source target amount s = transfer_now t source target amount (process_due t s)

unfoldable pub payment_id : ℕ → Text
payment_id n = text "payment" ++ decimal n

abbrev pub new_payment : ℤ → Text → ℤ → ℤ → ℕ → PaymentInfo
new_payment t a amount delay ordinal = record {
  account_id = a;
  amount = amount;
  due_timestamp = t +ℤ delay;
  canceled = false;
  processed = false;
  creation_order = ordinal;
}

-- SchedulePayment, for an account that is there. `emplace` leaves an entry that is there already.
unfoldable pub enlist : ℤ → Text → ℤ → ℤ → Bank → Bank
enlist t a amount delay s =
    let id = payment_id s.next_ordinal in
    record s {
      next_ordinal = s.next_ordinal + 1;
      payments =
          insert id (get_or (new_payment t a amount delay s.next_ordinal) (lookup id s.payments))
            s.payments;
      due = push_due (t +ℤ delay) id s.due;
    }

-- SchedulePayment
unfoldable pub schedule_payment_now : ℤ → Text → ℤ → ℤ → Bank → Bank × Option Text
schedule_payment_now t a amount delay s = elim (lookup a s.balances) [
  | none ↦ (s, none)
  | some _ ↦ (enlist t a amount delay s, some (payment_id s.next_ordinal))
]

unfoldable pub schedule_payment : ℤ → Text → ℤ → ℤ → Bank → Bank × Option Text
schedule_payment t a amount delay s = schedule_payment_now t a amount delay (process_due t s)

-- `info.canceled = true`, through the reference into the map.
unfoldable pub mark_canceled : Text → PaymentInfo → Bank → Bank
mark_canceled id info s = record s {
  payments = insert id (record info { canceled = true }) s.payments;
}

-- CancelPayment
unfoldable pub cancel_payment_now : Text → Text → Bank → Bank × Bool
cancel_payment_now a id s = elim (lookup id s.payments) [
  | none ↦ (s, false)
  | some info ↦
      if info.canceled
      then (s, false)
      else (if info.processed
          then (s, false)
          else (if text_eq info.account_id a then (mark_canceled id info s, true) else (s, false)))
]

unfoldable pub cancel_payment : ℤ → Text → Text → Bank → Bank × Bool
cancel_payment t a id s = cancel_payment_now a id (process_due t s)

-- The loop of MergeAccounts over the payments.
unfoldable pub reassign_one : Text → Text → PaymentInfo → PaymentInfo
reassign_one a1 a2 info =
    if info.processed || (info.canceled || not (text_eq info.account_id a2))
    then info
    else record info { account_id = a1 }

unfoldable pub reassign : Text → Text → Dict PaymentInfo → Dict PaymentInfo
reassign a1 a2 [] = []
reassign a1 a2 ((id, info) ∷ m) = (id, reassign_one a1 a2 info) ∷ reassign a1 a2 m

-- The part of MergeAccounts past its tests: the two accounts hold `b1` and `b2`.
unfoldable pub absorb : ℤ → Text → Text → ℤ → ℤ → Bank → Bank
absorb t a1 a2 b1 b2 s = record s {
  balances = erase a2 (insert a2 (pos 0) (insert a1 (b1 +ℤ b2) s.balances));
  events = record_event a2 t (neg b2) (record_event a1 t b2 s.events);
  outgoing = erase a2 (add_outgoing a1 (get_or (pos 0) (lookup a2 s.outgoing)) s.outgoing);
  payments = reassign a1 a2 s.payments;
  merged = insert a2 (a1, t) s.merged;
}

-- MergeAccounts
unfoldable pub merge_accounts_now : ℤ → Text → Text → Bank → Bank × Bool
merge_accounts_now t a1 a2 s = if text_eq a1 a2 then (s, false) else elim (lookup a1 s.balances) [
  | none ↦ (s, false)
  | some b1 ↦ elim (lookup a2 s.balances) [
    | none ↦ (s, false)
    | some b2 ↦ (absorb t a1 a2 b1 b2 s, true)
  ]
]

unfoldable pub merge_accounts : ℤ → Text → Text → Bank → Bank × Bool
merge_accounts t a1 a2 s = merge_accounts_now t a1 a2 (process_due t s)

-- rootAtTime, with fuel for its recursion along the merges.
unfoldable pub root_at_time : ℕ → Dict (Text × ℤ) → Text → ℤ → Option Text
root_at_time zero merged a time_at = none
root_at_time (suc f) merged a time_at = elim (lookup a merged) [
  | none ↦ some a
  | some (parent, merge_ts) ↦
      let rest = root_at_time f merged parent time_at in
      if leb_ℤ merge_ts time_at then rest else some a
]

-- The loop of GetBalance over the events of an account.
unfoldable pub sum_until : ℤ → ℤ → List (ℤ × ℤ) → ℤ
sum_until time_at sum [] = sum
sum_until time_at sum ((ts, delta) ∷ es) =
    sum_until time_at (if leb_ℤ ts time_at then sum +ℤ delta else sum) es

unfoldable pub merged_before : Text → ℤ → Bank → Bool
merged_before a time_at s = elim (lookup a s.merged) [
  | none ↦ false
  | some (_, ts) ↦ ltb_ℤ ts time_at
]

unfoldable pub created_by : Text → ℤ → Bank → Bool
created_by a time_at s = elim (lookup a s.creation_time) [
  | none ↦ false
  | some ts ↦ leb_ℤ ts time_at
]

-- GetBalance past its call of rootAtTime, whose result it does not use.
unfoldable pub balance_at : Text → ℤ → Bank → Option ℤ
balance_at a time_at s =
    if merged_before a time_at s
    then none
    else (if created_by a time_at s
        then some (sum_until time_at (pos 0) (get_or [] (lookup a s.events)))
        else none)

-- GetBalance; no result where rootAtTime does not return within the fuel.
unfoldable pub get_balance : ℕ → ℤ → Text → ℤ → Bank → Option (Bank × Option ℤ)
get_balance fuel t a time_at s =
    let s' = process_due t s in
    elim (root_at_time fuel s'.merged a time_at) [
      | none ↦ none
      | some _ ↦ some (s', balance_at a time_at s')
    ]
