-- ===== src/Core/Payments/Paying.antt =====
-- What processDuePayments of banking_core_impl.cpp does with a payment that is due: it is made, or the
-- account does not cover it.
use cloud_storage_system.Base.{◌≡◌, ◌⊎◌, some, [], ◌∷◌, get_or}
use cloud_storage_system.Base.Int.{ℤ, pos, neg, ◌≤ℤ◌, ◌<ℤ◌}
use cloud_storage_system.Base.Lists.{In}
use cloud_storage_system.Base.Text.{Text}
use cloud_storage_system.Base.Dict.{Dict, lookup}
use cloud_storage_system.Core.State.{PaymentInfo, Bank}
use cloud_storage_system.Core.Runs.{Keeps, Operation, schedules}
use cloud_storage_system.Core.Payments.Pending.{Awaits}

-- No payment has a negative amount.
abbrev ArePositive : Dict PaymentInfo → Type 0
ArePositive [] = Unit
ArePositive ((_, info) ∷ m) = (pos 0 ≤ℤ info.amount) × ArePositive m

-- The amount of a scheduled payment is not negative.
abbrev pub SchedulesProperly : Operation → Type 0
SchedulesProperly (schedules t a x d) = pos 0 ≤ℤ x
SchedulesProperly _ = Unit

record HasPositive (s : Bank) : Type 0 where
  positive : ArePositive s.payments

-- The debit of the payment stands among the events of its account.
abbrev pub IsMade : PaymentInfo → Bank → Type 0
IsMade info s =
    In (info.due_timestamp, neg info.amount) (get_or [] (lookup info.account_id s.events))

-- The account holds less than the payment's amount.
abbrev pub IsShort : PaymentInfo → Bank → Type 0
IsShort info s = (b : ℤ) × (lookup info.account_id s.balances ≡ some b) × (b <ℤ info.amount)

module _ (id : Text) (info : PaymentInfo) where
  -- While processDuePayments runs: the payment waits, or it was made, or is not covered.
  record IsTried (s : Bank) : Type 0 where
    positive : ArePositive s.payments
    tried : Awaits s.payments id info ⊎ (IsMade info s ⊎ IsShort info s)
