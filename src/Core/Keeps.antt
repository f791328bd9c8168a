-- ===== src/Core/Keeps.antt =====
-- The rule for properties that processDuePayments keeps: they are proved of one payment.
use cloud_storage_system.Base.{
  Bool-cases, List, [], ◌∷◌, ◌≡◌, false, some, Option-cases, inl, inr, if_elim, if◌then◌else◌,
}
use cloud_storage_system.Base.Int.{ℤ, leb_ℤ, ◌≤ℤ◌, leb_ℤ→≤ℤ}
use cloud_storage_system.Base.Text.{Text}
use cloud_storage_system.Base.Dict.{lookup}
use cloud_storage_system.Core.State.{PaymentInfo, Bank}
use cloud_storage_system.Core.Due.{
  debit, mark_processed, charge, pay_one, pay_all, drain, process_due,
}

-- One payment keeps the property, whether the balance covers it or not, and the queue is no matter.
pub record KeepsDue (P : Bank → Type 0) : Type 0 where
  pub skip :
      (id : Text) (info : PaymentInfo) (b : ℤ) (s : Bank)
      → lookup id s.payments ≡ some info
      → info.canceled ≡ false
      → lookup info.account_id s.balances ≡ some b
      → leb_ℤ info.amount b ≡ false
      → P s
      → P (mark_processed id info s)
  pub pay :
      (id : Text) (info : PaymentInfo) (b : ℤ) (s : Bank)
      → lookup id s.payments ≡ some info
      → info.canceled ≡ false
      → lookup info.account_id s.balances ≡ some b
      → info.amount ≤ℤ b
      → P s
      → P (mark_processed id info (debit info b s))
  pub queue : (q : List (ℤ × List Text)) (s : Bank) → P s → P (record s { due = q })

module _ {P : Bank → Type 0} (k : KeepsDue P) where
  charge-keeps :
      (id : Text) (info : PaymentInfo) (s : Bank)
      → lookup id s.payments ≡ some info
      → info.canceled ≡ false
      → P s
      → P (charge id info s)
  unfolding charge
  charge-keeps id info s e c h = elim (Option-cases (lookup info.account_id s.balances)) [
    | inl n ↦ rw (n, charge) h
    | inr (b, y) ↦ rw (y, charge) (paid b y)
  ]
    where
      paid :
          (b : ℤ)
          → lookup info.account_id s.balances ≡ some b
          → P (mark_processed id info (if leb_ℤ info.amount b then debit info b s else s))
      paid b y =
          if_elim (λ r. P (mark_processed id info r)) (leb_ℤ info.amount b) _ _
            (λ l. k.pay id info b s e c y (leb_ℤ→≤ℤ info.amount b l) h)
            (λ l. k.skip id info b s e c y l h)

  pub pay_one-keeps : (id : Text) (s : Bank) → P s → P (pay_one id s)
  unfolding pay_one
  pay_one-keeps id s h = elim (Option-cases (lookup id s.payments)) [
    | inl e ↦ rw (e, pay_one) h
    | inr (info, e) ↦
        rw (e, pay_one) (if_elim P info.canceled _ _ (λ _. h) (λ c. charge-keeps id info s e c h))
  ]

  pub pay_all-keeps : (ids : List Text) (s : Bank) → P s → P (pay_all ids s)
  unfolding pay_all
  pay_all-keeps [] s h = h
  pay_all-keeps (id ∷ ids) s h = pay_all-keeps ids (pay_one id s) (pay_one-keeps id s h)

  drain-keeps : (t : ℤ) (q : List (ℤ × List Text)) (s : Bank) → P s → P (drain t q s)
  unfolding drain
  drain-keeps t [] s h = k.queue [] s h
  drain-keeps t ((d, ids) ∷ q) s h = elim (Bool-cases (leb_ℤ d t)) [
    | inl e ↦ rw e (drain-keeps t q _ (pay_all-keeps ids _ (k.queue q s h)))
    | inr e ↦ rw e (k.queue ((d, ids) ∷ q) s h)
  ]

  -- The loops of processDuePayments keep what one payment keeps.
  pub process_due-keeps : (t : ℤ) (s : Bank) → P s → P (process_due t s)
  unfolding process_due
  process_due-keeps t s h = drain-keeps t s.due s h
