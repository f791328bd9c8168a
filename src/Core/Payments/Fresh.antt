-- ===== src/Core/Payments/Fresh.antt =====
-- SchedulePayment never gives out an id twice.
use cloud_storage_system.Base.{
  List, ℕ, suc, ◌≤◌, ◌≡◌, refl, none, some, arith, Bool-cases, inl, inr,
}
use cloud_storage_system.Base.Int.{ℤ}
use cloud_storage_system.Base.Text.{text_eq_refl, Text, text_eq, text_eq→≡, decimal_injective}
use cloud_storage_system.Base.Dict.{Dict, lookup, insert, lookup-insert}
use cloud_storage_system.Core.State.{PaymentInfo, Bank, empty}
use cloud_storage_system.Core.Due.{debit, mark_processed, process_due}
use cloud_storage_system.Core.Operations.{
  open_account, credit, move_funds, enlist, mark_canceled, absorb, payment_id, new_payment,
  schedule_payment, schedule_payment_now,
}
use cloud_storage_system.Core.Keeps.{process_due-keeps}
use cloud_storage_system.Core.Runs.{Keeps, AnyCall, All-AnyCall, Operation, run, run-keeps}
use cloud_storage_system.Core.Payments.Pending.{lookup-reassign}

pub payment_id_injective : (m n : ℕ) → payment_id m ≡ payment_id n → m ≡ n
unfolding payment_id
payment_id_injective m n e = decimal_injective m n (cc e)

-- The ids from the counter on are not in the map.
pub record IsFresh (s : Bank) : Type 0 where
  pub fresh : (n : ℕ) → s.next_ordinal ≤ n → lookup (payment_id n) s.payments ≡ none

-- A write to an entry that is there brings no new id.
write_known :
    (k : Text) (v old : PaymentInfo) (n : ℕ) (m : Dict PaymentInfo)
    → lookup k m ≡ some old
    → lookup (payment_id n) m ≡ none
    → lookup (payment_id n) (insert k v m) ≡ none
write_known k v old n m e h = elim (Bool-cases (text_eq k (payment_id n))) [
  | inl y ↦ absurd (not_both (text_eq→≡ k (payment_id n) y))
  | inr y ↦ rw (lookup-insert k (payment_id n), y) h
]
  where
    not_both : k ≡ payment_id n → ⊥
    not_both q = ground (arith, e, h, q)

-- Nor does a write under a smaller number.
write_new :
    (k n : ℕ) (v : PaymentInfo) (m : Dict PaymentInfo)
    → suc k ≤ n
    → lookup (payment_id n) m ≡ none
    → lookup (payment_id n) (insert (payment_id k) v m) ≡ none
write_new k n v m l h = elim (Bool-cases (text_eq (payment_id k) (payment_id n))) [
  | inl y ↦ absurd (omega (arith, payment_id_injective k n (text_eq→≡ _ _ y)))
  | inr y ↦ rw (lookup-insert (payment_id k) (payment_id n), y) h
]

pub IsFresh-keeps : Keeps AnyCall IsFresh
unfolding mark_processed mark_canceled debit open_account credit move_funds enlist absorb
IsFresh-keeps = record {
  due = record {
    skip = λ k v b s e c y u h. record {
      fresh = λ n l. write_known k _ v n s.payments e (h.fresh n l);
    };
    pay = λ k v b s e c y g h. record {
      fresh = λ n l. write_known k _ v n s.payments e (h.fresh n l);
    };
    queue = λ q s h. record { fresh = h.fresh };
  };
  calls = record {
    opened = λ t a s e h. record { fresh = h.fresh };
    credited = λ t a x v s ok e h. record { fresh = h.fresh };
    moved = λ t a b x v w s ok ne e y l h. record { fresh = h.fresh };
    enlisted = λ t a x d v s ok e h. record {
      fresh =
          λ n l. write_new s.next_ordinal n _ s.payments (omega arith) (h.fresh n (omega arith));
    };
    canceled =
        λ k v s e p h. record { fresh = λ n l. write_known k _ v n s.payments e (h.fresh n l) };
    absorbed = λ t a b v w s ne e y h. record {
      fresh = λ n l. rw (lookup-reassign a b (payment_id n), h.fresh n l) refl;
    };
  };
}

pub run-IsFresh : (ops : List Operation) → IsFresh (run ops empty)
unfolding lookup
run-IsFresh ops =
    run-keeps IsFresh-keeps ops empty (All-AnyCall ops) (record { fresh = λ n l. refl })

schedule_payment_now-fresh :
    (t : ℤ) (a : Text) (x d : ℤ) (id : Text) (s : Bank)
    → IsFresh s
    → (schedule_payment_now t a x d s).1 ≡ some id
    → (lookup id s.payments ≡ none)
      × (lookup id (schedule_payment_now t a x d s).0.payments
          ≡ some (new_payment t a x d s.next_ordinal))
unfolding schedule_payment_now enlist
schedule_payment_now-fresh t a x d id s f h =
    let k = payment_id s.next_ordinal in
    ground (
      arith,
      f.fresh s.next_ordinal,
      text_eq_refl k,
      lookup-insert k k (new_payment t a x d s.next_ordinal) s.payments,
    )

-- When SchedulePayment returns an id, after any calls from the empty bank, no payment had that id
-- before, and the id now stands for a payment of the given account and amount, due after the given
-- delay, neither made nor canceled.
pub schedule_payment-fresh :
    (ops : List Operation) (t : ℤ) (a : Text) (x d : ℤ) (id : Text)
    → (schedule_payment t a x d (run ops empty)).1 ≡ some id
    → let s = process_due t (run ops empty) in
      (lookup id s.payments ≡ none)
      × (lookup id (schedule_payment t a x d (run ops empty)).0.payments
          ≡ some (new_payment t a x d s.next_ordinal))
unfolding schedule_payment
schedule_payment-fresh ops t a x d id h =
    schedule_payment_now-fresh t a x d id (process_due t (run ops empty))
      (process_due-keeps IsFresh-keeps.due t (run ops empty) (run-IsFresh ops)) h
