-- ===== src/Core/Payments/Cancel.antt =====
-- CancelPayment: when it succeeds, and that a canceled payment is never made.
use cloud_storage_system.Base.{
  ◌≡◌, refl, ◌↔◌, false, true, some, List, arith, Bool-cases, Option-cases, inl, inr, get_or,
}
use cloud_storage_system.Base.Int.{ℤ}
use cloud_storage_system.Base.Text.{Text, text_eq, text_eq_iff, text_eq_refl}
use cloud_storage_system.Base.Dict.{lookup, insert, lookup-insert}
use cloud_storage_system.Core.State.{PaymentInfo, Bank}
use cloud_storage_system.Core.Due.{debit, mark_processed, process_due}
use cloud_storage_system.Core.Operations.{
  open_account, credit, move_funds, enlist, mark_canceled, absorb, payment_id, new_payment,
  reassign_one, cancel_payment, cancel_payment_now,
}
use cloud_storage_system.Core.Runs.{Keeps, AnyCall, All-AnyCall, Operation, run, run-keeps}
use cloud_storage_system.Core.Payments.Pending.{IsPending, lookup-reassign}

-- The payment is canceled and was never made.
pub record IsVoid (id : Text) (s : Bank) : Type 0 where
  pub info : PaymentInfo
  pub found : lookup id s.payments ≡ some info
  pub canceled : info.canceled ≡ true
  pub unmade : info.processed ≡ false

-- A write to a payment that is not canceled leaves a canceled one alone.
write_other :
    (id k : Text) (v u : PaymentInfo) (s : Bank)
    → lookup k s.payments ≡ some v
    → v.canceled ≡ false
    → (h : IsVoid id s) → lookup id (insert k u s.payments) ≡ some h.info
write_other id k v u s e c h =
    ground (arith, e, c, h.found, h.canceled, text_eq_iff k id, lookup-insert k id u s.payments)

IsVoid-keeps : (id : Text) → Keeps AnyCall (IsVoid id)
unfolding mark_processed mark_canceled debit open_account credit move_funds enlist absorb
    reassign_one
IsVoid-keeps id = record {
  due = record {
    skip = λ k v b s e c y u h. record {
      info = h.info;
      found = write_other id k v (record v { processed = true }) s e c h;
      canceled = h.canceled;
      unmade = h.unmade;
    };
    pay = λ k v b s e c y l h. record {
      info = h.info;
      found = write_other id k v (record v { processed = true }) s e c h;
      canceled = h.canceled;
      unmade = h.unmade;
    };
    queue = λ q s h. record {
      info = h.info;
      found = h.found;
      canceled = h.canceled;
      unmade = h.unmade;
    };
  };
  calls = record {
    opened = λ t a s e h. record {
      info = h.info;
      found = h.found;
      canceled = h.canceled;
      unmade = h.unmade;
    };
    credited = λ t a x v s ok e h. record {
      info = h.info;
      found = h.found;
      canceled = h.canceled;
      unmade = h.unmade;
    };
    moved = λ t a b x v w s ok ne e y l h. record {
      info = h.info;
      found = h.found;
      canceled = h.canceled;
      unmade = h.unmade;
    };
    enlisted = λ t a x d v s ok e h. record {
      info = h.info;
      found =
          let k = payment_id s.next_ordinal in
          let u = get_or (new_payment t a x d s.next_ordinal) (lookup k s.payments) in
          ground (arith, h.found, text_eq_iff k id, lookup-insert k id u s.payments);
      canceled = h.canceled;
      unmade = h.unmade;
    };
    canceled = λ k v s e p h. elim (Bool-cases (text_eq k id)) [
      | inl y ↦ record {
        info = record v { canceled = true };
        found = ground (arith, y, lookup-insert k id (record v { canceled = true }) s.payments);
        canceled = refl;
        unmade = p;
      }
      | inr y ↦ record {
        info = h.info;
        found =
            ground
              (arith, y, h.found, lookup-insert k id (record v { canceled = true }) s.payments);
        canceled = h.canceled;
        unmade = h.unmade;
      }
    ];
    absorbed = λ t a b v w s ne e y h. record {
      info = h.info;
      found = ground (arith, h.found, h.canceled, h.unmade, lookup-reassign a b id s.payments);
      canceled = h.canceled;
      unmade = h.unmade;
    };
  };
}

cancel_payment_now-IsVoid :
    (a id : Text) (s : Bank)
    → (cancel_payment_now a id s).1 ≡ true
    → IsVoid id (cancel_payment_now a id s).0
unfolding cancel_payment_now mark_canceled
cancel_payment_now-IsVoid a id s h = elim (Option-cases (lookup id s.payments)) [
  | inl e ↦ absurd (ground (arith, h, e))
  | inr (v, e) ↦ record {
    info = record v { canceled = true };
    found = ground (
      arith,
      h,
      e,
      text_eq_refl id,
      lookup-insert id id (record v { canceled = true }) s.payments,
    );
    canceled = refl;
    unmade = ground (arith, h, e);
  }
]

-- Once CancelPayment has returned true, the payment stays canceled and is never made, whatever calls
-- follow: merges and due times included.
pub cancel_payment_final :
    (t : ℤ) (a id : Text) (s : Bank) (ops : List Operation)
    → (cancel_payment t a id s).1 ≡ true
    → IsVoid id (run ops (cancel_payment t a id s).0)
unfolding cancel_payment
cancel_payment_final t a id s ops h =
    run-keeps (IsVoid-keeps id) ops _ (All-AnyCall ops)
      (cancel_payment_now-IsVoid a id (process_due t s) h)

-- CancelPayment returns true exactly if, after the due payments, the id stands for a payment that is
-- neither made nor canceled and that belongs to the given account.
pub cancel_payment_iff :
    (t : ℤ) (a id : Text) (s : Bank)
    → ((cancel_payment t a id s).1 ≡ true) ↔ (
        (info : PaymentInfo) × (lookup id (process_due t s).payments ≡ some info)
        × IsPending info
        × (info.account_id ≡ a))
unfolding cancel_payment cancel_payment_now
cancel_payment_iff t a id s = (forth, back)
  where
    forth :
        (cancel_payment t a id s).1 ≡ true
        → (info : PaymentInfo) × (lookup id (process_due t s).payments ≡ some info)
          × IsPending info
          × (info.account_id ≡ a)
    forth h = elim (Option-cases (lookup id (process_due t s).payments)) [
      | inl e ↦ absurd (ground (arith, h, e))
      | inr (v, e) ↦ (v, e, ground (arith, h, e), ground (arith, h, e, text_eq_iff v.account_id a))
    ]

    back :
        (info : PaymentInfo) × (lookup id (process_due t s).payments ≡ some info)
          × IsPending info
          × (info.account_id ≡ a)
        → (cancel_payment t a id s).1 ≡ true
    back (v, e, p, o) = ground (arith, e, p, o, text_eq_iff v.account_id a)
