-- ===== src/Core/Conservation.antt =====
-- The sum of the balances changes by deposits and due payments only.
use cloud_storage_system.Base.{◌≡◌, refl, false, none, some, List, inl, inr, Option-cases, ◌∙◌, sym}
use cloud_storage_system.Base.Int.{ℤ, pos, ◌+ℤ◌, int_laws}
use cloud_storage_system.Base.Text.{Text, text_eq, text_eq_iff}
use cloud_storage_system.Base.Dict.{Dict, lookup, insert, erase}
use cloud_storage_system.Core.State.{Bank, empty}
use cloud_storage_system.Core.Due.{process_due}
use cloud_storage_system.Core.Operations.{
  open_account, credit, move_funds, enlist, mark_canceled, absorb,
}
use cloud_storage_system.Core.Keeps.{process_due-keeps}
use cloud_storage_system.Core.Runs.{deposits, act, KeepsCalls, Operation, run}
use cloud_storage_system.Core.History.{funds-insert, funds_of_some, funds_of_none}
use cloud_storage_system.Base.Int.{+ℤ_zero}
use cloud_storage_system.Core.Operations.{deposit_now}
use cloud_storage_system.Core.Runs.{
  KeepsCalls, act, act-keeps, step, step-eq-act, time_of, deposits,
}
use cloud_storage_system.Core.Totals.{
  total, IsUnique, IsUniqueBank, IsUniqueBank-keeps, run-IsUniqueBank, insert-IsUnique,
  total-insert, total-erase, total-move,
}

-- The keys are unique and the balances add up to a given sum.
pub record Sums (x : ℤ) (s : Bank) : Type 0 where
  pub unique : IsUniqueBank s
  pub sum : total s.balances ≡ x

-- Every call but a deposit.
abbrev pub BringsNothing : Operation → Type 0
BringsNothing (deposits t a x) = ⊥
BringsNothing _ = Unit

absorbed-total :
    (a b : Text) (v w : ℤ) (m : Dict ℤ)
    → IsUnique m
    → text_eq a b ≡ false
    → lookup a m ≡ some v
    → lookup b m ≡ some w
    → total (erase b (insert b (pos 0) (insert a (v +ℤ w) m))) ≡ total m
absorbed-total a b v w m u ne e y = grind (
  int_laws,
  funds_of_some a v m e,
  funds_of_some b w m y,
  total-erase b (insert b (pos 0) (insert a (v +ℤ w) m))
      (insert-IsUnique b (pos 0) (insert a (v +ℤ w) m) (insert-IsUnique a (v +ℤ w) m u)),
  total-insert b (pos 0) (insert a (v +ℤ w) m),
  total-insert a (v +ℤ w) m,
  funds-insert a b (v +ℤ w) m,
  funds-insert b b (pos 0) (insert a (v +ℤ w) m),
  text_eq_iff b b,
)

Sums-keeps : (x : ℤ) → KeepsCalls BringsNothing (Sums x)
unfolding mark_canceled open_account move_funds enlist absorb
Sums-keeps x =
    let u = IsUniqueBank-keeps.calls in
    record {
      opened = λ t a s e h. record {
        unique = u.opened t a s e h.unique;
        sum =
            grind
              (int_laws, h.sum, total-insert a (pos 0) s.balances, funds_of_none a s.balances e);
      };
      credited = λ t a y v s ok. absurd ok;
      moved = λ t a b y v w s ok ne e g l h. record {
        unique = u.moved t a b y v w s tt ne e g l h.unique;
        sum = total-move a b y v w s.balances ne e g ∙ h.sum;
      };
      enlisted = λ t a y d v s ok e h. record {
        unique = u.enlisted t a y d v s ok e h.unique;
        sum = h.sum;
      };
      canceled =
          λ id info s e p h. record { unique = u.canceled id info s e p h.unique; sum = h.sum };
      absorbed = λ t a b v w s ne e y h. record {
        unique = u.absorbed t a b v w s ne e y h.unique;
        sum = absorbed-total a b v w s.balances h.unique.balances ne e y ∙ h.sum;
      };
    }

-- What a call brings into the bank: the amount of a deposit into an account that is there.
unfoldable pub cash_in : Operation → Bank → ℤ
cash_in (deposits t a x) s = elim (lookup a s.balances) [ none ↦ pos 0 | some _ ↦ x ]
cash_in _ s = pos 0

deposit_now-total :
    (t : ℤ) (a : Text) (x : ℤ) (s : Bank)
    → total (deposit_now t a x s).0.balances ≡ total s.balances +ℤ cash_in (deposits t a x) s
unfolding deposit_now credit cash_in
deposit_now-total t a x s = elim (Option-cases (lookup a s.balances)) [
  | inl e ↦ rw (e, deposit_now, cash_in) (sym (+ℤ_zero (total s.balances)))
  | inr (v, e) ↦
      rw (e, deposit_now, cash_in)
        (grind (int_laws, total-insert a (v +ℤ x) s.balances, funds_of_some a v s.balances e))
]

act-total :
    (op : Operation) (s : Bank)
    → IsUniqueBank s
    → total (act op s).balances ≡ total s.balances +ℤ cash_in op s
unfolding cash_in act
act-total (deposits t a x) s u = deposit_now-total t a x s
act-total op s u =
    (act-keeps (Sums-keeps (total s.balances)) op s tt (record { unique = u; sum = refl })).sum
    ∙ sym (+ℤ_zero (total s.balances))

-- Once the due payments are made, a deposit into an account that is there adds its amount to the sum
-- of the balances, and no other call changes that sum: transfers and merges only move money. This
-- holds of every state that calls have led to from the empty bank.
pub step-total :
    (ops : List Operation) (op : Operation)
    → let s = process_due (time_of op) (run ops empty) in
      total (step op (run ops empty)).balances ≡ total s.balances +ℤ cash_in op s
step-total ops op = rw (step-eq-act op (run ops empty)) (
    act-total op (process_due (time_of op) (run ops empty)) (
      process_due-keeps IsUniqueBank-keeps.due (time_of op) (run ops empty) (run-IsUniqueBank ops)))
