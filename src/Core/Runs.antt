-- ===== src/Core/Runs.antt =====
-- Sequences of operations on the bank, and the rule for invariants.
use cloud_storage_system.Base.{
  refl, if_elim, Bool, List, [], ◌∷◌, ◌≡◌, false, none, some, Bool-cases, Option-cases, inl, inr,
  arith,
}
use cloud_storage_system.Base.Int.{ℤ, ltb_ℤ, ◌≤ℤ◌}
use cloud_storage_system.Base.Lists.{All}
use cloud_storage_system.Base.Text.{Text, text_eq}
use cloud_storage_system.Base.Dict.{lookup}
use cloud_storage_system.Core.State.{PaymentInfo, Bank}
use cloud_storage_system.Core.Due.{process_due}
use cloud_storage_system.Core.Keeps.{KeepsDue, process_due-keeps}
use cloud_storage_system.Core.Operations.{
  open_account, credit, move_funds, enlist, mark_canceled, absorb, create_account,
  create_account_now, deposit, deposit_now, transfer, transfer_now, schedule_payment,
  schedule_payment_now, cancel_payment, cancel_payment_now, merge_accounts, merge_accounts_now,
}

-- A call of the interface BankingSystem (banking_system.hpp), with its timestamp.
pub data Operation : Type 0 where
  creates : ℤ → Text → Operation
  deposits : ℤ → Text → ℤ → Operation
  transfers : ℤ → Text → Text → ℤ → Operation
  lists_spenders : ℤ → Operation
  schedules : ℤ → Text → ℤ → ℤ → Operation
  cancels : ℤ → Text → Text → Operation
  merges : ℤ → Text → Text → Operation
  queries : ℤ → Operation

-- The state that a call leaves. TopSpenders and GetBalance only process the due payments.
unfoldable pub step : Operation → Bank → Bank
step (creates t a) s = (create_account t a s).0
step (deposits t a x) s = (deposit t a x s).0
step (transfers t a b x) s = (transfer t a b x s).0
step (lists_spenders t) s = process_due t s
step (schedules t a x d) s = (schedule_payment t a x d s).0
step (cancels t a id) s = (cancel_payment t a id s).0
step (merges t a b) s = (merge_accounts t a b s).0
step (queries t) s = process_due t s

unfoldable pub run : List Operation → Bank → Bank
run [] s = s
run (op ∷ ops) s = run ops (step op s)

-- The time of a call, and what it does once the due payments are made.
abbrev pub time_of : Operation → ℤ
time_of (creates t a) = t
time_of (deposits t a x) = t
time_of (transfers t a b x) = t
time_of (lists_spenders t) = t
time_of (schedules t a x d) = t
time_of (cancels t a id) = t
time_of (merges t a b) = t
time_of (queries t) = t

unfoldable pub act : Operation → Bank → Bank
act (creates t a) s = (create_account_now t a s).0
act (deposits t a x) s = (deposit_now t a x s).0
act (transfers t a b x) s = (transfer_now t a b x s).0
act (lists_spenders t) s = s
act (schedules t a x d) s = (schedule_payment_now t a x d s).0
act (cancels t a id) s = (cancel_payment_now a id s).0
act (merges t a b) s = (merge_accounts_now t a b s).0
act (queries t) s = s

pub step-eq-act : (op : Operation) (s : Bank) → step op s ≡ act op (process_due (time_of op) s)
unfolding step act create_account deposit transfer schedule_payment cancel_payment merge_accounts
step-eq-act (creates t a) s = refl
step-eq-act (deposits t a x) s = refl
step-eq-act (transfers t a b x) s = refl
step-eq-act (lists_spenders t) s = refl
step-eq-act (schedules t a x d) s = refl
step-eq-act (cancels t a id) s = refl
step-eq-act (merges t a b) s = refl
step-eq-act (queries t) s = refl

-- What a property has to survive: each change that a call makes, under the tests that the code has
-- made before. `A` restricts the calls.
pub record KeepsCalls (A : Operation → Type 0) (P : Bank → Type 0) : Type 0 where
  pub opened :
      (t : ℤ) (a : Text) (s : Bank) → lookup a s.balances ≡ none → P s → P (open_account t a s)
  pub credited :
      (t : ℤ) (a : Text) (x v : ℤ) (s : Bank)
      → A (deposits t a x)
      → lookup a s.balances ≡ some v
      → P s
      → P (credit t a x v s)
  pub moved :
      (t : ℤ) (a b : Text) (x v w : ℤ) (s : Bank)
      → A (transfers t a b x)
      → text_eq a b ≡ false
      → lookup a s.balances ≡ some v
      → lookup b s.balances ≡ some w
      → x ≤ℤ v
      → P s
      → P (move_funds t a b x v w s)
  pub enlisted :
      (t : ℤ) (a : Text) (x d v : ℤ) (s : Bank)
      → A (schedules t a x d)
      → lookup a s.balances ≡ some v
      → P s
      → P (enlist t a x d s)
  pub canceled :
      (id : Text) (info : PaymentInfo) (s : Bank)
      → lookup id s.payments ≡ some info
      → info.processed ≡ false
      → P s
      → P (mark_canceled id info s)
  pub absorbed :
      (t : ℤ) (a b : Text) (v w : ℤ) (s : Bank)
      → text_eq a b ≡ false
      → lookup a s.balances ≡ some v
      → lookup b s.balances ≡ some w
      → P s
      → P (absorb t a b v w s)

-- What makes a property an invariant.
pub record Keeps (A : Operation → Type 0) (P : Bank → Type 0) : Type 0 where
  pub due : KeepsDue P
  pub calls : KeepsCalls A P

module _ {A : Operation → Type 0} {P : Bank → Type 0} (k : KeepsCalls A P) where
  create_account_now-keeps : (t : ℤ) (a : Text) (s : Bank) → P s → P (create_account_now t a s).0
  unfolding create_account_now
  create_account_now-keeps t a s h = elim (Option-cases (lookup a s.balances)) [
    | inl e ↦ rw (e, create_account_now) (k.opened t a s e h)
    | inr (v, e) ↦ rw (e, create_account_now) h
  ]

  deposit_now-keeps :
      (t : ℤ) (a : Text) (x : ℤ) (s : Bank) → A (deposits t a x) → P s → P (deposit_now t a x s).0
  unfolding deposit_now
  deposit_now-keeps t a x s ok h = elim (Option-cases (lookup a s.balances)) [
    | inl e ↦ rw (e, deposit_now) h
    | inr (v, e) ↦ rw (e, deposit_now) (k.credited t a x v s ok e h)
  ]

  transfer_now-keeps :
      (t : ℤ) (a b : Text) (x : ℤ) (s : Bank)
      → A (transfers t a b x)
      → P s
      → P (transfer_now t a b x s).0
  unfolding transfer_now
  transfer_now-keeps t a b x s ok h = elim (Bool-cases (text_eq a b)) [
    | inl same ↦ rw (same, transfer_now) h
    | inr ne ↦ elim (Option-cases (lookup a s.balances)) [
      | inl e ↦ rw (ne, e, transfer_now) h
      | inr (v, e) ↦ elim (Option-cases (lookup b s.balances)) [
        | inl y ↦ rw (ne, e, y, transfer_now) h
        | inr (w, y) ↦ elim (Bool-cases (ltb_ℤ v x)) [
          | inl l ↦ rw (ne, e, y, l, transfer_now) h
          | inr l ↦
              rw (ne, e, y, l, transfer_now) (k.moved t a b x v w s ok ne e y (ground arith) h)
        ]
      ]
    ]
  ]

  schedule_payment_now-keeps :
      (t : ℤ) (a : Text) (x d : ℤ) (s : Bank)
      → A (schedules t a x d)
      → P s
      → P (schedule_payment_now t a x d s).0
  unfolding schedule_payment_now
  schedule_payment_now-keeps t a x d s ok h = elim (Option-cases (lookup a s.balances)) [
    | inl e ↦ rw (e, schedule_payment_now) h
    | inr (v, e) ↦ rw (e, schedule_payment_now) (k.enlisted t a x d v s ok e h)
  ]

  -- The property of the state that a call with a result leaves.
  abbrev Leaves : Bank × Bool → Type 0
  Leaves r = P r.0

  cancel_payment_now-keeps : (a id : Text) (s : Bank) → P s → P (cancel_payment_now a id s).0
  unfolding cancel_payment_now
  cancel_payment_now-keeps a id s h = elim (Option-cases (lookup id s.payments)) [
    | inl e ↦ rw (e, cancel_payment_now) h
    | inr (info, e) ↦
        rw (e, cancel_payment_now)
          (if_elim Leaves info.canceled _ _ (λ _. h)
            (λ _.
              if_elim Leaves info.processed _ _ (λ _. h)
                (λ p.
                  if_elim Leaves (text_eq info.account_id a) _ _ (λ _. k.canceled id info s e p h)
                    (λ _. h))))
  ]

  merge_accounts_now-keeps :
      (t : ℤ) (a b : Text) (s : Bank) → P s → P (merge_accounts_now t a b s).0
  unfolding merge_accounts_now
  merge_accounts_now-keeps t a b s h = elim (Bool-cases (text_eq a b)) [
    | inl same ↦ rw (same, merge_accounts_now) h
    | inr ne ↦ elim (Option-cases (lookup a s.balances)) [
      | inl e ↦ rw (ne, e, merge_accounts_now) h
      | inr (v, e) ↦ elim (Option-cases (lookup b s.balances)) [
        | inl y ↦ rw (ne, e, y, merge_accounts_now) h
        | inr (w, y) ↦ rw (ne, e, y, merge_accounts_now) (k.absorbed t a b v w s ne e y h)
      ]
    ]
  ]

  pub act-keeps : (op : Operation) (s : Bank) → A op → P s → P (act op s)
  unfolding act
  act-keeps (creates t a) s ok h = create_account_now-keeps t a s h
  act-keeps (deposits t a x) s ok h = deposit_now-keeps t a x s ok h
  act-keeps (transfers t a b x) s ok h = transfer_now-keeps t a b x s ok h
  act-keeps (lists_spenders t) s ok h = h
  act-keeps (schedules t a x d) s ok h = schedule_payment_now-keeps t a x d s ok h
  act-keeps (cancels t a id) s ok h = cancel_payment_now-keeps a id s h
  act-keeps (merges t a b) s ok h = merge_accounts_now-keeps t a b s h
  act-keeps (queries t) s ok h = h

module _ {A : Operation → Type 0} {P : Bank → Type 0} (k : Keeps A P) where
  pub step-keeps : (op : Operation) (s : Bank) → A op → P s → P (step op s)
  step-keeps op s ok h =
      rw (step-eq-act op s) (act-keeps k.calls op _ ok (process_due-keeps k.due (time_of op) s h))

  pub run-keeps : (ops : List Operation) (s : Bank) → All A ops → P s → P (run ops s)
  unfolding run
  run-keeps [] s ok h = h
  run-keeps (op ∷ ops) s ok h = run-keeps ops (step op s) ok.1 (step-keeps op s ok.0 h)

-- No restriction on the calls.
abbrev pub AnyCall : Operation → Type 0
AnyCall _ = Unit

pub All-AnyCall : (ops : List Operation) → All AnyCall ops
All-AnyCall [] = tt
All-AnyCall (op ∷ ops) = (tt, All-AnyCall ops)
