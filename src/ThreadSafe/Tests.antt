-- ===== src/ThreadSafe/Tests.antt =====
-- The theorems of this component, applied to two accounts.
use cloud_storage_system.Base.{refl, true, ◌≢◌, [], arith}
use cloud_storage_system.Base.Text.{text}
use cloud_storage_system.Base.{inl}
use cloud_storage_system.Base.Text.{Text, text_eq}
use cloud_storage_system.ThreadSafe.Exclusion.{account_hold}
use cloud_storage_system.ThreadSafe.Accounts.{
  Operation, asks_balance, plan, uses, operating, calls-both_shared,
}
use cloud_storage_system.ThreadSafe.Deadlock.{runs-Reach, runs}
use cloud_storage_system.ThreadSafe.{
  start, unlock, account_mutex, shared, both_shared, get_balance_plan, is_free, clashes, lock_eq,
  has_mutex, advance, act, continue, System, program, Reach,
}
use cloud_storage_system.Base.{◌≡◌, List, ◌∷◌}
use cloud_storage_system.ThreadSafe.{Action, call}
use cloud_storage_system.ThreadSafe.Deadlock.{opposite, IsStuck, opposite-IsStuck}

differ : text "acc1" ≢ text "acc2"
differ = λ e. ground (arith, e)

opposite-IsStuck_example :
    (s : System) × Reach (opposite (text "acc1") (text "acc2")) s
    × IsStuck s
    × (program 0 s.threads ≢ [])
    × (program 1 s.threads ≢ [])
opposite-IsStuck_example = opposite-IsStuck (text "acc1") (text "acc2") differ

-- Two threads that ask for the balance of an account, before and at their calls of the bank.
abbrev acc1 : Text
acc1 = text "acc1"

abbrev asking : List Operation
asking = asks_balance acc1 ∷ asks_balance acc1 ∷ []

abbrev rest : List Action
rest = unlock (account_mutex acc1) ∷ []

abbrev both_asking : System
both_asking = record {
  threads = (call ∷ rest) ∷ (call ∷ rest) ∷ [];
  held = account_hold 1 shared acc1 ∷ account_hold 0 shared acc1 ∷ [];
  mutexes = acc1 ∷ [];
}

both_asking-Reach : Reach (operating asking (acc1 ∷ [])) both_asking
unfolding runs advance act program continue plan get_balance_plan is_free clashes lock_eq
    both_shared has_mutex text_eq
both_asking-Reach = runs-Reach (0 ∷ 0 ∷ 1 ∷ 1 ∷ []) _ _ _ start refl

calls-both_shared_example : both_shared shared shared ≡ true
unfolding program uses
calls-both_shared_example =
    calls-both_shared asking (acc1 ∷ []) both_asking 0 1 (asks_balance acc1) (asks_balance acc1)
      rest rest shared shared acc1 both_asking-Reach (λ e. omega (arith, e)) refl refl refl refl
      (inl refl) (inl refl)
