-- ===== src/Interface.antt =====
-- The interface BankingSystem (include/banking_system.hpp), over the state that an implementation
-- keeps.
use cloud_storage_system.Base.{Bool, Option, List}
use cloud_storage_system.Base.Int.{ℤ}
use cloud_storage_system.Base.Text.{Text}

pub record BankingSystem (S : Type 0) : Type 0 where
  pub create_account : ℤ → Text → S → S × Bool
  pub deposit : ℤ → Text → ℤ → S → S × Option ℤ
  pub transfer : ℤ → Text → Text → ℤ → S → S × Option ℤ
  pub top_spenders : ℤ → ℤ → S → S × List Text
  pub schedule_payment : ℤ → Text → ℤ → ℤ → S → S × Option Text
  pub cancel_payment : ℤ → Text → Text → S → S × Bool
  pub merge_accounts : ℤ → Text → Text → S → S × Bool
  pub get_balance : ℤ → Text → ℤ → S → S × Option ℤ
