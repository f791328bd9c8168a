-- ===== src/Persistent/Memory.antt =====
-- What the calls on the persistent bank do to the bank in memory.
use cloud_storage_system.Base.{◌≡◌, List}
use cloud_storage_system.Base.Text.{Text}
use cloud_storage_system.Core.State.{Bank}
use cloud_storage_system.Core.Operations
use cloud_storage_system.Core.Spenders
use cloud_storage_system.Core.Runs.{Operation, run}
use cloud_storage_system.Persistent.Store.{Store}
use cloud_storage_system.Persistent.Saving.{Persistent, Config}

-- The second bank comes from the first by some calls of BankingSystemImpl.
abbrev pub Follows : Bank → Bank → Type 0
Follows s s' = (ops : List Operation) × (s' ≡ run ops s)

module _ {D : Type 0} (db : Store D) (config : Config) where
  -- The bank in memory after a call with a result follows from the given one.
  abbrev After : {R : Type 0} → Bank → Persistent Bank D × R → Type 0
  After s x = Follows s x.0.memory
