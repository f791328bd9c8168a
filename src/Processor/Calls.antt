-- ===== src/Processor/Calls.antt =====
-- The calls of the interface with their arguments, the requests that ask for them, and what they do.
use cloud_storage_system.Base.{[], ◌∷◌, List}
use cloud_storage_system.Interface.{BankingSystem}
use cloud_storage_system.Base.Int.{ℤ}
use cloud_storage_system.Base.Text.{Text}
use cloud_storage_system.Core.Runs.{Operation}
use cloud_storage_system.Protocol.Messages.{Request}
use cloud_storage_system.Protocol.Requests

pub data Call : Type 0 where
  create : Text → Call
  deposit : Text → ℤ → Call
  transfer : Text → Text → ℤ → Call
  balance : Text → ℤ → Call
  spenders : ℤ → Call
  schedule : Text → ℤ → ℤ → Call
  cancel : Text → Text → Call
  merge : Text → Text → Call

-- The request that a client builds for a call.
unfoldable pub request_of : ℤ → Text → Text → Call → Request
request_of t client token (create a) = Requests.create_account t client token a
request_of t client token (deposit a x) = Requests.deposit t client token a x
request_of t client token (transfer a b x) = Requests.transfer t client token a b x
request_of t client token (balance a u) = Requests.get_balance t client token a u
request_of t client token (spenders n) = Requests.top_spenders t client token n
request_of t client token (schedule a x d) = Requests.schedule_payment t client token a x d
request_of t client token (cancel a id) = Requests.cancel_payment t client token a id
request_of t client token (merge a b) = Requests.merge_accounts t client token a b

-- The operation on the bank that the call stands for.
unfoldable pub operation_of : ℤ → Call → Operation
operation_of t (create a) = Operation.creates t a
operation_of t (deposit a x) = Operation.deposits t a x
operation_of t (transfer a b x) = Operation.transfers t a b x
operation_of t (balance a u) = Operation.queries t
operation_of t (spenders n) = Operation.lists_spenders t
operation_of t (schedule a x d) = Operation.schedules t a x d
operation_of t (cancel a id) = Operation.cancels t a id
operation_of t (merge a b) = Operation.merges t a b

-- The state that a call leaves, in any implementation of the interface.
unfoldable pub apply : {S : Type 0} → BankingSystem S → ℤ → Call → S → S
apply bank t (create a) s = (bank.create_account t a s).0
apply bank t (deposit a x) s = (bank.deposit t a x s).0
apply bank t (transfer a b x) s = (bank.transfer t a b x s).0
apply bank t (balance a u) s = (bank.get_balance t a u s).0
apply bank t (spenders n) s = (bank.top_spenders t n s).0
apply bank t (schedule a x d) s = (bank.schedule_payment t a x d s).0
apply bank t (cancel a id) s = (bank.cancel_payment t a id s).0
apply bank t (merge a b) s = (bank.merge_accounts t a b s).0

unfoldable pub apply_all : {S : Type 0} → BankingSystem S → List (ℤ × Call) → S → S
apply_all bank [] s = s
apply_all bank ((t, call) ∷ calls) s = apply_all bank calls (apply bank t call s)
