-- ===== src/Processor/Worker.antt =====
-- The class TransactionProcessor of concurrent/transaction_processor.cpp with one worker thread
-- (num_workers_ is 1, the number of consumers that its queue is made for), over a bank whose operations
-- return, as the steps that the worker and the callers take.
pub mod Order
pub mod Stopping
mod Tests
use cloud_storage_system.Base.{
  ℕ, ◌+◌, ◌%◌, ◌^◌, Bool, true, false, Option, none, some, List, [], ◌∷◌, ◌++◌, ltb, if◌then◌else◌,
}
use cloud_storage_system.Base.Lists.{length}
use cloud_storage_system.Base.Text.{Text}
use cloud_storage_system.Interface.{BankingSystem}
use cloud_storage_system.Protocol.Json.{Codec}
use cloud_storage_system.Processor.{process_transaction}
use cloud_storage_system.Fraud.{Floats}

-- Where the worker stands in workerThread: before the test of running_, before the call of dequeue,
-- before processTransaction, before the counters, which get the time that it took, or past the loop.
pub data Position : Type 0 where
  at_test : Position
  at_queue : Position
  handling : Text → Position
  counting : ℕ → Position
  ended : Position

-- The members, with the state of the bank that banking_system_ points to, the queue as the list of what
-- was put in and not taken out, in the order of the exchanges of its tail, the thread in
-- worker_threads_, whether a callback is set, and the texts that it was called with.
pub record TransactionProcessor (S : Type 0) : Type 0 where
  pub banking_system : S
  pub transaction_queue : List Text
  pub worker : Option Position
  pub running : Bool
  pub callback : Bool
  pub called_back : List Text
  pub transactions_processed : ℕ
  pub total_processing_time_us : ℕ

-- getStats
pub record Stats (N : Type 0) : Type 0 where
  pub transactions_processed : ℕ
  pub transactions_queued : ℕ
  pub avg_processing_time_ms : N
  pub throughput_tps : N

-- What may happen: the calls of the interface, the end of the wait in stop, and a step of the worker,
-- which in dequeue may find no link yet to an item that is being put in, and in processTransaction
-- takes some microseconds.
pub data Event : Type 0 where
  submits : Text → Event
  sets_callback : Event
  starts : Event
  stops : Event
  joins : Event
  works : Bool → ℕ → Event

-- The transactions that an event submits, and those that it carries out on the bank.
unfoldable pub submitted_by : Event → List Text
submitted_by (submits transaction_json) = transaction_json ∷ []
submitted_by _ = []

unfoldable pub in_hand : Option Position → List Text
in_hand (some (handling transaction_json)) = transaction_json ∷ []
in_hand _ = []

module _ {S : Type 0} where
  abbrev pub new_processor : S → TransactionProcessor S
  new_processor s = record {
    banking_system = s;
    transaction_queue = [];
    worker = none;
    running = false;
    callback = false;
    called_back = [];
    transactions_processed = 0;
    total_processing_time_us = 0;
  }

  unfoldable pub submit_transaction : Text → TransactionProcessor S → TransactionProcessor S
  submit_transaction transaction_json p = record p {
    transaction_queue = p.transaction_queue ++ transaction_json ∷ [];
  }

  unfoldable pub set_transaction_callback : TransactionProcessor S → TransactionProcessor S
  set_transaction_callback p = record p { callback = true }

  abbrev pub get_queue_size : TransactionProcessor S → ℕ
  get_queue_size p = length p.transaction_queue

  abbrev pub spawned : TransactionProcessor S → TransactionProcessor S
  spawned p = record p { running = true; worker = some at_test }

  -- No result while a call of stop waits: one thread calls both.
  unfoldable pub start : TransactionProcessor S → Option (TransactionProcessor S)
  start p = if p.running then some p else elim p.worker [ none ↦ some (spawned p) | some _ ↦ none ]

  -- stop up to its join: running_ is reset, and the worker gets an empty transaction.
  unfoldable pub signal_stop : TransactionProcessor S → TransactionProcessor S
  signal_stop p =
      if p.running
      then record p { running = false; transaction_queue = p.transaction_queue ++ [] ∷ [] }
      else p

  -- The rest of stop, which waits until the worker has ended.
  unfoldable pub join_worker :
      Option Position → TransactionProcessor S → Option (TransactionProcessor S)
  join_worker (some ended) p = if p.running then none else some (record p { worker = none })
  join_worker _ p = none

  unfoldable pub finished_by : Event → TransactionProcessor S → List Text
  finished_by (works _ _) p = in_hand p.worker
  finished_by _ p = []

  module _ {N : Type 0} (floats : Floats N) where
    open floats use {literal, of_size, divide}

    unfoldable pub get_stats : TransactionProcessor S → Stats N
    get_stats p = record {
      transactions_processed = p.transactions_processed;
      transactions_queued = length p.transaction_queue;
      avg_processing_time_ms =
          if ltb 0 p.transactions_processed
          then divide
              (divide (of_size p.total_processing_time_us) (of_size p.transactions_processed))
              (literal 1000000)
          else literal 0;
      throughput_tps = divide (of_size p.transactions_processed) (literal 1000);
    }

  -- What dequeue finds: nothing, at which the worker waits and tests again, an empty transaction, which
  -- ends it, or a transaction.
  unfoldable pub take :
      Bool → List Text → TransactionProcessor S → Position × TransactionProcessor S
  take true queue p = (at_test, p)
  take false [] p = (at_test, p)
  take false ([] ∷ queue) p = (ended, record p { transaction_queue = queue })
  take false ((b ∷ bs) ∷ queue) p = (handling (b ∷ bs), record p { transaction_queue = queue })

  module _ (bank : BankingSystem S) (c : Codec) where
    -- processTransaction, with the callback where one is set.
    unfoldable pub process : Text → TransactionProcessor S → TransactionProcessor S
    process transaction_json p =
        let (s, response) = process_transaction bank c transaction_json p.banking_system in
        record p {
          banking_system = s;
          called_back = if p.callback then p.called_back ++ response ∷ [] else p.called_back;
        }

    unfoldable pub work_on :
        Bool → ℕ → Position → TransactionProcessor S → Position × TransactionProcessor S
    work_on unlinked us at_test p = ((if p.running then at_queue else ended), p)
    work_on unlinked us at_queue p = take unlinked p.transaction_queue p
    work_on unlinked us (handling transaction_json) p = (counting us, process transaction_json p)
    work_on unlinked us (counting duration) p = (
      at_test,
      record p {
        transactions_processed = (p.transactions_processed + 1) % 2 ^ 64;
        total_processing_time_us = (p.total_processing_time_us + duration) % 2 ^ 64;
      },
    )
    work_on unlinked us ended p = (ended, p)

    -- One step of the worker; no result where there is none, or it has ended.
    unfoldable pub work_step :
        Bool → ℕ → Option Position → TransactionProcessor S → Option (TransactionProcessor S)
    work_step unlinked us none p = none
    work_step unlinked us (some ended) p = none
    work_step unlinked us (some w) p =
        let (w', q) = work_on unlinked us w p in some (record q { worker = some w' })

    unfoldable pub happen : Event → TransactionProcessor S → Option (TransactionProcessor S)
    happen (submits transaction_json) p = some (submit_transaction transaction_json p)
    happen sets_callback p = some (set_transaction_callback p)
    happen starts p = start p
    happen stops p = some (signal_stop p)
    happen joins p = join_worker p.worker p
    happen (works unlinked us) p = work_step unlinked us p.worker p
