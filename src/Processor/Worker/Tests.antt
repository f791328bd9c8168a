-- ===== src/Processor/Worker/Tests.antt =====
-- A worker and a few transactions, and the theorems of this component applied to them.
use cloud_storage_system.Base.{
  ◌+◌, ◌%◌, ◌^◌, ◌≤◌, ◌≡◌, ◌⊎◌, refl, true, false, none, some, [], ◌∷◌, ◌++◌,
}
use cloud_storage_system.Base.Lists.{length}
use cloud_storage_system.Base.Text.{Text, text}
use cloud_storage_system.Core.State.{Bank, empty}
use cloud_storage_system.Core.Instance.{in_memory}
use cloud_storage_system.Protocol.Sample.{sample_codec}
use cloud_storage_system.Processor.Worker.{
  handling, ended, TransactionProcessor, new_processor, submits, sets_callback, starts, works,
  happen, start, signal_stop, submit_transaction, set_transaction_callback, join_worker, work_step,
  work_on, take, process, submitted_by, finished_by, in_hand,
}
use cloud_storage_system.Processor.Worker.Order.{
  Reach, fresh, after, real, carry_out, uncounted, Reach-IsInOrder,
}
use cloud_storage_system.Processor.Worker.Stopping.{
  Works, none_yet, one_more, CanWork, stop-returns,
}

abbrev ab : Text
ab = text "ab"

abbrev cd : Text
cd = text "cd"

-- The worker has carried one transaction out and has another in its hands, with the first once more in
-- the queue.
abbrev busy : TransactionProcessor Bank
busy =
    record (process in_memory sample_codec ab (record (new_processor empty) { callback = true })) {
      transaction_queue = ab ∷ [];
      worker = some (handling cd);
      running = true;
      transactions_processed = 1;
      total_processing_time_us = 7;
    }

busy-Reach : Reach in_memory sample_codec empty busy (ab ∷ cd ∷ ab ∷ []) (ab ∷ [])
unfolding happen start submit_transaction work_step work_on take process submitted_by finished_by
    in_hand set_transaction_callback
busy-Reach =
    after (submits ab)
      (after (works false 0)
        (after (works false 0)
          (after (works false 0)
            (after (works false 7)
              (after (works false 0)
                (after (works false 0)
                  (after (works true 0)
                    (after (works false 0)
                      (after (submits cd)
                        (after (submits ab) (after starts (after sets_callback fresh refl) refl)
                          refl)
                        refl)
                      refl)
                    refl)
                  refl)
                refl)
              refl)
            refl)
          refl)
        refl)
      refl

Reach-IsInOrder_example :
    (real (ab ∷ cd ∷ ab ∷ []) ≡ ab ∷ (in_hand busy.worker ++ real busy.transaction_queue))
    × (busy.banking_system ≡ carry_out in_memory sample_codec (ab ∷ []) empty)
    × ((busy.transactions_processed + uncounted busy.worker) % 2 ^ 64 ≡ 1 % 2 ^ 64)
Reach-IsInOrder_example =
    Reach-IsInOrder in_memory sample_codec empty busy (ab ∷ cd ∷ ab ∷ []) (ab ∷ []) busy-Reach

-- stop has been called, and after three steps the worker has ended, with a transaction and the empty
-- one left.
abbrev stopping : TransactionProcessor Bank
stopping = record busy { running = false; transaction_queue = ab ∷ [] ∷ [] }

abbrev stopped : TransactionProcessor Bank
stopped = record (process in_memory sample_codec cd stopping) {
  worker = some ended;
  transactions_processed = 2;
  total_processing_time_us = 16;
}

signal_stop-busy : signal_stop busy ≡ stopping
unfolding signal_stop process
signal_stop-busy = refl

stopping-Works : Works in_memory sample_codec stopping 3 stopped
unfolding work_step work_on process
stopping-Works = one_more false 0 (one_more false 0 (one_more false 9 none_yet refl) refl) refl

stop-returns_example :
    (3 ≤ 4)
    × (2 ≤ length stopped.transaction_queue + 1)
    × ((join_worker stopped.worker stopped ≡ some (record stopped { worker = none }))
        ⊎ CanWork in_memory sample_codec stopped)
stop-returns_example =
    stop-returns in_memory sample_codec stopping stopped 3 (handling cd) refl refl stopping-Works
