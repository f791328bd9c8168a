-- ===== src/Queue/Tests.antt =====
-- Small uses of the queue, and the theorems of this component applied to them.
use cloud_storage_system.Base.{ℕ, ◌≡◌, refl, none, some, List, [], ◌∷◌}
use cloud_storage_system.Base.{◌%◌, ◌^◌}
use cloud_storage_system.Base.Lists.{length}
use cloud_storage_system.Queue.{LockFreeQueue, new_queue}
use cloud_storage_system.Queue.Fifo.{run, run-fifo, Use, enqueues, dequeues, fifo}

abbrev uses : List (Use ℕ)
uses = enqueues 5 ∷ enqueues 6 ∷ dequeues ∷ dequeues ∷ dequeues ∷ enqueues 7 ∷ []

uses_returns : (fifo uses []).1 ≡ some 5 ∷ some 6 ∷ none ∷ []
unfolding fifo
uses_returns = refl

run-fifo_example :
    (q : LockFreeQueue ℕ) × (run uses (new_queue 0) ≡ some (q, (fifo uses []).1))
    × (q.size ≡ length (fifo uses []).0 % 2 ^ 64)
run-fifo_example = run-fifo 0 uses
