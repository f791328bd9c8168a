-- ===== src/Queue/Fifo.antt =====
-- Used by one thread at a time, the queue is a first-in first-out list.
use cloud_storage_system.Base.{◌%◌, ◌^◌, ◌≡◌, refl, Option, none, some, List, [], ◌∷◌, ◌++◌, ◌>>=◌}
use cloud_storage_system.Base.Lists.{length}
use cloud_storage_system.Queue.{LockFreeQueue, new_queue, enqueue, dequeue}
use cloud_storage_system.Queue.Chain.{
  Represents, enqueue-Represents, dequeue-empty, dequeue-Represents, new_queue-Represents,
}

-- A use of the queue.
pub data Use (A : Type 0) : Type 0 where
  enqueues : A → Use A
  dequeues : Use A

module _ {A : Type 0} where
  -- A sequence of uses, with what the calls of dequeue return.
  unfoldable pub run : List (Use A) → LockFreeQueue A → Option (LockFreeQueue A × List (Option A))
  run [] q = some (q, [])
  run (enqueues x ∷ uses) q = enqueue x q >>= run uses
  run (dequeues ∷ uses) q = dequeue q >>= λ (q', x). run uses q' >>= λ (q'', xs). some (q'', x ∷ xs)

  -- The same on a list, used first in, first out.
  unfoldable pub fifo : List (Use A) → List A → List A × List (Option A)
  fifo [] l = (l, [])
  fifo (enqueues x ∷ uses) l = fifo uses (l ++ x ∷ [])
  fifo (dequeues ∷ uses) [] = (let (l, xs) = fifo uses [] in (l, none ∷ xs))
  fifo (dequeues ∷ uses) (y ∷ l) = (let (l', xs) = fifo uses l in (l', some y ∷ xs))

  run-Represents :
      (uses : List (Use A)) (q : LockFreeQueue A) (l : List A)
      → Represents q l
      → (q' : LockFreeQueue A) × (run uses q ≡ some (q', (fifo uses l).1))
        × Represents q' (fifo uses l).0
  unfolding run fifo
  run-Represents [] q l r = (q, refl, r)
  run-Represents (enqueues x ∷ uses) q l r =
      let (q', e, r') = enqueue-Represents x q l r in
      let (q'', e', r'') = run-Represents uses q' (l ++ x ∷ []) r' in (q'', rw e e', r'')
  run-Represents (dequeues ∷ uses) q [] r =
      let (q'', e', r'') = run-Represents uses q [] r in
      (q'', rw (dequeue-empty q r) (rw e' refl), r'')
  run-Represents (dequeues ∷ uses) q (y ∷ l) r =
      let (q', e, r') = dequeue-Represents q y l r in
      let (q'', e', r'') = run-Represents uses q' l r' in (q'', rw e (rw e' refl), r'')

-- Any sequence of calls of enqueue and dequeue, one after the other on a new queue, reads no node that
-- is not there, returns what a first-in first-out list returns, and leaves the size at the number of
-- items that are left, modulo 2^64.
pub run-fifo :
    {A : Type 0} (d : A) (uses : List (Use A))
    → (q : LockFreeQueue A) × (run uses (new_queue d) ≡ some (q, (fifo uses []).1))
      × (q.size ≡ length (fifo uses []).0 % 2 ^ 64)
run-fifo d uses =
    let (q, e, r) = run-Represents uses (new_queue d) [] (new_queue-Represents d) in
    (q, e, r.counted)
