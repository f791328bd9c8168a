-- ===== src/Queue/Races.antt =====
-- What the atomic steps allow when operations overlap.
use cloud_storage_system.Base.{◌-◌, ◌^◌, ◌≡◌, none, some, List, [], ◌∷◌, arith}
use cloud_storage_system.Queue.{LockFreeQueue, exchange_tail, link_tail, dequeue}
use cloud_storage_system.Queue.Chain.{
  Represents, Chain-linked, Chain-tail, uncounted, link_tail-eq, dequeued, dequeue-eq, write_same,
}

-- A consumer that takes an item after it was linked, and before its producer has counted it, from a
-- queue that was empty, leaves the size at 2^64 - 1 until then.
pub dequeue-uncounted :
    {A : Type 0} (x : A) (q : LockFreeQueue A)
    → Represents q []
    → (q' : LockFreeQueue A) × (q'' : LockFreeQueue A) × (link_tail q.tail q.fresh
          (exchange_tail x q)
        ≡ some q')
      × (dequeue q' ≡ some (q'', some x))
      × (q''.size ≡ 2 ^ 64 - 1)
dequeue-uncounted x q r =
    let (y, e) = Chain-tail r.chain in
    let q' = uncounted x y q in
    let (b, d) = dequeue-eq q' (Chain-linked q.fresh y x e r.old r.chain) in
    (q', dequeued b q', link_tail-eq x y q e r.old, d, omega (arith, r.counted))

-- When a consumer takes an item, the node that the head led to before is deleted. A second consumer
-- that has loaded the head before then reads a deleted node.
pub dequeue-deletes :
    {A : Type 0} (x : A) (xs : List A) (q : LockFreeQueue A)
    → Represents q (x ∷ xs)
    → (q' : LockFreeQueue A) × (dequeue q ≡ some (q', some x)) × (q'.heap q.head ≡ none)
dequeue-deletes x xs q r =
    let (b, e) = dequeue-eq q r.chain in (dequeued b q, e, write_same q.heap none q.head)
