-- ===== src/Queue/Producers.antt =====
-- LockFreeQueue (concurrent/lockfree_queue.cpp) under any number of producers and one consumer: the
-- atomic steps of enqueue, in any order, and dequeue.
pub mod Gaps
pub mod Order
mod Tests
use cloud_storage_system.Base.{ℕ, suc, ◌+◌, ◌≡◌, Option, none, some, List, [], ◌∷◌, ◌++◌}
use cloud_storage_system.Queue.{
  LockFreeQueue, new_queue, exchange_tail, link_tail, count_up, dequeue,
}

-- The queue, the producers that have exchanged the tail and not yet linked the old one, each with its
-- old_tail and its new_node, and the number of producers that have linked and not yet counted.
pub record Shared (A : Type 0) : Type 0 where
  pub queue : LockFreeQueue A
  pub linking : List (ℕ × ℕ)
  pub counting : ℕ

abbrev pub new_shared : {A : Type 0} → A → Shared A
new_shared d = record { queue = new_queue d; linking = []; counting = 0 }

-- One producer leaves the list, whichever.
pub data Leaves (p : ℕ × ℕ) : List (ℕ × ℕ) → List (ℕ × ℕ) → Type 0 where
  first_leaves : {ps : List (ℕ × ℕ)} → Leaves p (p ∷ ps) ps
  later_leaves : {o : ℕ × ℕ} {ps qs : List (ℕ × ℕ)} → Leaves p ps qs → Leaves p (o ∷ ps) (o ∷ qs)

abbrev pub exchanged : {A : Type 0} → A → Shared A → Shared A
exchanged item s = record s {
  queue = exchange_tail item s.queue;
  linking = s.linking ++ (s.queue.tail, s.queue.fresh) ∷ [];
}

abbrev pub values : {A : Type 0} → Option A → List A
values none = []
values (some x) = x ∷ []

-- A step, with the items that it puts into the queue and those that it takes out. The consumer alone
-- writes head_, so that its dequeue is one step.
pub data Step {A : Type 0} : Shared A → List A → List A → Shared A → Type 0 where
  exchanges : (item : A) (s : Shared A) → Step s (item ∷ []) [] (exchanged item s)
  links :
      (old_tail new_node : ℕ) (linking : List (ℕ × ℕ)) (s : Shared A) (q : LockFreeQueue A)
      → Leaves (old_tail, new_node) s.linking linking
      → link_tail old_tail new_node s.queue ≡ some q
      → Step s [] [] (record { queue = q; linking = linking; counting = suc s.counting })
  counts :
      (n : ℕ) (s : Shared A)
      → s.counting ≡ suc n
      → Step s [] [] (record s { queue = count_up s.queue; counting = n })
  dequeues :
      (s : Shared A) (q : LockFreeQueue A) (result : Option A)
      → dequeue s.queue ≡ some (q, result)
      → Step s [] (values result) (record s { queue = q })

-- The states that steps lead to, with the items put in, in the order of the exchanges of the tail, and
-- the items taken out, in their order.
pub data Reach {A : Type 0} (d : A) : Shared A → List A → List A → Type 0 where
  fresh_queue : Reach d (new_shared d) [] []
  next :
      {s t : Shared A} {ins outs new taken : List A}
      → Reach d s ins outs
      → Step s new taken t
      → Reach d t (ins ++ new) (outs ++ taken)
