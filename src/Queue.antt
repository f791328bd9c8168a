-- ===== src/Queue.antt =====
-- LockFreeQueue (concurrent/lockfree_queue.cpp): nodes on a heap, and the atomic steps of its
-- operations.
pub mod Chain
pub mod Fifo
pub mod Races
pub mod Producers
mod Tests
use cloud_storage_system.Base.{
  ◌-◌, ℕ, zero, suc, ◌+◌, ◌%◌, ◌^◌, ◌==◌, Bool, true, false, Option, none, some, List, [], ◌∷◌,
  if◌then◌else◌, ◌>>=◌,
}

-- struct Node. A pointer is an address, and the null pointer is none.
pub record Node (A : Type 0) : Type 0 where
  pub data_value : A
  pub next : Option ℕ

-- What an address holds: none before its allocation and after its deletion. `fresh` is the address
-- of the next allocation.
pub record LockFreeQueue (A : Type 0) : Type 0 where
  pub heap : ℕ → Option (Node A)
  pub fresh : ℕ
  pub head : ℕ
  pub tail : ℕ
  pub size : ℕ

abbrev pub write : {A : Type 0} → ℕ → Option (Node A) → (ℕ → Option (Node A)) → ℕ → Option (Node A)
write a n heap j = if j == a then n else heap j

abbrev pub cell_of : {A : Type 0} → A → Option ℕ → Node A
cell_of x p = record { data_value = x; next = p }

-- The constructor, with its dummy node.
abbrev pub new_queue : {A : Type 0} → A → LockFreeQueue A
new_queue d = record {
  heap = write 0 (some (cell_of d none)) (λ _. none);
  fresh = 1;
  head = 0;
  tail = 0;
  size = 0;
}

-- The steps of enqueue: the new node replaces the tail, the old tail is linked to it, the size is
-- counted up. No result where a step reads a node that is not there.
unfoldable pub exchange_tail : {A : Type 0} → A → LockFreeQueue A → LockFreeQueue A
exchange_tail item q = record q {
  heap = write q.fresh (some (cell_of item none)) q.heap;
  fresh = suc q.fresh;
  tail = q.fresh;
}

unfoldable pub link_tail : {A : Type 0} → ℕ → ℕ → LockFreeQueue A → Option (LockFreeQueue A)
link_tail old_tail new_node q = q.heap old_tail >>= λ n.
    some (record q { heap = write old_tail (some (cell_of n.data_value (some new_node))) q.heap })

unfoldable pub count_up : {A : Type 0} → LockFreeQueue A → LockFreeQueue A
count_up q = record q { size = (q.size + 1) % 2 ^ 64 }

unfoldable pub enqueue : {A : Type 0} → A → LockFreeQueue A → Option (LockFreeQueue A)
enqueue item q = link_tail q.tail q.fresh (exchange_tail item q) >>= λ q'. some (count_up q')

-- dequeue by a single consumer, whose exchange of the head succeeds.
unfoldable pub advance_head :
    {A : Type 0} → ℕ → LockFreeQueue A → Option (LockFreeQueue A × Option A)
advance_head next q = q.heap next >>= λ n. some (
  record q {
    head = next;
    heap = write q.head none q.heap;
    size = (q.size + (2 ^ 64 - 1)) % 2 ^ 64;
  },
  some n.data_value,
)

unfoldable pub dequeue : {A : Type 0} → LockFreeQueue A → Option (LockFreeQueue A × Option A)
dequeue q =
    q.heap q.head >>= λ h. elim h.next [ none ↦ some (q, none) | some next ↦ advance_head next q ]

unfoldable pub is_empty : {A : Type 0} → LockFreeQueue A → Option Bool
is_empty q = q.heap q.head >>= λ h. elim h.next [ none ↦ some true | some _ ↦ some false ]

-- clear, with fuel for its loop.
unfoldable pub clear : {A : Type 0} → ℕ → LockFreeQueue A → Option (LockFreeQueue A)
clear zero q = none
clear (suc f) q = is_empty q >>= λ done.
    let rest = dequeue q >>= λ (q', _). clear f q' in if done then some q else rest
