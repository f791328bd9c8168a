-- ===== src/Queue/Producers/Tests.antt =====
-- Two producers that overlap, and the theorems of this component applied to them.
use cloud_storage_system.Base.{ℕ, ◌+◌, ◌-◌, ◌%◌, ◌^◌, ◌≡◌, refl, Option, none, some, List, [], ◌∷◌}
use cloud_storage_system.Base.Lists.{length}
use cloud_storage_system.Queue.{
  LockFreeQueue, write, cell_of, exchange_tail, link_tail, dequeue, advance_head,
}
use cloud_storage_system.Queue.Producers.{
  Shared, new_shared, first_leaves, later_leaves, exchanged, exchanges, links, dequeues, Reach,
  fresh_queue, next,
}
use cloud_storage_system.Queue.Producers.Order.{Reach-IsFifo, Reach-links}

-- Both have exchanged the tail.
abbrev both : Shared ℕ
both = exchanged 6 (exchanged 5 (new_shared 0))

both-Reach : Reach 0 both (5 ∷ 6 ∷ []) []
unfolding exchange_tail
both-Reach =
    next (next fresh_queue (exchanges 5 (new_shared 0))) (exchanges 6 (exchanged 5 (new_shared 0)))

-- The second has linked, so that the consumer finds nothing yet; then the first has, and the consumer
-- takes its item, before either has counted.
abbrev second_linked : Shared ℕ
second_linked = record {
  queue = record both.queue { heap = write 1 (some (cell_of 5 (some 2))) both.queue.heap };
  linking = (0, 1) ∷ [];
  counting = 1;
}

abbrev both_linked : Shared ℕ
both_linked = record {
  queue = record both.queue { heap = write 0 (some (cell_of 0 (some 1))) second_linked.queue.heap };
  linking = [];
  counting = 2;
}

abbrev one_taken : Shared ℕ
one_taken = record both_linked {
  queue = record both_linked.queue {
    head = 1;
    heap = write 0 none both_linked.queue.heap;
    size = 2 ^ 64 - 1;
  };
}

one_taken-Reach : Reach 0 one_taken (5 ∷ 6 ∷ []) (5 ∷ [])
unfolding exchange_tail link_tail dequeue advance_head
one_taken-Reach =
    next
      (next
        (next
          (next both-Reach
            (links 1 2 ((0, 1) ∷ []) both second_linked.queue (later_leaves first_leaves) refl))
          (dequeues second_linked second_linked.queue none refl))
        (links 0 1 [] second_linked both_linked.queue first_leaves refl))
      (dequeues both_linked one_taken.queue (some 5) refl)

Reach-IsFifo_example :
    (rest : List ℕ) × (5 ∷ 6 ∷ [] ≡ 5 ∷ rest)
    × ((one_taken.queue.size + (length one_taken.linking + one_taken.counting)) % 2 ^ 64
        ≡ length rest % 2 ^ 64)
    × ((q : LockFreeQueue ℕ) × (result : Option ℕ) × (dequeue one_taken.queue ≡ some (q, result)))
Reach-IsFifo_example = Reach-IsFifo 0 one_taken (5 ∷ 6 ∷ []) (5 ∷ []) one_taken-Reach

Reach-links_example :
    (y : ℕ) × (both.queue.heap 1 ≡ some (cell_of y none))
    × (link_tail 1 2 both.queue
        ≡ some (record both.queue { heap = write 1 (some (cell_of y (some 2))) both.queue.heap }))
unfolding exchange_tail
Reach-links_example =
    Reach-links 0 both (5 ∷ 6 ∷ []) [] 1 2 ((0, 1) ∷ []) both-Reach (later_leaves first_leaves)
