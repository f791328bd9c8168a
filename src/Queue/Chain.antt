-- ===== src/Queue/Chain.antt =====
-- The list that the nodes of a queue hold, and what enqueue and dequeue do to it.
use cloud_storage_system.Base.{
  ◌≢◌, ℕ, suc, ◌+◌, ◌-◌, ◌%◌, ◌^◌, ◌<◌, ◌≤◌, ◌≡◌, refl, sym, ap, ◌∙◌, Option, none, some, List, [],
  ◌∷◌, ◌++◌, arith, ◌>>=◌,
}
use cloud_storage_system.Base.Lists.{length, length-append}
use cloud_storage_system.Queue.{
  Node, LockFreeQueue, write, cell_of, new_queue, exchange_tail, link_tail, count_up, enqueue,
  advance_head, dequeue,
}

module _ {A : Type 0} where
  -- From the node at an address, which holds the first value, links lead through nodes with the
  -- values of the list to the tail.
  pub data Chain (heap : ℕ → Option (Node A)) (tail : ℕ) : ℕ → A → List A → Type 0 where
    last : {d : A} → heap tail ≡ some (cell_of d none) → Chain heap tail tail d []
    cell :
        {a b : ℕ} {d x : A} {xs : List A}
        → heap a ≡ some (cell_of d (some b))
        → a < b
        → Chain heap tail b x xs
        → Chain heap tail a d (x ∷ xs)

  -- The queue holds the values of the list; its dummy holds any value.
  pub record Represents (q : LockFreeQueue A) (xs : List A) : Type 0 where
    pub dummy : A
    pub chain : Chain q.heap q.tail q.head dummy xs
    pub old : q.tail < q.fresh
    pub counted : q.size ≡ length xs % 2 ^ 64

  Chain-le :
      {heap : ℕ → Option (Node A)} {t a : ℕ} {d : A} {xs : List A} → Chain heap t a d xs → a ≤ t
  Chain-le (last e) = omega arith
  Chain-le (cell e l c) = omega (arith, Chain-le c)

  -- The nodes at both ends.
  pub Chain-tail :
      {heap : ℕ → Option (Node A)} {t a : ℕ} {d : A} {xs : List A}
      → Chain heap t a d xs
      → (y : A) × (heap t ≡ some (cell_of y none))
  Chain-tail (last {d = d} e) = (d, e)
  Chain-tail (cell e l c) = Chain-tail c

  Chain-head :
      {heap : ℕ → Option (Node A)} {t a : ℕ} {d : A} {xs : List A}
      → Chain heap t a d xs
      → (p : Option ℕ) × (heap a ≡ some (cell_of d p))
  Chain-head (last e) = (none, e)
  Chain-head (cell {b = b} e l c) = (some b, e)

  pub write_other :
      (heap : ℕ → Option (Node A)) (n : Option (Node A)) (a j : ℕ)
      → j ≢ a
      → write a n heap j ≡ heap j
  write_other heap n a j ne = ground (arith, ne)

  pub write_same : (heap : ℕ → Option (Node A)) (n : Option (Node A)) (a : ℕ) → write a n heap a ≡ n
  write_same heap n a = ground arith

  same_value : {p q : Option ℕ} (y d : A) → some (cell_of y p) ≡ some (cell_of d q) → y ≡ d
  same_value y d e = ap (λ o. elim o [ none ↦ y | some n ↦ n.data_value ]) e

  -- The heap after an item was linked behind the tail.
  abbrev pub linked : (ℕ → Option (Node A)) → ℕ → ℕ → A → A → ℕ → Option (Node A)
  linked heap t f y x = write t (some (cell_of y (some f))) (write f (some (cell_of x none)) heap)

  pub Chain-linked :
      {heap : ℕ → Option (Node A)} {t a : ℕ} {d : A} {xs : List A} (f : ℕ) (y x : A)
      → heap t ≡ some (cell_of y none)
      → t < f
      → Chain heap t a d xs
      → Chain (linked heap t f y x) f a d (xs ++ x ∷ [])
  Chain-linked f y x h l (last {d = d} e) =
      cell {d = d} (ground (arith, same_value y d (sym h ∙ e))) l (last (ground arith))
  Chain-linked f y x h l (cell e m c) =
      cell (ground (arith, Chain-le c, e)) m (Chain-linked f y x h l c)

  Chain-freed :
      {heap : ℕ → Option (Node A)} {t a : ℕ} {d : A} {xs : List A} (j : ℕ)
      → j < a
      → Chain heap t a d xs
      → Chain (write j none heap) t a d xs
  Chain-freed j l (last e) = last (ground (arith, e))
  Chain-freed j l (cell e m c) = cell (ground (arith, e)) m (Chain-freed j (omega arith) c)

  abbrev enqueued : A → A → LockFreeQueue A → LockFreeQueue A
  enqueued x y q = record q {
    heap = linked q.heap q.tail q.fresh y x;
    fresh = suc q.fresh;
    tail = q.fresh;
    size = (q.size + 1) % 2 ^ 64;
  }

  abbrev pub dequeued : ℕ → LockFreeQueue A → LockFreeQueue A
  dequeued b q = record q {
    head = b;
    heap = write q.head none q.heap;
    size = (q.size + (2 ^ 64 - 1)) % 2 ^ 64;
  }

  -- The queue between the link of an item and its count.
  abbrev pub uncounted : A → A → LockFreeQueue A → LockFreeQueue A
  uncounted x y q = record q {
    heap = linked q.heap q.tail q.fresh y x;
    fresh = suc q.fresh;
    tail = q.fresh;
  }

  pub link_tail-eq :
      (x y : A) (q : LockFreeQueue A)
      → q.heap q.tail ≡ some (cell_of y none)
      → q.tail < q.fresh
      → link_tail q.tail q.fresh (exchange_tail x q) ≡ some (uncounted x y q)
  unfolding exchange_tail link_tail
  link_tail-eq x y q e l =
      ap (λ o. o >>= λ n. some (relinked n))
        (write_other q.heap (some (cell_of x none)) q.fresh q.tail
            (λ i. absurd (omega (arith, i, l)))
          ∙ e)
    where
      relinked : Node A → LockFreeQueue A
      relinked n = record (exchange_tail x q) {
        heap = write q.tail (some (cell_of n.data_value (some q.fresh))) (exchange_tail x q).heap;
      }

  enqueue-eq :
      (x y : A) (q : LockFreeQueue A)
      → q.heap q.tail ≡ some (cell_of y none)
      → q.tail < q.fresh
      → enqueue x q ≡ some (enqueued x y q)
  unfolding enqueue count_up
  enqueue-eq x y q e l = ap (λ o. o >>= λ q'. some (count_up q')) (link_tail-eq x y q e l)

  -- What enqueue and dequeue do to a queue that represents a list.
  pub enqueue-Represents :
      (x : A) (q : LockFreeQueue A) (xs : List A)
      → Represents q xs
      → (q' : LockFreeQueue A) × (enqueue x q ≡ some q') × Represents q' (xs ++ x ∷ [])
  enqueue-Represents x q xs r =
      let (y, e) = Chain-tail r.chain in
      (
        enqueued x y q,
        enqueue-eq x y q e r.old,
        record {
          dummy = r.dummy;
          chain = Chain-linked q.fresh y x e r.old r.chain;
          old = omega arith;
          counted = omega (arith, length-append xs (x ∷ []), r.counted);
        },
      )

  Chain-nil :
      {heap : ℕ → Option (Node A)} {t a : ℕ} {d : A}
      → Chain heap t a d []
      → heap a ≡ some (cell_of d none)
  Chain-nil (last e) = e

  Chain-cons :
      {heap : ℕ → Option (Node A)} {t a : ℕ} {d x : A} {xs : List A}
      → Chain heap t a d (x ∷ xs)
      → (b : ℕ) × (heap a ≡ some (cell_of d (some b))) × (a < b) × Chain heap t b x xs
  Chain-cons (cell {b = b} e l c) = (b, e, l, c)

  pub dequeue-empty : (q : LockFreeQueue A) → Represents q [] → dequeue q ≡ some (q, none)
  unfolding dequeue
  dequeue-empty q r = rw (Chain-nil r.chain, dequeue) refl

  -- The consumer's steps along the first link.
  pub dequeue-eq :
      {d x : A} {t : ℕ} {xs : List A} (q : LockFreeQueue A)
      → Chain q.heap t q.head d (x ∷ xs)
      → (b : ℕ) × (dequeue q ≡ some (dequeued b q, some x))
  unfolding dequeue advance_head
  dequeue-eq q chain =
      let (b, e, l, c) = Chain-cons chain in
      let (p, h) = Chain-head c in (b, rw (e, h, dequeue) refl)

  pub dequeue-Represents :
      (q : LockFreeQueue A) (x : A) (xs : List A)
      → Represents q (x ∷ xs)
      → (q' : LockFreeQueue A) × (dequeue q ≡ some (q', some x)) × Represents q' xs
  unfolding dequeue advance_head
  dequeue-Represents q x xs r =
      let (b, e, l, c) = Chain-cons r.chain in
      let (p, h) = Chain-head c in
      (
        dequeued b q,
        rw (e, h, dequeue) refl,
        record {
          dummy = x;
          chain = Chain-freed q.head l c;
          old = r.old;
          counted = omega (arith, r.counted);
        },
      )

  pub new_queue-Represents : (d : A) → Represents (new_queue d) []
  new_queue-Represents d = record {
    dummy = d;
    chain = last refl;
    old = omega arith;
    counted = refl;
  }
