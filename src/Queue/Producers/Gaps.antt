-- ===== src/Queue/Producers/Gaps.antt =====
-- The nodes of a queue whose producers have not set all links, and what the steps do to them.
use cloud_storage_system.Base.{
  ℕ, ◌<◌, ◌≤◌, ◌≡◌, ◌⊎◌, refl, Option, none, some, List, [], ◌∷◌, ◌++◌, arith, inl, inr,
}
use cloud_storage_system.Queue.{Node, LockFreeQueue, write, cell_of, advance_head, dequeue}
use cloud_storage_system.Queue.Chain.{dequeued}
use cloud_storage_system.Queue.Producers.{Leaves, first_leaves, later_leaves}

module _ {A : Type 0} where
  -- From the node at an address, which holds the first value, through nodes with the values of the
  -- list to the tail. Each is linked to the next, or is the old tail of a producer that will link it.
  pub data Gapped (heap : ℕ → Option (Node A)) (tail : ℕ)
      : ℕ → A → List A → List (ℕ × ℕ) → Type 0 where
    last : {d : A} → heap tail ≡ some (cell_of d none) → Gapped heap tail tail d [] []
    cell :
        {a b : ℕ} {d x : A} {xs : List A} {gaps : List (ℕ × ℕ)}
        → heap a ≡ some (cell_of d (some b))
        → a < b
        → Gapped heap tail b x xs gaps
        → Gapped heap tail a d (x ∷ xs) gaps
    gap :
        {a b : ℕ} {d x : A} {xs : List A} {gaps : List (ℕ × ℕ)}
        → heap a ≡ some (cell_of d none)
        → a < b
        → Gapped heap tail b x xs gaps
        → Gapped heap tail a d (x ∷ xs) ((a, b) ∷ gaps)

  Gapped-le :
      {heap : ℕ → Option (Node A)} {t a : ℕ} {d : A} {xs : List A} {gaps : List (ℕ × ℕ)}
      → Gapped heap t a d xs gaps
      → a ≤ t
  Gapped-le (last e) = omega arith
  Gapped-le (cell e l c) = omega (arith, Gapped-le c)
  Gapped-le (gap e l c) = omega (arith, Gapped-le c)

  -- A write to an address below the first node.
  pub Gapped-below :
      {heap : ℕ → Option (Node A)} {t a : ℕ} {d : A} {xs : List A} {gaps : List (ℕ × ℕ)}
      (n : Option (Node A)) (j : ℕ)
      → j < a
      → Gapped heap t a d xs gaps
      → Gapped (write j n heap) t a d xs gaps
  Gapped-below n j l (last e) = last (ground (arith, e))
  Gapped-below n j l (cell e m c) = cell (ground (arith, e)) m (Gapped-below n j (omega arith) c)
  Gapped-below n j l (gap e m c) = gap (ground (arith, e)) m (Gapped-below n j (omega arith) c)

  -- The exchange of the tail.
  pub Gapped-exchanged :
      {heap : ℕ → Option (Node A)} {t a : ℕ} {d : A} {xs : List A} {gaps : List (ℕ × ℕ)} (f : ℕ)
      (x : A)
      → t < f
      → Gapped heap t a d xs gaps
      → Gapped (write f (some (cell_of x none)) heap) f a d (xs ++ x ∷ []) (gaps ++ (t, f) ∷ [])
  Gapped-exchanged f x l (last e) = gap (ground (arith, e)) l (last (ground arith))
  Gapped-exchanged f x l (cell e m c) =
      cell (ground (arith, e, Gapped-le c)) m (Gapped-exchanged f x l c)
  Gapped-exchanged f x l (gap e m c) =
      gap (ground (arith, e, Gapped-le c)) m (Gapped-exchanged f x l c)

  -- The heap after a link.
  abbrev pub relinked : (ℕ → Option (Node A)) → ℕ → ℕ → A → ℕ → Option (Node A)
  relinked heap u v y = write u (some (cell_of y (some v))) heap

  -- A producer sets its link: its old tail is there, and has no link yet.
  pub Gapped-linked :
      {heap : ℕ → Option (Node A)} {t a : ℕ} {d : A} {xs : List A} {gaps rest : List (ℕ × ℕ)}
      (u v : ℕ)
      → Leaves (u, v) gaps rest
      → Gapped heap t a d xs gaps
      → (y : A) × (heap u ≡ some (cell_of y none))
        × (a ≤ u)
        × Gapped (relinked heap u v y) t a d xs rest
  Gapped-linked u v leaves (last _) = elim leaves [ ]
  Gapped-linked u v leaves (cell e m c) =
      let (y, here, le, linked) = Gapped-linked u v leaves c in
      (y, here, omega arith, cell (ground (arith, e)) m linked)
  Gapped-linked u v first_leaves (gap {d = d} e m c) =
      (d, e, omega arith, cell (ground arith) m (Gapped-below _ u m c))
  Gapped-linked u v (later_leaves leaves) (gap e m c) =
      let (y, here, le, linked) = Gapped-linked u v leaves c in
      (y, here, omega arith, gap (ground (arith, e)) m linked)

  pub Gapped-head :
      {heap : ℕ → Option (Node A)} {t a : ℕ} {d : A} {xs : List A} {gaps : List (ℕ × ℕ)}
      → Gapped heap t a d xs gaps
      → (p : Option ℕ) × (heap a ≡ some (cell_of d p))
  Gapped-head (last e) = (none, e)
  Gapped-head (cell {b = b} e l c) = (some b, e)
  Gapped-head (gap e l c) = (none, e)

  -- The first node has no link, or leads to the next one.
  Gapped-start :
      {heap : ℕ → Option (Node A)} {t a : ℕ} {d : A} {xs : List A} {gaps : List (ℕ × ℕ)}
      → Gapped heap t a d xs gaps
      → (heap a ≡ some (cell_of d none))
        ⊎ ((b : ℕ) × (x : A) × (ys : List A) × (xs ≡ x ∷ ys)
            × (heap a ≡ some (cell_of d (some b)))
            × (a < b)
            × Gapped heap t b x ys gaps)
  Gapped-start (last e) = inl e
  Gapped-start (cell {b = b} {x = x} {xs = ys} e l c) = inr (b, x, ys, refl, e, l, c)
  Gapped-start (gap e l c) = inl e

  -- dequeue finds no link, or follows the first one.
  abbrev pub Follows : LockFreeQueue A → List A → List (ℕ × ℕ) → Type 0
  Follows q xs gaps =
      (b : ℕ) × (x : A) × (ys : List A) × (xs ≡ x ∷ ys)
      × (dequeue q ≡ some (dequeued b q, some x))
      × Gapped (dequeued b q).heap q.tail b x ys gaps

  pub dequeue-cases :
      {d : A} {xs : List A} {gaps : List (ℕ × ℕ)} (q : LockFreeQueue A)
      → Gapped q.heap q.tail q.head d xs gaps
      → (dequeue q ≡ some (q, none)) ⊎ Follows q xs gaps
  unfolding dequeue advance_head
  dequeue-cases q c = elim (Gapped-start c) [
    | inl e ↦ inl (rw (e, dequeue) refl)
    | inr (b, x, ys, same, e, l, rest) ↦
        let (p, h) = Gapped-head rest in
        inr (b, x, ys, same, rw (e, h, dequeue) refl, Gapped-below none q.head l rest)
  ]
