-- ===== src/Queue/Producers/Order.antt =====
-- With any number of producers and one consumer the queue is first-in first-out, and no step touches a
-- node that was deleted.
use cloud_storage_system.Base.{
  ℕ, suc, ◌+◌, ◌%◌, ◌^◌, ◌<◌, ◌≡◌, refl, sym, ap, ◌∙◌, subst, Option, none, some, List, [], ◌∷◌,
  ◌++◌, arith, inl, inr,
}
use mathlib.Core.List.{append-nil, append_assoc}
use cloud_storage_system.Base.Lists.{length, length-append}
use cloud_storage_system.Queue.{LockFreeQueue, cell_of, exchange_tail, link_tail, count_up, dequeue}
use cloud_storage_system.Queue.Chain.{dequeued}
use cloud_storage_system.Queue.Producers.{
  Shared, new_shared, Leaves, first_leaves, later_leaves, exchanged, values, Step, exchanges, links,
  counts, dequeues, Reach, fresh_queue, next,
}
use cloud_storage_system.Queue.Producers.Gaps.{
  Gapped, last, Gapped-exchanged, relinked, Gapped-linked, dequeue-cases,
}

length-Leaves : {p : ℕ × ℕ} {ps qs : List (ℕ × ℕ)} → Leaves p ps qs → length ps ≡ suc (length qs)
length-Leaves first_leaves = refl
length-Leaves (later_leaves l) = ap suc (length-Leaves l)

module _ {A : Type 0} where
  -- What holds of a shared queue: the items in it are those put in and not taken out, and the size is
  -- behind by the producers that have not counted yet.
  record Holds (s : Shared A) (ins outs : List A) : Type 0 where
    dummy : A
    rest : List A
    in_order : ins ≡ outs ++ rest
    gapped : Gapped s.queue.heap s.queue.tail s.queue.head dummy rest s.linking
    old : s.queue.tail < s.queue.fresh
    counted : (s.queue.size + (length s.linking + s.counting)) % 2 ^ 64 ≡ length rest % 2 ^ 64

  exchanged-Holds :
      (x : A) (s : Shared A) (ins outs : List A)
      → Holds s ins outs
      → Holds (exchanged x s) (ins ++ x ∷ []) outs
  unfolding exchange_tail
  exchanged-Holds x s ins outs h = record {
    dummy = h.dummy;
    rest = h.rest ++ x ∷ [];
    in_order = ap (λ i. i ++ x ∷ []) h.in_order ∙ append_assoc outs h.rest (x ∷ []);
    gapped = Gapped-exchanged s.queue.fresh x h.old h.gapped;
    old = omega arith;
    counted = omega (
      arith,
      h.counted,
      length-append h.rest (x ∷ []),
      length-append s.linking ((s.queue.tail, s.queue.fresh) ∷ []),
    );
  }

  -- What link_tail does where the old tail is there.
  link_tail-eq :
      (u v : ℕ) (y : A) (q : LockFreeQueue A)
      → q.heap u ≡ some (cell_of y none)
      → link_tail u v q ≡ some (record q { heap = relinked q.heap u v y })
  unfolding link_tail
  link_tail-eq u v y q e = rw (e, link_tail) refl

  abbrev LinkedHolds : List (ℕ × ℕ) → ℕ → List A → List A → Option (LockFreeQueue A) → Type 0
  LinkedHolds linking n ins outs none = Unit
  LinkedHolds linking n ins outs (some q) =
      Holds (record { queue = q; linking = linking; counting = n }) ins outs

  linked-Holds :
      (u v : ℕ) (linking : List (ℕ × ℕ)) (s : Shared A) (ins outs : List A)
      → Leaves (u, v) s.linking linking
      → Holds s ins outs
      → LinkedHolds linking (suc s.counting) ins outs (link_tail u v s.queue)
  linked-Holds u v linking s ins outs leaves h =
      let (y, here, le, gapped) = Gapped-linked u v leaves h.gapped in
      rw (link_tail-eq u v y s.queue here) (record {
        dummy = h.dummy;
        rest = h.rest;
        in_order = h.in_order;
        gapped = gapped;
        old = h.old;
        counted = omega (arith, h.counted, length-Leaves leaves);
      })

  abbrev TakenHolds : Shared A → List A → List A → Option (LockFreeQueue A × Option A) → Type 0
  TakenHolds s ins outs none = Unit
  TakenHolds s ins outs (some (q, r)) = Holds (record s { queue = q }) ins (outs ++ values r)

  dequeue-Holds :
      (s : Shared A) (ins outs : List A)
      → Holds s ins outs
      → TakenHolds s ins outs (dequeue s.queue)
  dequeue-Holds s ins outs h = elim (dequeue-cases s.queue h.gapped) [
    | inl e ↦ rw (e, append-nil outs) h
    | inr (b, x, ys, same, e, gapped) ↦ rw e (record {
      dummy = x;
      rest = ys;
      in_order = h.in_order ∙ ap (λ r. outs ++ r) same ∙ sym (append_assoc outs (x ∷ []) ys);
      gapped = gapped;
      old = h.old;
      counted = omega (arith, h.counted, ap length same);
    })
  ]

  Step-Holds :
      (s t : Shared A) (ins outs new taken : List A)
      → Step s new taken t
      → Holds s ins outs
      → Holds t (ins ++ new) (outs ++ taken)
  unfolding count_up
  Step-Holds s t ins outs new taken (exchanges x _) h =
      rw (append-nil outs) (exchanged-Holds x s ins outs h)
  Step-Holds s t ins outs new taken (links u v linking _ q leaves e) h =
      rw (append-nil ins, append-nil outs)
        (subst (LinkedHolds linking (suc s.counting) ins outs) e
          (linked-Holds u v linking s ins outs leaves h))
  Step-Holds s t ins outs new taken (counts n _ e) h =
      rw (append-nil ins, append-nil outs)
        (record {
          dummy = h.dummy;
          rest = h.rest;
          in_order = h.in_order;
          gapped = h.gapped;
          old = h.old;
          counted = omega (arith, h.counted, e);
        })
  Step-Holds s t ins outs new taken (dequeues _ q r e) h =
      rw (append-nil ins) (subst (TakenHolds s ins outs) e (dequeue-Holds s ins outs h))

  fresh-Holds : (d : A) → Holds (new_shared d) [] []
  fresh-Holds d = record {
    dummy = d;
    rest = [];
    in_order = refl;
    gapped = last refl;
    old = omega arith;
    counted = refl;
  }

  Reach-Holds : (d : A) (s : Shared A) (ins outs : List A) → Reach d s ins outs → Holds s ins outs
  Reach-Holds d s ins outs fresh_queue = fresh-Holds d
  Reach-Holds d t _ _ (next {s = s} {ins = ins} {outs = outs} {new = new} {taken = taken} r step) =
      Step-Holds s t ins outs new taken step (Reach-Holds d s ins outs r)

  -- However the atomic steps of any number of producers and the calls of one consumer interleave, what
  -- the consumer has taken is a prefix of what was put in, in the order in which the producers
  -- exchanged the tail. The size is the number of the remaining items less that of the producers that
  -- have not counted theirs yet, modulo 2^64. A call of dequeue then reads no node that is not there.
  pub Reach-IsFifo :
      (d : A) (s : Shared A) (ins outs : List A)
      → Reach d s ins outs
      → (rest : List A) × (ins ≡ outs ++ rest)
        × ((s.queue.size + (length s.linking + s.counting)) % 2 ^ 64 ≡ length rest % 2 ^ 64)
        × ((q : LockFreeQueue A) × (result : Option A) × (dequeue s.queue ≡ some (q, result)))
  Reach-IsFifo d s ins outs r =
      let h = Reach-Holds d s ins outs r in
      (
        h.rest,
        h.in_order,
        h.counted,
        elim (dequeue-cases s.queue h.gapped) [
          | inl e ↦ (s.queue, none, e)
          | inr (b, x, _, _, e, _) ↦ (dequeued b s.queue, some x, e)
        ],
      )

  -- In every such interleaving the old tail of a producer that has not linked it yet is a node that is
  -- allocated, not deleted, and has no link: its store succeeds and overwrites none.
  pub Reach-links :
      (d : A) (s : Shared A) (ins outs : List A) (u v : ℕ) (linking : List (ℕ × ℕ))
      → Reach d s ins outs
      → Leaves (u, v) s.linking linking
      → (y : A) × (s.queue.heap u ≡ some (cell_of y none))
        × (link_tail u v s.queue ≡ some (record s.queue { heap = relinked s.queue.heap u v y }))
  Reach-links d s ins outs u v linking r leaves =
      let h = Reach-Holds d s ins outs r in
      let (y, here, _, _) = Gapped-linked u v leaves h.gapped in
      (y, here, link_tail-eq u v y s.queue here)
