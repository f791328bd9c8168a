-- ===== src/Processor/Worker/Stopping.antt =====
-- The wait of stop for one worker, over a bank whose operations return.
use cloud_storage_system.Base.{
  ℕ, suc, ◌+◌, ◌≤◌, ◌≡◌, ◌⊎◌, refl, sym, ap, ◌∙◌, subst, Bool, true, false, Option, none, some,
  List, [], ◌∷◌, arith, inl, inr, if_elim,
}
use cloud_storage_system.Base.Lists.{length}
use cloud_storage_system.Base.Text.{Text}
use cloud_storage_system.Interface.{BankingSystem}
use cloud_storage_system.Protocol.Json.{Codec}
use cloud_storage_system.Processor.Worker.{
  Position, at_test, at_queue, handling, counting, ended, TransactionProcessor, join_worker, take,
  process, work_on, work_step,
}

-- How many steps the worker has left at most once running_ is reset, and how often it takes from the
-- queue.
abbrev effort_of : Position → ℕ
effort_of at_test = 1
effort_of at_queue = 4
effort_of (handling _) = 3
effort_of (counting _) = 2
effort_of ended = 0

abbrev takes_of : Position → ℕ
takes_of at_queue = 1
takes_of _ = 0

module _ {S : Type 0} (bank : BankingSystem S) (c : Codec) where
  -- A number of steps of the worker.
  pub data Works (p : TransactionProcessor S) : ℕ → TransactionProcessor S → Type 0 where
    none_yet : Works p 0 p
    one_more :
        {n : ℕ} {q r : TransactionProcessor S} (unlinked : Bool) (us : ℕ)
        → Works p n q
        → work_step bank c unlinked us q.worker q ≡ some r
        → Works p (suc n) r

  -- What a step uses up.
  abbrev Uses : TransactionProcessor S → Position → Position → TransactionProcessor S → Type 0
  Uses q w w' r =
      (r.running ≡ false)
      × (effort_of w' + 1 ≤ effort_of w)
      × (length q.transaction_queue + takes_of w' ≤ length r.transaction_queue + takes_of w)

  take-Uses :
      (unlinked : Bool) (queue : List Text) (p : TransactionProcessor S)
      → p.running ≡ false
      → p.transaction_queue ≡ queue
      → let r = take unlinked queue p in Uses p at_queue r.0 r.1
  unfolding take
  take-Uses true queue p off e = (off, omega arith, omega arith)
  take-Uses false [] p off e = (off, omega arith, omega arith)
  take-Uses false ([] ∷ queue) p off e = (off, omega arith, omega (arith, ap length e))
  take-Uses false ((b ∷ bs) ∷ queue) p off e = (off, omega arith, omega (arith, ap length e))

  work_on-Uses :
      (unlinked : Bool) (us : ℕ) (w : Position) (p : TransactionProcessor S)
      → p.running ≡ false
      → 1 ≤ effort_of w
      → let r = work_on bank c unlinked us w p in Uses p w r.0 r.1
  unfolding work_on process
  work_on-Uses unlinked us at_test p off h = rw off (refl, omega arith, omega arith)
  work_on-Uses unlinked us at_queue p off h = take-Uses unlinked p.transaction_queue p off refl
  work_on-Uses unlinked us (handling t) p off h = (off, omega arith, omega arith)
  work_on-Uses unlinked us (counting d) p off h = (off, omega arith, omega arith)
  work_on-Uses unlinked us ended p off h = ground arith

  -- What is left of the effort of a worker that was at `v` in the state `p`, after `n` steps.
  abbrev Spent : TransactionProcessor S → Position → ℕ → TransactionProcessor S → Type 0
  Spent p v n q =
      (q.running ≡ false)
      × ((w : Position) × (q.worker ≡ some w)
          × (n + effort_of w ≤ effort_of v)
          × (length p.transaction_queue + takes_of w ≤ length q.transaction_queue + takes_of v))

  abbrev LeadsSpent :
      TransactionProcessor S → Position → ℕ → Option (TransactionProcessor S) → Type 0
  LeadsSpent p v n none = Unit
  LeadsSpent p v n (some q) = Spent p v n q

  moved-Spent :
      (p : TransactionProcessor S) (v : Position) (n : ℕ) (unlinked : Bool) (us : ℕ) (w : Position)
      (q : TransactionProcessor S)
      → q.running ≡ false
      → 1 ≤ effort_of w
      → n + effort_of w ≤ effort_of v
      → length p.transaction_queue + takes_of w ≤ length q.transaction_queue + takes_of v
      → let (w', r) = work_on bank c unlinked us w q in
        Spent p v (suc n) (record r { worker = some w' })
  moved-Spent p v n unlinked us w q off left effort takes =
      let (off', used, taken) = work_on-Uses unlinked us w q off left in
      (off', (_, refl, omega (arith, effort, used), omega (arith, takes, taken)))

  work_step-LeadsSpent :
      (p : TransactionProcessor S) (v : Position) (n : ℕ) (unlinked : Bool) (us : ℕ) (w : Position)
      (q : TransactionProcessor S)
      → q.running ≡ false
      → n + effort_of w ≤ effort_of v
      → length p.transaction_queue + takes_of w ≤ length q.transaction_queue + takes_of v
      → LeadsSpent p v (suc n) (work_step bank c unlinked us (some w) q)
  unfolding work_step
  work_step-LeadsSpent p v n unlinked us ended q off e t = tt
  work_step-LeadsSpent p v n unlinked us at_test q off e t =
      moved-Spent p v n unlinked us at_test q off (omega arith) e t
  work_step-LeadsSpent p v n unlinked us at_queue q off e t =
      moved-Spent p v n unlinked us at_queue q off (omega arith) e t
  work_step-LeadsSpent p v n unlinked us (handling x) q off e t =
      moved-Spent p v n unlinked us (handling x) q off (omega arith) e t
  work_step-LeadsSpent p v n unlinked us (counting d) q off e t =
      moved-Spent p v n unlinked us (counting d) q off (omega arith) e t

  Works-Spent :
      (p : TransactionProcessor S) (v : Position) (n : ℕ) (q : TransactionProcessor S)
      → p.running ≡ false
      → p.worker ≡ some v
      → Works p n q
      → Spent p v n q
  Works-Spent p v n q off e none_yet = (off, (v, e, omega arith, omega arith))
  Works-Spent p v n r off e (one_more {n = m} {q = q} unlinked us w y) =
      let (q_off, (x, at, effort, takes)) = Works-Spent p v m q off e w in
      subst (LeadsSpent p v (suc m)) (ap (λ o. work_step bank c unlinked us o q) (sym at) ∙ y)
        (work_step-LeadsSpent p v m unlinked us x q q_off effort takes)

  -- The worker can take a step, whatever it finds.
  abbrev pub CanWork : TransactionProcessor S → Type 0
  CanWork q = (r : TransactionProcessor S) × (work_step bank c false 0 q.worker q ≡ some r)

  abbrev moved : Position → TransactionProcessor S → TransactionProcessor S
  moved w q = let (w', r) = work_on bank c false 0 w q in record r { worker = some w' }

  ends :
      (q : TransactionProcessor S) (w : Position)
      → q.running ≡ false
      → (join_worker (some w) q ≡ some (record q { worker = none }))
        ⊎ ((r : TransactionProcessor S) × (work_step bank c false 0 (some w) q ≡ some r))
  unfolding join_worker work_step
  ends q ended off = inl (
      if_elim (λ o. o ≡ some (record q { worker = none })) q.running none _
        (λ on. ground (arith, on, off)) (λ _. refl))
  ends q at_test off = inr (moved at_test q, refl)
  ends q at_queue off = inr (moved at_queue q, refl)
  ends q (handling t) off = inr (moved (handling t) q, refl)
  ends q (counting d) off = inr (moved (counting d) q, refl)

  -- One worker, over a bank whose operations return, takes at most four steps once running_ is reset,
  -- whatever the queue holds, and can go on until it has ended, so that the wait in stop is over. It
  -- takes at most one more entry from the queue; the rest is left there.
  pub stop-returns :
      (p q : TransactionProcessor S) (n : ℕ) (v : Position)
      → p.running ≡ false
      → p.worker ≡ some v
      → Works p n q
      → (n ≤ 4)
        × (length p.transaction_queue ≤ length q.transaction_queue + 1)
        × ((join_worker q.worker q ≡ some (record q { worker = none })) ⊎ CanWork q)
  stop-returns p q n v off e w =
      let (q_off, (x, at, effort, takes)) = Works-Spent p v n q off e w in
      (
        omega (arith, effort, effort-le v),
        omega (arith, takes, takes-le v),
        subst
            (λ o.
              (join_worker o q ≡ some (record q { worker = none }))
              ⊎ ((r : TransactionProcessor S) × (work_step bank c false 0 o q ≡ some r)))
            (sym at) (ends q x q_off),
      )
    where
      effort-le : (v : Position) → effort_of v ≤ 4
      effort-le at_test = omega arith
      effort-le at_queue = omega arith
      effort-le (handling t) = omega arith
      effort-le (counting d) = omega arith
      effort-le ended = omega arith

      takes-le : (v : Position) → takes_of v ≤ 1
      takes-le at_test = omega arith
      takes-le at_queue = omega arith
      takes-le (handling t) = omega arith
      takes-le (counting d) = omega arith
      takes-le ended = omega arith
