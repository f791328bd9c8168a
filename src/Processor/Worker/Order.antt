-- ===== src/Processor/Worker/Order.antt =====
-- One worker carries the transactions out in the order in which they were submitted.
use cloud_storage_system.Base.{
  ℕ, ◌+◌, ◌%◌, ◌^◌, ◌≡◌, refl, sym, ap, ◌∙◌, subst, Bool, true, false, Option, none, some, List, [],
  ◌∷◌, ◌++◌, arith, if_elim,
}
use mathlib.Core.List.{append-nil, append_assoc}
use cloud_storage_system.Base.Lists.{length, length-append}
use cloud_storage_system.Base.Text.{Text}
use cloud_storage_system.Interface.{BankingSystem}
use cloud_storage_system.Protocol.Json.{Codec}
use cloud_storage_system.Processor.{process_transaction}
use cloud_storage_system.Processor.Worker.{
  Position, at_test, at_queue, handling, counting, ended, TransactionProcessor, new_processor,
  submit_transaction, set_transaction_callback, spawned, start, signal_stop, join_worker, take,
  process, work_on, work_step, Event, submits, sets_callback, starts, stops, joins, works, happen,
  submitted_by, in_hand, finished_by,
}

-- The transactions among some texts: the empty text is none.
unfoldable pub real : List Text → List Text
real [] = []
real ([] ∷ ts) = real ts
real ((b ∷ bs) ∷ ts) = (b ∷ bs) ∷ real ts

real-append : (ts us : List Text) → real (ts ++ us) ≡ real ts ++ real us
unfolding real
real-append [] us = refl
real-append ([] ∷ ts) us = real-append ts us
real-append ((b ∷ bs) ∷ ts) us = ap ((b ∷ bs) ∷◌) (real-append ts us)

-- A transaction that was carried out, and not counted yet.
abbrev pub uncounted : Option Position → ℕ
uncounted (some (counting _)) = 1
uncounted _ = 0

module _ {S : Type 0} (bank : BankingSystem S) (c : Codec) where
  -- The states that events lead to from a new processor, with the texts that were submitted and the
  -- transactions that were carried out on the bank, each in its order.
  pub data Reach (s : S) : TransactionProcessor S → List Text → List Text → Type 0 where
    fresh : Reach s (new_processor s) [] []
    after :
        {p q : TransactionProcessor S} {submitted done : List Text} (e : Event)
        → Reach s p submitted done
        → happen bank c e p ≡ some q
        → Reach s q (submitted ++ submitted_by e) (done ++ finished_by e p)

  -- The transactions carried out on the bank alone, one after the other.
  unfoldable pub carry_out : List Text → S → S
  carry_out [] s = s
  carry_out (t ∷ ts) s = carry_out ts (process_transaction bank c t s).0

  carry_out-append :
      (ts us : List Text) (s : S) → carry_out (ts ++ us) s ≡ carry_out us (carry_out ts s)
  unfolding carry_out
  carry_out-append [] us s = refl
  carry_out-append (t ∷ ts) us s = carry_out-append ts us (process_transaction bank c t s).0

  abbrev pub IsInOrder : S → TransactionProcessor S → List Text → List Text → Type 0
  IsInOrder s p submitted done =
      (real submitted ≡ done ++ (in_hand p.worker ++ real p.transaction_queue))
      × (p.banking_system ≡ carry_out done s)
      × ((p.transactions_processed + uncounted p.worker) % 2 ^ 64 ≡ length done % 2 ^ 64)

  abbrev Leads : S → List Text → List Text → Option (TransactionProcessor S) → Type 0
  Leads s submitted done none = Unit
  Leads s submitted done (some p) = IsInOrder s p submitted done

  submit-IsInOrder :
      (s : S) (t : Text) (p : TransactionProcessor S) (submitted done : List Text)
      → IsInOrder s p submitted done
      → IsInOrder s (submit_transaction t p) (submitted ++ t ∷ []) done
  unfolding submit_transaction
  submit-IsInOrder s t p submitted done h =
      let new = real (t ∷ []) in
      (
        real-append submitted (t ∷ [])
            ∙ ap (λ r. r ++ new) h.0
            ∙ append_assoc done (in_hand p.worker ++ real p.transaction_queue) new
            ∙ ap (λ r. done ++ r)
                (append_assoc (in_hand p.worker) (real p.transaction_queue) new
                  ∙ ap (λ r. in_hand p.worker ++ r)
                      (sym (real-append p.transaction_queue (t ∷ [])))),
        h.1,
        h.2,
      )

  signal_stop-IsInOrder :
      (s : S) (p : TransactionProcessor S) (submitted done : List Text)
      → IsInOrder s p submitted done
      → IsInOrder s (signal_stop p) submitted done
  unfolding signal_stop real
  signal_stop-IsInOrder s p submitted done h =
      if_elim (λ q. IsInOrder s q submitted done) p.running
        (record p { running = false; transaction_queue = p.transaction_queue ++ [] ∷ [] }) p
        (λ _.
          let same : real (p.transaction_queue ++ [] ∷ []) ≡ real p.transaction_queue =
            real-append p.transaction_queue ([] ∷ []) ∙ append-nil (real p.transaction_queue) in
          (h.0 ∙ ap (λ r. done ++ (in_hand p.worker ++ r)) (sym same), h.1, h.2))
        (λ _. h)

  -- The worker, where it is in the place of the processor's worker.
  abbrev at : Position → TransactionProcessor S → TransactionProcessor S
  at w p = record p { worker = some w }

  take-IsInOrder :
      (s : S) (unlinked : Bool) (queue : List Text) (p : TransactionProcessor S)
      (submitted done : List Text)
      → p.transaction_queue ≡ queue
      → IsInOrder s (at at_queue p) submitted done
      → let r = take unlinked queue p in IsInOrder s (at r.0 r.1) submitted done
  unfolding take in_hand real
  take-IsInOrder s true queue p submitted done e h = h
  take-IsInOrder s false [] p submitted done e h = h
  take-IsInOrder s false ([] ∷ queue) p submitted done e h =
      (h.0 ∙ ap (λ q. done ++ real q) e, h.1, h.2)
  take-IsInOrder s false ((b ∷ bs) ∷ queue) p submitted done e h =
      (h.0 ∙ ap (λ q. done ++ real q) e, h.1, h.2)

  work_on-IsInOrder :
      (s : S) (unlinked : Bool) (us : ℕ) (w : Position) (p : TransactionProcessor S)
      (submitted done : List Text)
      → IsInOrder s (at w p) submitted done
      → let r = work_on bank c unlinked us w p in
        IsInOrder s (at r.0 r.1) submitted (done ++ in_hand (some w))
  unfolding work_on process in_hand carry_out
  work_on-IsInOrder s unlinked us at_test p submitted done h = rw (append-nil done) (
      if_elim (λ w. IsInOrder s (at w p) submitted done) p.running at_queue ended (λ _. h) (λ _. h))
  work_on-IsInOrder s unlinked us at_queue p submitted done h =
      rw (append-nil done) (take-IsInOrder s unlinked p.transaction_queue p submitted done refl h)
  work_on-IsInOrder s unlinked us (handling t) p submitted done h = (
    h.0 ∙ sym (append_assoc done (t ∷ []) (real p.transaction_queue)),
    ap (λ u. (process_transaction bank c t u).0) h.1 ∙ sym (carry_out-append done (t ∷ []) s),
    omega (arith, h.2, length-append done (t ∷ [])),
  )
  work_on-IsInOrder s unlinked us (counting d) p submitted done h =
      rw (append-nil done) (h.0, h.1, omega (arith, h.2))
  work_on-IsInOrder s unlinked us ended p submitted done h = rw (append-nil done) h

  -- The processor with its worker as it was found.
  placed :
      (s : S) (w : Option Position) (p : TransactionProcessor S) (submitted done : List Text)
      → p.worker ≡ w
      → IsInOrder s p submitted done
      → IsInOrder s (record p { worker = w }) submitted done
  placed s w p submitted done e h = (
    h.0 ∙ ap (λ o. done ++ (in_hand o ++ real p.transaction_queue)) e,
    h.1,
    subst (λ o. (p.transactions_processed + uncounted o) % 2 ^ 64 ≡ length done % 2 ^ 64) e h.2,
  )

  moved-IsInOrder :
      (s : S) (unlinked : Bool) (us : ℕ) (w : Position) (p : TransactionProcessor S)
      (submitted done : List Text)
      → p.worker ≡ some w
      → IsInOrder s p submitted done
      → let r = work_on bank c unlinked us w p in
        IsInOrder s (at r.0 r.1) (submitted ++ []) (done ++ in_hand p.worker)
  moved-IsInOrder s unlinked us w p submitted done e h =
      let r = work_on bank c unlinked us w p in
      rw (append-nil submitted) (
        subst (λ o. IsInOrder s (at r.0 r.1) submitted (done ++ in_hand o)) (sym e)
          (work_on-IsInOrder s unlinked us w p submitted done
            (placed s (some w) p submitted done e h)))

  work_step-Leads :
      (s : S) (unlinked : Bool) (us : ℕ) (w : Option Position) (p : TransactionProcessor S)
      (submitted done : List Text)
      → p.worker ≡ w
      → IsInOrder s p submitted done
      → Leads s (submitted ++ []) (done ++ in_hand p.worker) (work_step bank c unlinked us w p)
  unfolding work_step
  work_step-Leads s unlinked us none p submitted done e h = tt
  work_step-Leads s unlinked us (some ended) p submitted done e h = tt
  work_step-Leads s unlinked us (some at_test) p submitted done e h =
      moved-IsInOrder s unlinked us at_test p submitted done e h
  work_step-Leads s unlinked us (some at_queue) p submitted done e h =
      moved-IsInOrder s unlinked us at_queue p submitted done e h
  work_step-Leads s unlinked us (some (handling t)) p submitted done e h =
      moved-IsInOrder s unlinked us (handling t) p submitted done e h
  work_step-Leads s unlinked us (some (counting d)) p submitted done e h =
      moved-IsInOrder s unlinked us (counting d) p submitted done e h

  still :
      (s : S) (p : TransactionProcessor S) (submitted done : List Text)
      → IsInOrder s p submitted done
      → IsInOrder s p (submitted ++ []) (done ++ [])
  still s p submitted done h = rw (append-nil submitted, append-nil done) h

  start-Leads :
      (s : S) (w : Option Position) (p : TransactionProcessor S) (submitted done : List Text)
      → p.worker ≡ w
      → IsInOrder s p submitted done
      → Leads s (submitted ++ []) (done ++ []) (elim w [ none ↦ some (spawned p) | some _ ↦ none ])
  unfolding in_hand
  start-Leads s none p submitted done e h =
      still s (spawned p) submitted done (placed s none p submitted done e h)
  start-Leads s (some _) p submitted done e h = tt

  join_worker-Leads :
      (s : S) (w : Option Position) (p : TransactionProcessor S) (submitted done : List Text)
      → p.worker ≡ w
      → IsInOrder s p submitted done
      → Leads s (submitted ++ []) (done ++ []) (join_worker w p)
  unfolding join_worker in_hand
  join_worker-Leads s none p submitted done e h = tt
  join_worker-Leads s (some ended) p submitted done e h =
      let joined = record p { worker = none } in
      if_elim (Leads s (submitted ++ []) (done ++ [])) p.running none (some joined) (λ _. tt)
        (λ _. still s joined submitted done (placed s (some ended) p submitted done e h))
  join_worker-Leads s (some at_test) p submitted done e h = tt
  join_worker-Leads s (some at_queue) p submitted done e h = tt
  join_worker-Leads s (some (handling t)) p submitted done e h = tt
  join_worker-Leads s (some (counting d)) p submitted done e h = tt

  happen-Leads :
      (s : S) (e : Event) (p : TransactionProcessor S) (submitted done : List Text)
      → IsInOrder s p submitted done
      → Leads s (submitted ++ submitted_by e) (done ++ finished_by e p) (happen bank c e p)
  unfolding happen submitted_by finished_by set_transaction_callback start
  happen-Leads s (submits t) p submitted done h =
      rw (append-nil done) (submit-IsInOrder s t p submitted done h)
  happen-Leads s sets_callback p submitted done h =
      still s (set_transaction_callback p) submitted done h
  happen-Leads s starts p submitted done h =
      if_elim (Leads s (submitted ++ []) (done ++ [])) p.running (some p) _
        (λ _. still s p submitted done h) (λ _. start-Leads s p.worker p submitted done refl h)
  happen-Leads s stops p submitted done h =
      still s (signal_stop p) submitted done (signal_stop-IsInOrder s p submitted done h)
  happen-Leads s joins p submitted done h = join_worker-Leads s p.worker p submitted done refl h
  happen-Leads s (works unlinked us) p submitted done h =
      work_step-Leads s unlinked us p.worker p submitted done refl h

  -- With one worker, over a bank whose operations return, and however the calls of submitTransaction
  -- by any threads, start and stop interleave with its steps: the transactions that were submitted are,
  -- in the order in which they were put into the queue, those carried out, the one in the worker's
  -- hands, and those in the queue, so that none is lost, carried out twice or overtaken. The bank is as
  -- those carried out leave it, one after the other, and the counter is their number, less one while
  -- the last is not counted yet, modulo 2^64.
  pub Reach-IsInOrder :
      (s : S) (p : TransactionProcessor S) (submitted done : List Text)
      → Reach s p submitted done
      → IsInOrder s p submitted done
  unfolding carry_out real in_hand
  Reach-IsInOrder s p submitted done fresh = (refl, refl, refl)
  Reach-IsInOrder s q submitted done (after {p = p} {submitted = before} {done = was} e r y) =
      subst (Leads s (before ++ submitted_by e) (was ++ finished_by e p)) y
        (happen-Leads s e p before was (Reach-IsInOrder s p before was r))
