-- ===== src/Core/Payments/Draining.antt =====
-- The pending payments while processDuePayments of banking_core_impl.cpp drains the queue.
use cloud_storage_system.Base.{
  ◌≡◌, false, some, List, [], ◌∷◌, ◌⊎◌, inl, inr, arith, Bool-cases, Option-cases, if_elim, sym,
  subst,
}
use cloud_storage_system.Base.Int.{ℤ, ◌<ℤ◌, leb_ℤ}
use cloud_storage_system.Base.Lists.{In}
use cloud_storage_system.Base.Text.{Text, text_eq, text_eq_iff}
use cloud_storage_system.Base.Dict.{lookup}
use cloud_storage_system.Core.State.{PaymentInfo, Bank}
use cloud_storage_system.Core.Due.{debit, mark_processed, charge, pay_one, pay_all, drain}
use cloud_storage_system.Core.Payments.Pending.{
  Awaits, Awaits-insert_processed, ArePendingLive, ArePendingLive-keeps,
}
use cloud_storage_system.Core.Keeps.{pay_one-keeps, pay_all-keeps}
use cloud_storage_system.Core.Payments.Queue.{
  DueQueue, InQueue, IsAscending, AreAbove-mono, lt_of_InQueue,
}

-- What is pending after the payment `k` has been tried was pending before, and is not `k`.
abbrev Settles : Text → Bank → Bank → Type 0
Settles k s s' =
    (id : Text) (info : PaymentInfo)
    → Awaits s'.payments id info
    → Awaits s.payments id info × (text_eq k id ≡ false)

-- A payment `k` that is not pending.
settled_before :
    (k : Text) (s : Bank) → ((info : PaymentInfo) → Awaits s.payments k info → ⊥) → Settles k s s
settled_before k s none_left id info w = elim (Bool-cases (text_eq k id)) [
  | inl e ↦
      absurd
        (none_left info (subst (λ j. Awaits s.payments j info) (sym ((text_eq_iff k id).0 e)) w))
  | inr e ↦ (w, e)
]

charge-Settles :
    (k : Text) (v : PaymentInfo) (s : Bank)
    → ArePendingLive s
    → lookup k s.payments ≡ some v
    → Settles k s (charge k v s)
unfolding charge mark_processed debit
charge-Settles k v s live e = elim (Option-cases (lookup v.account_id s.balances)) [
  | inl n ↦
      rw (n, charge)
        (settled_before k s (λ info w. ground (arith, live.live k info w, w.found, e, n)))
  | inr (b, y) ↦
      rw (y, charge)
        (if_elim (λ r. Settles k s (mark_processed k v r)) (leb_ℤ v.amount b) _ _
          (λ _ id info w. Awaits-insert_processed k v w)
          (λ _ id info w. Awaits-insert_processed k v w))
]

pay_one-Settles : (k : Text) (s : Bank) → ArePendingLive s → Settles k s (pay_one k s)
unfolding pay_one
pay_one-Settles k s live = elim (Option-cases (lookup k s.payments)) [
  | inl e ↦ rw (e, pay_one) (settled_before k s (λ info w. ground (arith, w.found, e)))
  | inr (v, e) ↦
      rw (e, pay_one)
        (if_elim (Settles k s) v.canceled _ _
          (λ c. settled_before k s (λ info w. ground (arith, w.found, w.pending, e, c)))
          (λ _. charge-Settles k v s live e))
]

-- Every pending payment is in the list at hand or in the rest of the queue.
abbrev AreLeft : List Text → DueQueue → Bank → Type 0
AreLeft ids q s =
    (id : Text) (info : PaymentInfo)
    → Awaits s.payments id info
    → In id ids ⊎ InQueue info.due_timestamp id q

left_after_one :
    (k : Text) (ids : List Text) (q : DueQueue) (s s' : Bank)
    → Settles k s s'
    → AreLeft (k ∷ ids) q s
    → AreLeft ids q s'
left_after_one k ids q s s' settles left id info w =
    let (before, ne) = settles id info w in
    elim (left id info before) [
      | inl (inl e) ↦ absurd (ground (arith, ne, text_eq_iff k id))
      | inl (inr m) ↦ inl m
      | inr m ↦ inr m
    ]

pay_all-AreLeft :
    (ids : List Text) (q : DueQueue) (s : Bank)
    → ArePendingLive s
    → AreLeft ids q s
    → AreLeft [] q (pay_all ids s)
unfolding pay_all
pay_all-AreLeft [] q s live left = left
pay_all-AreLeft (k ∷ ids) q s live left =
    pay_all-AreLeft ids q (pay_one k s) (pay_one-keeps ArePendingLive-keeps.due k s live)
      (left_after_one k ids q s (pay_one k s) (pay_one-Settles k s live) left)

-- The pending payments stand in the queue under their due times, which are later than `t`.
pub record AreQueuedAfter (t : ℤ) (s : Bank) : Type 0 where
  pub queued :
      (id : Text) (info : PaymentInfo)
      → Awaits s.payments id info
      → InQueue info.due_timestamp id s.due
  pub later : (id : Text) (info : PaymentInfo) → Awaits s.payments id info → t <ℤ info.due_timestamp

left-InQueue : (q : DueQueue) (id : Text) (d : ℤ) → In id [] ⊎ InQueue d id q → InQueue d id q
left-InQueue q id d (inl h) = absurd h
left-InQueue q id d (inr h) = h

left-In_tail :
    (d e : ℤ) (id : Text) (ids : List Text) (q : DueQueue)
    → InQueue d id ((e, ids) ∷ q)
    → In id ids ⊎ InQueue d id q
left-In_tail d e id ids q (inl (_, m)) = inl m
left-In_tail d e id ids q (inr h) = inr h

pub drain-AreQueuedAfter :
    (t : ℤ) (q : DueQueue) (s : Bank)
    → ArePendingLive s
    → IsAscending q
    → AreLeft [] q s
    → AreQueuedAfter t (drain t q s) × IsAscending (drain t q s).due
unfolding drain
drain-AreQueuedAfter t [] s live up left = (
  record {
    queued = λ id info w. left-InQueue [] id info.due_timestamp (left id info w);
    later = λ id info w. absurd (left-InQueue [] id info.due_timestamp (left id info w));
  },
  tt,
)
drain-AreQueuedAfter t ((d, ids) ∷ q) s live up left =
    if_elim (λ r. AreQueuedAfter t r × IsAscending r.due) (leb_ℤ d t) _ _
      (λ _.
        drain-AreQueuedAfter t q (pay_all ids (record s { due = q }))
          (pay_all-keeps ArePendingLive-keeps.due ids _ (ArePendingLive-keeps.due.queue q s live))
          up.1
          (pay_all-AreLeft ids q (record s { due = q }) (ArePendingLive-keeps.due.queue q s live)
            (λ id info w.
              left-In_tail info.due_timestamp d id ids q
                (left-InQueue ((d, ids) ∷ q) id info.due_timestamp (left id info w)))))
      (λ l. (
        record {
          queued = λ id info w. left-InQueue ((d, ids) ∷ q) id info.due_timestamp (left id info w);
          later = λ id info w.
              lt_of_InQueue t info.due_timestamp id ((d, ids) ∷ q)
                (ground arith, AreAbove-mono t d q (ground arith) up.0)
                (left-InQueue ((d, ids) ∷ q) id info.due_timestamp (left id info w));
        },
        up,
      ))
