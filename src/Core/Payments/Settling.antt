-- ===== src/Core/Payments/Settling.antt =====
-- The pending payments and the queue dueAt_ of banking_core_impl.hpp, over calls and over
-- processDuePayments.
use cloud_storage_system.Base.{List, [], ◌∷◌, inl, inr, ap, sym, subst}
use cloud_storage_system.Base.Int.{◌+ℤ◌, ℤ, ◌<ℤ◌}
use cloud_storage_system.Base.Text.{Text, text_eq_iff}
use cloud_storage_system.Core.State.{PaymentInfo, Bank, empty, push_due}
use cloud_storage_system.Core.Due.{process_due}
use cloud_storage_system.Core.Payments.Pending.{
  not-Awaits-nil, empty-ArePendingLive, Awaits, Awaits-insert_canceled, Awaits-reassign,
  Awaits-enlist, ArePendingLive, ArePendingLive-keeps,
}
use cloud_storage_system.Core.Keeps.{process_due-keeps}
use cloud_storage_system.Core.Runs.{
  KeepsCalls, AnyCall, Operation, run, step, step-eq-act, act-keeps, time_of,
}
use cloud_storage_system.Core.Operations.{
  payment_id, open_account, credit, move_funds, enlist, mark_canceled, absorb,
}
use cloud_storage_system.Core.Payments.Draining.{AreQueuedAfter, drain-AreQueuedAfter}
use cloud_storage_system.Core.Payments.Queue.{
  InQueue, IsAscending, InQueue-push_due, InQueue-push_due_keep, IsAscending-push_due,
}

-- What every call keeps: pending payments belong to accounts that are there and stand in the queue,
-- whose keys ascend.
pub record IsScheduled (s : Bank) : Type 0 where
  pub live : ArePendingLive s
  pub queued :
      (id : Text) (info : PaymentInfo)
      → Awaits s.payments id info
      → InQueue info.due_timestamp id s.due
  pub ascending : IsAscending s.due

pub process_due-AreQueuedAfter :
    (t : ℤ) (s : Bank)
    → IsScheduled s
    → AreQueuedAfter t (process_due t s) × IsAscending (process_due t s).due
unfolding process_due
process_due-AreQueuedAfter t s h =
    drain-AreQueuedAfter t s.due s h.live h.ascending (λ id info w. inr (h.queued id info w))

process_due-IsScheduled : (t : ℤ) (s : Bank) → IsScheduled s → IsScheduled (process_due t s)
process_due-IsScheduled t s h =
    let (after, up) = process_due-AreQueuedAfter t s h in
    record {
      live = process_due-keeps ArePendingLive-keeps.due t s h.live;
      queued = after.queued;
      ascending = up;
    }

enlist-queued :
    (t : ℤ) (a : Text) (x d : ℤ) (s : Bank) (id : Text) (info : PaymentInfo)
    → IsScheduled s
    → Awaits (enlist t a x d s).payments id info
    → InQueue info.due_timestamp id (enlist t a x d s).due
unfolding enlist
enlist-queued t a x d s id info h w =
    let k = payment_id s.next_ordinal in
    elim (Awaits-enlist t a x d s w) [
      | inl old ↦
          InQueue-push_due_keep (t +ℤ d) info.due_timestamp k id s.due (h.queued id info old)
      | inr (n, y, g) ↦
          subst (λ j. InQueue info.due_timestamp j (push_due (t +ℤ d) k s.due))
            ((text_eq_iff k id).0 y)
            (subst (λ u. InQueue u k (push_due (t +ℤ d) k s.due))
              (sym (ap (λ (i : PaymentInfo). i.due_timestamp) g))
              (InQueue-push_due (t +ℤ d) k s.due))
    ]

enlist-IsAscending :
    (t : ℤ) (a : Text) (x d : ℤ) (s : Bank) → IsAscending s.due → IsAscending (enlist t a x d s).due
unfolding enlist
enlist-IsAscending t a x d s h = IsAscending-push_due (t +ℤ d) (payment_id s.next_ordinal) s.due h

IsScheduled-keeps : KeepsCalls AnyCall IsScheduled
unfolding mark_canceled open_account credit move_funds absorb
IsScheduled-keeps =
    let l = ArePendingLive-keeps.calls in
    record {
      opened = λ t a s e h. record {
        live = l.opened t a s e h.live;
        queued = h.queued;
        ascending = h.ascending;
      };
      credited = λ t a x v s ok e h. record {
        live = l.credited t a x v s ok e h.live;
        queued = h.queued;
        ascending = h.ascending;
      };
      moved = λ t a b x v w s ok ne e y g h. record {
        live = l.moved t a b x v w s ok ne e y g h.live;
        queued = h.queued;
        ascending = h.ascending;
      };
      enlisted = λ t a x d v s ok e h. record {
        live = l.enlisted t a x d v s ok e h.live;
        queued = λ id info w. enlist-queued t a x d s id info h w;
        ascending = enlist-IsAscending t a x d s h.ascending;
      };
      canceled = λ k v s e p h. record {
        live = l.canceled k v s e p h.live;
        queued = λ id info w. h.queued id info (Awaits-insert_canceled k v w).0;
        ascending = h.ascending;
      };
      absorbed = λ t a b v w s ne e y h. record {
        live = l.absorbed t a b v w s ne e y h.live;
        queued = λ id info g.
            let (old, o, same, _) = Awaits-reassign a b g in rw same (h.queued id old o);
        ascending = h.ascending;
      };
    }

pub run-IsScheduled : (ops : List Operation) (s : Bank) → IsScheduled s → IsScheduled (run ops s)
unfolding run
run-IsScheduled [] s h = h
run-IsScheduled (op ∷ ops) s h = run-IsScheduled ops (step op s) (
    rw (step-eq-act op s)
      (act-keeps IsScheduled-keeps op _ tt (process_due-IsScheduled (time_of op) s h)))

pub empty-IsScheduled : IsScheduled empty
empty-IsScheduled = record {
  live = empty-ArePendingLive;
  queued = λ id info w. absurd (not-Awaits-nil id info w);
  ascending = tt;
}

-- After any calls from the empty bank, once processDuePayments has run for a time, a payment that is
-- neither marked as processed nor canceled is due later than that time, and the queue holds its id under
-- its due time. So none is left that it should have tried, and none is lost from the queue.
pub process_due-settles :
    (ops : List Operation) (t : ℤ) (id : Text) (info : PaymentInfo)
    → Awaits (process_due t (run ops empty)).payments id info
    → (t <ℤ info.due_timestamp) × InQueue info.due_timestamp id (process_due t (run ops empty)).due
process_due-settles ops t id info w = (after.later id info w, after.queued id info w)
  where
    after : AreQueuedAfter t (process_due t (run ops empty))
    after = (process_due-AreQueuedAfter t _ (run-IsScheduled ops empty empty-IsScheduled)).0
