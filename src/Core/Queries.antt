-- ===== src/Core/Queries.antt =====
-- What GetBalance answers.
use cloud_storage_system.Base.{
  ◌≡◌, refl, true, false, some, List, [], ◌∷◌, arith, Bool-cases, Option-cases, inl, inr,
  if◌then◌else◌, get_or, is_some, ◌∙◌, sym, subst,
}
use cloud_storage_system.Base.Int.{ℤ, pos, ◌+ℤ◌, ◌-ℤ◌, ◌≤ℤ◌, ltb_ℤ, int_laws, neg, zero_+ℤ}
use cloud_storage_system.Base.Lists.{All, In, In-append_left, In-append_right}
use cloud_storage_system.Base.Text.{Text, text_eq, text_eq_iff, text_eq_refl}
use cloud_storage_system.Base.Dict.{Dict, lookup, insert, lookup-insert, lookup-erase}
use cloud_storage_system.Core.State.{Bank, empty, record_event}
use cloud_storage_system.Core.Due.{debit, mark_processed, process_due}
use cloud_storage_system.Core.Operations.{
  open_account, credit, move_funds, enlist, mark_canceled, absorb, sum_until, merged_before,
  created_by, balance_at, merge_accounts, merge_accounts_now,
}
use cloud_storage_system.Core.Runs.{Keeps, AnyCall, All-AnyCall, Operation, run, run-keeps}
use cloud_storage_system.Core.History.{sum_deltas, history, funds_of_some, run-IsReconciled}
use cloud_storage_system.Core.Merges.{run-IsForest}

-- The events of an account.
abbrev pub events_of : Text → Bank → List (ℤ × ℤ)
events_of a s = get_or [] (lookup a s.events)

In-record_event :
    (e : ℤ × ℤ) (a j : Text) (t d : ℤ) (events : Dict (List (ℤ × ℤ)))
    → In e (get_or [] (lookup j events))
    → In e (get_or [] (lookup j (record_event a t d events)))
unfolding record_event
In-record_event e a j t d events h = elim (Bool-cases (text_eq a j)) [
  | inl y ↦
      let same = (text_eq_iff a j).0 y in
      rw (lookup-insert a j, y)
        (In-append_left e _ _ (subst (λ k. In e (get_or [] (lookup k events))) (sym same) h))
  | inr y ↦ rw (lookup-insert a j, y) h
]

In-record_event_self :
    (a : Text) (t d : ℤ) (events : Dict (List (ℤ × ℤ)))
    → In (t, d) (get_or [] (lookup a (record_event a t d events)))
unfolding record_event
In-record_event_self a t d events =
    rw (lookup-insert a a, text_eq_refl a)
      (In-append_right (t, d) (get_or [] (lookup a events)) ((t, d) ∷ []) (inl refl))

-- The creation time of an account is the time of one of its events, and an account that is there
-- has one.
pub record IsRegistered (s : Bank) : Type 0 where
  pub known :
      (a : Text) (ts : ℤ) → lookup a s.creation_time ≡ some ts → In (ts, pos 0) (events_of a s)
  pub live :
      (a : Text) (v : ℤ) → lookup a s.balances ≡ some v → is_some (lookup a s.creation_time) ≡ true

opened_known :
    (t : ℤ) (a j : Text) (ts : ℤ) (s : Bank)
    → IsRegistered s
    → lookup j (open_account t a s).creation_time ≡ some ts
    → In (ts, pos 0) (events_of j (open_account t a s))
unfolding open_account
opened_known t a j ts s h e = elim (Bool-cases (text_eq a j)) [
  | inr y ↦
      In-record_event (ts, pos 0) a j t (pos 0) s.events
        (h.known j ts (
          ground
            (arith, e, y, lookup-insert a j (get_or t (lookup a s.creation_time)) s.creation_time)))
  | inl y ↦ elim (Option-cases (lookup a s.creation_time)) [
    | inr (u, g) ↦
        In-record_event (ts, pos 0) a j t (pos 0) s.events
          (h.known j ts (
            ground (
              arith,
              e,
              y,
              g,
              text_eq_iff a j,
              lookup-insert a j (get_or t (lookup a s.creation_time)) s.creation_time,
            )))
    | inl g ↦
        let same : t ≡ ts = ground (
          arith,
          e,
          y,
          g,
          lookup-insert a j (get_or t (lookup a s.creation_time)) s.creation_time,
        ) in
        subst (λ u. In (u, pos 0) (get_or [] (lookup j (record_event a t (pos 0) s.events)))) same
          (subst (λ k. In (t, pos 0) (get_or [] (lookup k (record_event a t (pos 0) s.events))))
            ((text_eq_iff a j).0 y) (In-record_event_self a t (pos 0) s.events))
  ]
]

IsRegistered-keeps : Keeps AnyCall IsRegistered
unfolding mark_processed mark_canceled debit open_account credit move_funds enlist absorb
IsRegistered-keeps = record {
  due = record {
    skip = λ k v b s e c y u h. record { known = h.known; live = h.live };
    pay = λ k v b s e c y l h. record {
      known = λ a ts g.
          In-record_event (ts, pos 0) v.account_id a v.due_timestamp (neg v.amount) s.events
            (h.known a ts g);
      live = λ j u g. ground (
        arith,
        h.live j u,
        h.live v.account_id b y,
        text_eq_iff v.account_id j,
        lookup-insert v.account_id j (b -ℤ v.amount) s.balances,
      );
    };
    queue = λ q s h. record { known = h.known; live = h.live };
  };
  calls = record {
    opened = λ t a s e h. record {
      known = λ j ts g. opened_known t a j ts s h g;
      live = λ j u g. ground (
        arith,
        h.live j u,
        lookup-insert a j (pos 0) s.balances,
        lookup-insert a j (get_or t (lookup a s.creation_time)) s.creation_time,
      );
    };
    credited = λ t a x v s ok e h. record {
      known = λ j ts g. In-record_event (ts, pos 0) a j t x s.events (h.known j ts g);
      live = λ j u g.
          ground (
            arith,
            h.live j u,
            h.live a v e,
            text_eq_iff a j,
            lookup-insert a j (v +ℤ x) s.balances,
          );
    };
    moved = λ t a b x v w s ok ne e y l h. record {
      known = λ j ts g.
          In-record_event (ts, pos 0) b j t x (record_event a t (neg x) s.events)
            (In-record_event (ts, pos 0) a j t (neg x) s.events (h.known j ts g));
      live = λ j u g. ground (
        arith,
        h.live j u,
        h.live a v e,
        h.live b w y,
        text_eq_iff a j,
        text_eq_iff b j,
        lookup-insert b j (w +ℤ x) (insert a (v -ℤ x) s.balances),
        lookup-insert a j (v -ℤ x) s.balances,
      );
    };
    enlisted = λ t a x d v s ok e h. record { known = h.known; live = h.live };
    canceled = λ k v s e p h. record { known = h.known; live = h.live };
    absorbed = λ t a b v w s ne e y h. record {
      known = λ j ts g.
          In-record_event (ts, pos 0) b j t (neg w) (record_event a t w s.events)
            (In-record_event (ts, pos 0) a j t w s.events (h.known j ts g));
      live = λ j u g. ground (
        arith,
        h.live j u,
        h.live a v e,
        text_eq_iff a j,
        lookup-erase b j (insert b (pos 0) (insert a (v +ℤ w) s.balances)),
        lookup-insert b j (pos 0) (insert a (v +ℤ w) s.balances),
        lookup-insert a j (v +ℤ w) s.balances,
      );
    };
  };
}

pub run-IsRegistered : (ops : List Operation) → IsRegistered (run ops empty)
unfolding lookup
run-IsRegistered ops = run-keeps IsRegistered-keeps ops empty (All-AnyCall ops) (record {
  known = λ a ts e. absurd (ground (arith, e));
  live = λ a v e. absurd (ground (arith, e));
})

-- Where all events are in time, the loop of GetBalance adds up all of them.
sum_until-eq-sum_deltas :
    (time_at acc : ℤ) (es : List (ℤ × ℤ))
    → All (λ e. e.0 ≤ℤ time_at) es
    → sum_until time_at acc es ≡ acc +ℤ sum_deltas es
unfolding sum_until
sum_until-eq-sum_deltas time_at acc [] h = omega int_laws
sum_until-eq-sum_deltas time_at acc ((ts, d) ∷ es) h =
    grind (int_laws, h.0, sum_until-eq-sum_deltas time_at (acc +ℤ d) es h.1)

In-All :
    (time_at : ℤ) (e : ℤ × ℤ) (es : List (ℤ × ℤ))
    → In e es
    → All (λ x. x.0 ≤ℤ time_at) es
    → e.0 ≤ℤ time_at
In-All time_at e [] m h = absurd m
In-All time_at e (x ∷ es) (inl p) h = subst (λ y. y.0 ≤ℤ time_at) p h.0
In-All time_at e (x ∷ es) (inr m) h = In-All time_at e es m h.1

sum_deltas-events_of :
    (ops : List Operation) (a : Text) (v : ℤ)
    → lookup a (run ops empty).balances ≡ some v
    → pos 0 +ℤ sum_deltas (events_of a (run ops empty)) ≡ v
unfolding history
sum_deltas-events_of ops a v e =
    zero_+ℤ _ ∙ sym (run-IsReconciled ops a) ∙ funds_of_some a v (run ops empty).balances e

-- After any calls from the empty bank, the answer of GetBalance for an account that is there, at a
-- time which no event of the account comes after, is its current balance.
pub balance_at_current :
    (ops : List Operation) (a : Text) (v time_at : ℤ)
    → lookup a (run ops empty).balances ≡ some v
    → All (λ e. e.0 ≤ℤ time_at) (events_of a (run ops empty))
    → balance_at a time_at (run ops empty) ≡ some v
unfolding balance_at merged_before created_by
balance_at_current ops a v time_at e h = elim (Option-cases (lookup a s.creation_time)) [
  | inl n ↦ absurd (ground (arith, n, registered.live a v e))
  | inr (ts, g) ↦ ground (
    arith,
    g,
    (run-IsForest ops).live a v e,
    In-All time_at (ts, pos 0) (events_of a s) (registered.known a ts g) h,
    sum_until-eq-sum_deltas time_at (pos 0) (events_of a s) h,
    sum_deltas-events_of ops a v e,
  )
]
  where
    s : Bank
    s = run ops empty

    registered : IsRegistered s
    registered = run-IsRegistered ops

-- After MergeAccounts has merged the second account away at a time, GetBalance has no answer for it
-- at a later time; at that time itself and before, it answers exactly if the account was created by
-- then.
pub balance_at-merge :
    (t : ℤ) (a b : Text) (time_at : ℤ) (s : Bank)
    → (merge_accounts t a b s).1 ≡ true
    → is_some (balance_at b time_at (merge_accounts t a b s).0)
      ≡ (if ltb_ℤ t time_at then false else created_by b time_at (process_due t s))
unfolding merge_accounts merge_accounts_now absorb balance_at merged_before created_by
balance_at-merge t a b time_at s h =
    ground (arith, lookup-insert b b (a, t) (process_due t s).merged, text_eq_refl b)
