-- ===== src/Core/Payments/Pending.antt =====
-- A payment that is still to be made belongs to an account that is there, so the branch of
-- processDuePayments for a missing account is never taken.
use cloud_storage_system.Base.{
  ap, get_or, ◌⊎◌, List, if◌then◌else◌, ◌≡◌, refl, false, true, none, some, arith, Bool-cases,
  Option-cases, inl, inr, is_some, [], ◌∷◌,
}
use cloud_storage_system.Base.Int.{ℤ, pos, ◌+ℤ◌, ◌-ℤ◌}
use cloud_storage_system.Base.Text.{Text, text_eq, text_eq_iff}
use cloud_storage_system.Base.Dict.{Dict, lookup, insert, erase, lookup-insert, lookup-erase}
use cloud_storage_system.Core.State.{PaymentInfo, Bank, empty}
use cloud_storage_system.Core.Due.{debit, mark_processed}
use cloud_storage_system.Core.Operations.{
  open_account, credit, move_funds, enlist, mark_canceled, absorb, reassign, reassign_one,
  payment_id, new_payment,
}
use cloud_storage_system.Core.Runs.{Keeps, AnyCall, All-AnyCall, Operation, run, run-keeps}

-- Neither made nor canceled.
abbrev pub IsPending : PaymentInfo → Type 0
IsPending info = (info.canceled ≡ false) × (info.processed ≡ false)

-- The payment is in the map and pending.
pub record Awaits (m : Dict PaymentInfo) (id : Text) (info : PaymentInfo) : Type 0 where
  pub found : lookup id m ≡ some info
  pub pending : IsPending info

-- Settling a payment takes it from those that are pending, and adds none.
pub Awaits-insert_processed :
    (k : Text) (v : PaymentInfo) {m : Dict PaymentInfo} {id : Text} {info : PaymentInfo}
    → Awaits (insert k (record v { processed = true }) m) id info
    → Awaits m id info × (text_eq k id ≡ false)
Awaits-insert_processed k v {m} {id} {info} w = elim (Bool-cases (text_eq k id)) [
  | inl e ↦
      absurd
        (ground (arith, w.found, w.pending, lookup-insert k id (record v { processed = true }) m))
  | inr e ↦ (
    record {
      found = ground (arith, w.found, lookup-insert k id (record v { processed = true }) m);
      pending = w.pending;
    },
    e,
  )
]

pub Awaits-insert_canceled :
    (k : Text) (v : PaymentInfo) {m : Dict PaymentInfo} {id : Text} {info : PaymentInfo}
    → Awaits (insert k (record v { canceled = true }) m) id info
    → Awaits m id info × (text_eq k id ≡ false)
Awaits-insert_canceled k v {m} {id} {info} w = elim (Bool-cases (text_eq k id)) [
  | inl e ↦
      absurd
        (ground (arith, w.found, w.pending, lookup-insert k id (record v { canceled = true }) m))
  | inr e ↦ (
    record {
      found = ground (arith, w.found, lookup-insert k id (record v { canceled = true }) m);
      pending = w.pending;
    },
    e,
  )
]

pub lookup-reassign :
    (a b id : Text) (m : Dict PaymentInfo)
    → lookup id (reassign a b m)
      ≡ elim (lookup id m) [ none ↦ none | some info ↦ some (reassign_one a b info) ]
unfolding lookup reassign
lookup-reassign a b id [] = refl
lookup-reassign a b id ((k, v) ∷ m) = ground (arith, lookup-reassign a b id m)

-- A payment that is pending after a merge was pending before it. It keeps its due time, and belongs
-- to the surviving account if it was the other's.
pub Awaits-reassign :
    (a b : Text) {m : Dict PaymentInfo} {id : Text} {info : PaymentInfo}
    → Awaits (reassign a b m) id info
    → (old : PaymentInfo) × Awaits m id old
      × (info.due_timestamp ≡ old.due_timestamp)
      × (info.account_id ≡ (if text_eq old.account_id b then a else old.account_id))
unfolding reassign_one
Awaits-reassign a b {m} {id} {info} w = elim (Option-cases (lookup id m)) [
  | inl e ↦ absurd (ground (arith, w.found, lookup-reassign a b id m))
  | inr (old, e) ↦ (
    old,
    record { found = e; pending = ground (arith, w.found, w.pending, lookup-reassign a b id m) },
    ground (arith, w.found, w.pending, lookup-reassign a b id m),
    ground (arith, w.found, w.pending, lookup-reassign a b id m),
  )
]

pub record ArePendingLive (s : Bank) : Type 0 where
  pub live :
      (id : Text) (info : PaymentInfo)
      → Awaits s.payments id info
      → is_some (lookup info.account_id s.balances) ≡ true

-- What a new payment id is given by SchedulePayment.
pub Awaits-enlist :
    (t : ℤ) (a : Text) (x d : ℤ) (s : Bank) {id : Text} {info : PaymentInfo}
    → Awaits (enlist t a x d s).payments id info
    → Awaits s.payments id info
      ⊎ ((lookup id s.payments ≡ none)
          × (text_eq (payment_id s.next_ordinal) id ≡ true)
          × (info ≡ new_payment t a x d s.next_ordinal))
unfolding enlist
Awaits-enlist t a x d s {id} {info} w =
    let k = payment_id s.next_ordinal in
    let fact =
      lookup-insert k id (get_or (new_payment t a x d s.next_ordinal) (lookup k s.payments))
        s.payments in
    elim (Bool-cases (text_eq k id)) [
      | inr e ↦ inl (record { found = ground (arith, w.found, fact); pending = w.pending })
      | inl e ↦ elim (Option-cases (lookup k s.payments)) [
        | inl n ↦ inr (rw (← (text_eq_iff k id).0 e) n, e, ground (arith, w.found, fact))
        | inr (old, y) ↦ inl (record {
          found = ground (arith, w.found, fact, text_eq_iff k id);
          pending = w.pending;
        })
      ]
    ]

absorbed-live :
    (a b j : Text) (v w : ℤ) (m : Dict ℤ)
    → text_eq a b ≡ false
    → is_some (lookup j m) ≡ true
    → is_some
        (lookup (if text_eq j b then a else j) (erase b (insert b (pos 0) (insert a (v +ℤ w) m))))
      ≡ true
absorbed-live a b j v w m ne h =
    let k = if text_eq j b then a else j in
    ground (
      arith,
      text_eq_iff a b,
      text_eq_iff b a,
      text_eq_iff j b,
      text_eq_iff b j,
      text_eq_iff a a,
      lookup-erase b k (insert b (pos 0) (insert a (v +ℤ w) m)),
      lookup-insert b k (pos 0) (insert a (v +ℤ w) m),
      lookup-insert a k (v +ℤ w) m,
    )

pub ArePendingLive-keeps : Keeps AnyCall ArePendingLive
unfolding mark_processed mark_canceled debit open_account credit move_funds enlist absorb
ArePendingLive-keeps = record {
  due = record {
    skip = λ k v b s e c y u h. record {
      live = λ id info w. h.live id info (Awaits-insert_processed k v w).0;
    };
    pay = λ k v b s e c y l h. record {
      live = λ id info w. ground (
        arith,
        h.live id info (Awaits-insert_processed k v w).0,
        lookup-insert v.account_id info.account_id (b -ℤ v.amount) s.balances,
      );
    };
    queue = λ q s h. record { live = h.live };
  };
  calls = record {
    opened = λ t a s e h. record {
      live = λ id info w.
          ground (arith, h.live id info w, lookup-insert a info.account_id (pos 0) s.balances);
    };
    credited = λ t a x v s ok e h. record {
      live = λ id info w.
          ground (arith, h.live id info w, lookup-insert a info.account_id (v +ℤ x) s.balances);
    };
    moved = λ t a b x v w s ok ne e y l h. record {
      live = λ id info g. ground (
        arith,
        h.live id info g,
        lookup-insert b info.account_id (w +ℤ x) (insert a (v -ℤ x) s.balances),
        lookup-insert a info.account_id (v -ℤ x) s.balances,
      );
    };
    enlisted = λ t a x d v s ok e h. record {
      live = λ id info w. elim (Awaits-enlist t a x d s w) [
        | inl old ↦ h.live id info old
        | inr (n, y, g) ↦ rw (ap (λ (i : PaymentInfo). i.account_id) g, e) refl
      ];
    };
    canceled = λ k v s e p h. record {
      live = λ id info w. h.live id info (Awaits-insert_canceled k v w).0;
    };
    absorbed = λ t a b v w s ne e y h. record {
      live = λ id info g.
          let (old, o, _, same) = Awaits-reassign a b g in
          rw same (absorbed-live a b old.account_id v w s.balances ne (h.live id old o));
    };
  };
}

pub not-Awaits-nil : (id : Text) (info : PaymentInfo) → ¬ Awaits [] id info
unfolding lookup
not-Awaits-nil id info w = ground (arith, w.found)

pub empty-ArePendingLive : ArePendingLive empty
empty-ArePendingLive = record { live = λ id info w. absurd (not-Awaits-nil id info w) }

-- After any calls from the empty bank, a payment that is neither made nor canceled belongs to an
-- account that is there.
pub run-ArePendingLive :
    (ops : List Operation) (id : Text) (info : PaymentInfo)
    → Awaits (run ops empty).payments id info
    → is_some (lookup info.account_id (run ops empty).balances) ≡ true
run-ArePendingLive ops =
    (run-keeps ArePendingLive-keeps ops empty (All-AnyCall ops) empty-ArePendingLive).live
