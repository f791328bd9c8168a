-- ===== src/Core/History.antt =====
-- The events that GetBalance adds up agree with the current balances.
use cloud_storage_system.Base.{
  false, ◌≡◌, refl, none, some, List, [], ◌∷◌, ◌++◌, arith, if◌then◌else◌, get_or, Bool-cases, inl,
  inr,
}
use cloud_storage_system.Base.Int.{ℤ, pos, ◌+ℤ◌, int_laws}
use cloud_storage_system.Base.Text.{Text, text_eq, text_eq_iff}
use cloud_storage_system.Base.Dict.{Dict, lookup, insert, erase, lookup-insert, lookup-erase}
use cloud_storage_system.Core.State.{empty, Bank, record_event}
use cloud_storage_system.Core.Due.{debit, mark_processed}
use cloud_storage_system.Core.Operations.{
  open_account, credit, move_funds, enlist, mark_canceled, absorb,
}
use cloud_storage_system.Core.Runs.{Keeps, AnyCall, All-AnyCall, Operation, run, run-keeps}
use cloud_storage_system.Base.Int.{neg, ◌-ℤ◌}

abbrev pub sum_deltas : List (ℤ × ℤ) → ℤ
sum_deltas [] = pos 0
sum_deltas ((_, d) ∷ es) = d +ℤ sum_deltas es

pub sum_deltas-append :
    (es : List (ℤ × ℤ)) (t d : ℤ) → sum_deltas (es ++ (t, d) ∷ []) ≡ sum_deltas es +ℤ d
sum_deltas-append [] t d = omega int_laws
sum_deltas-append ((u, c) ∷ es) t d = grind (int_laws, sum_deltas-append es t d)

-- What the map of balances holds for an account; 0 where it holds nothing.
unfoldable pub funds : Text → Dict ℤ → ℤ
funds a m = get_or (pos 0) (lookup a m)

-- The sum of all the events of an account.
unfoldable pub history : Text → Dict (List (ℤ × ℤ)) → ℤ
history a events = sum_deltas (get_or [] (lookup a events))

pub funds-insert :
    (a j : Text) (v : ℤ) (m : Dict ℤ)
    → funds j (insert a v m) ≡ (if text_eq a j then v else funds j m)
unfolding funds
funds-insert a j v m = ground (arith, lookup-insert a j v m)

pub funds-erase :
    (a j : Text) (m : Dict ℤ) → funds j (erase a m) ≡ (if text_eq a j then pos 0 else funds j m)
unfolding funds
funds-erase a j m = ground (arith, lookup-erase a j m)

pub funds_of_some : (a : Text) (v : ℤ) (m : Dict ℤ) → lookup a m ≡ some v → funds a m ≡ v
unfolding funds
funds_of_some a v m e = rw e

pub funds_of_none : (a : Text) (m : Dict ℤ) → lookup a m ≡ none → funds a m ≡ pos 0
unfolding funds
funds_of_none a m e = rw e

pub history-record :
    (a j : Text) (t d : ℤ) (events : Dict (List (ℤ × ℤ)))
    → history j (record_event a t d events)
      ≡ (if text_eq a j then history j events +ℤ d else history j events)
unfolding history record_event
history-record a j t d events = elim (Bool-cases (text_eq a j)) [
  | inl e ↦ rw (lookup-insert a j, e, (text_eq_iff a j).0 e) (sum_deltas-append _ t d)
  | inr e ↦ rw (lookup-insert a j, e) refl
]

-- The events of every account add up to its balance.
pub record IsReconciled (s : Bank) : Type 0 where
  pub agree : (j : Text) → funds j s.balances ≡ history j s.events

-- Moving a sum, seen from one account `j`.
moved-agree :
    (j a b : Text) (t x v w : ℤ) (m : Dict ℤ) (events : Dict (List (ℤ × ℤ)))
    → text_eq a b ≡ false
    → lookup a m ≡ some v
    → lookup b m ≡ some w
    → funds j m ≡ history j events
    → funds j (insert b (w +ℤ x) (insert a (v -ℤ x) m))
      ≡ history j (record_event b t x (record_event a t (neg x) events))
moved-agree j a b t x v w m events ne e y h = grind (
  int_laws,
  text_eq_iff a j,
  text_eq_iff b j,
  text_eq_iff a b,
  funds-insert b j (w +ℤ x) (insert a (v -ℤ x) m),
  funds-insert a j (v -ℤ x) m,
  history-record b j t x (record_event a t (neg x) events),
  history-record a j t (neg x) events,
  funds_of_some a v m e,
  funds_of_some b w m y,
)

absorbed-agree :
    (j a b : Text) (t v w : ℤ) (m : Dict ℤ) (events : Dict (List (ℤ × ℤ)))
    → text_eq a b ≡ false
    → lookup a m ≡ some v
    → lookup b m ≡ some w
    → funds j m ≡ history j events
    → funds j (erase b (insert b (pos 0) (insert a (v +ℤ w) m)))
      ≡ history j (record_event b t (neg w) (record_event a t w events))
absorbed-agree j a b t v w m events ne e y h = grind (
  int_laws,
  text_eq_iff a j,
  text_eq_iff b j,
  text_eq_iff a b,
  funds-erase b j (insert b (pos 0) (insert a (v +ℤ w) m)),
  funds-insert b j (pos 0) (insert a (v +ℤ w) m),
  funds-insert a j (v +ℤ w) m,
  history-record b j t (neg w) (record_event a t w events),
  history-record a j t w events,
  funds_of_some a v m e,
  funds_of_some b w m y,
)

pub IsReconciled-keeps : Keeps AnyCall IsReconciled
unfolding mark_processed mark_canceled debit open_account credit move_funds enlist absorb
IsReconciled-keeps = record {
  due = record {
    skip = λ id info b s e c y u h. record { agree = h.agree };
    pay = λ id info b s e c y l h. record {
      agree = λ j. grind (
        int_laws,
        h.agree j,
        text_eq_iff info.account_id j,
        funds-insert info.account_id j (b -ℤ info.amount) s.balances,
        history-record info.account_id j info.due_timestamp (neg info.amount) s.events,
        funds_of_some info.account_id b s.balances y,
      );
    };
    queue = λ q s h. record { agree = h.agree };
  };
  calls = record {
    opened = λ t a s e h. record {
      agree = λ j. grind (
        int_laws,
        h.agree j,
        text_eq_iff a j,
        funds-insert a j (pos 0) s.balances,
        history-record a j t (pos 0) s.events,
        funds_of_none a s.balances e,
      );
    };
    credited = λ t a x v s ok e h. record {
      agree = λ j. grind (
        int_laws,
        h.agree j,
        text_eq_iff a j,
        funds-insert a j (v +ℤ x) s.balances,
        history-record a j t x s.events,
        funds_of_some a v s.balances e,
      );
    };
    moved = λ t a b x v w s ok ne e y l h. record {
      agree = λ j. moved-agree j a b t x v w s.balances s.events ne e y (h.agree j);
    };
    enlisted = λ t a x d v s ok e h. record { agree = h.agree };
    canceled = λ id info s e p h. record { agree = h.agree };
    absorbed = λ t a b v w s ne e y h. record {
      agree = λ j. absorbed-agree j a b t v w s.balances s.events ne e y (h.agree j);
    };
  };
}

-- After any calls from the empty bank, the recorded events of every account add up to its balance,
-- and to 0 where the account is not there.
pub run-IsReconciled :
    (ops : List Operation) (j : Text)
    → funds j (run ops empty).balances ≡ history j (run ops empty).events
unfolding history funds lookup
run-IsReconciled ops j =
    (run-keeps IsReconciled-keeps ops empty (All-AnyCall ops) empty-IsReconciled).agree j
  where
    empty-IsReconciled : IsReconciled empty
    empty-IsReconciled = record { agree = λ j. refl }
