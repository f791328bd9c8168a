-- ===== src/Core/Merges.antt =====
-- The merge edges as a forest, and what rootAtTime and GetBalance find in it.
use cloud_storage_system.Base.{
  ◌<◌, List, not, ℕ, zero, suc, ◌≡◌, refl, Bool, true, none, some, arith, inl, inr, Bool-cases,
}
use cloud_storage_system.Base.Int.{◌+ℤ◌, pos, ◌-ℤ◌, ℤ, leb_ℤ}
use cloud_storage_system.Base.Text.{Text, text_eq_iff}
use cloud_storage_system.Base.Dict.{Dict, lookup, insert, lookup-insert, lookup-erase}
use cloud_storage_system.Core.State.{Bank, empty}
use cloud_storage_system.Core.Due.{debit, mark_processed, process_due}
use cloud_storage_system.Core.Operations.{
  open_account, credit, move_funds, enlist, mark_canceled, absorb, root_at_time, balance_at,
  get_balance,
}
use cloud_storage_system.Core.Keeps.{KeepsDue, process_due-keeps}
use cloud_storage_system.Core.Forest.{
  top, Rooted, Rooted-insert, Rooted-erase, HasHeight, owner, merged_into, Rooted-HasHeight,
  HasHeight-bound,
}
use cloud_storage_system.Base.Lists.{length}
use cloud_storage_system.Core.Runs.{Keeps, AnyCall, All-AnyCall, Operation, run, run-keeps}

-- The account was not merged into another one by the time.
pub owns_at : Dict (Text × ℤ) → Text → ℤ → Bool
owns_at m a time_at = elim (lookup a m) [ none ↦ true | some (_, ts) ↦ not (leb_ℤ ts time_at) ]

-- rootAtTime returns, and what it returns was not merged by the time.
abbrev pub Finds : Dict (Text × ℤ) → Text → ℤ → ℕ → Type 0
Finds m a time_at f =
    (r : Text) × (root_at_time f m a time_at ≡ some r) × (owns_at m r time_at ≡ true)

pub root_at_time-Finds :
    (time_at : ℤ) {m : Dict (Text × ℤ)} {a : Text} (n f : ℕ)
    → HasHeight m n a
    → n < f
    → Finds m a time_at f
unfolding root_at_time owns_at
root_at_time-Finds time_at n zero h lt = absurd (omega arith)
root_at_time-Finds time_at {m} {a} zero (suc f) (owner e) lt =
    (a, rw (e, root_at_time), rw (e, owns_at))
root_at_time-Finds time_at {m} {a} (suc n) (suc f) (merged_into {p = p} {t = t} e h) lt =
    elim (Bool-cases (leb_ℤ t time_at)) [
      | inl y ↦
          let (r, g, o) = root_at_time-Finds time_at n f h (omega arith) in
          (r, rw (e, root_at_time, y) g, o)
      | inr y ↦ (a, rw (e, root_at_time, y), rw (e, owns_at, y))
    ]

-- Every chain of merges ends, and an account that is there is not merged.
pub record IsForest (s : Bank) : Type 0 where
  pub rooted : (a : Text) → Rooted s.merged a
  pub live : (a : Text) (v : ℤ) → lookup a s.balances ≡ some v → lookup a s.merged ≡ none

pub IsForest-keeps : Keeps AnyCall IsForest
unfolding mark_processed mark_canceled debit open_account credit move_funds enlist absorb
IsForest-keeps = record {
  due = record {
    skip = λ id info b s e c y u h. record { rooted = h.rooted; live = h.live };
    pay = λ id info b s e c y l h. record {
      rooted = h.rooted;
      live = λ j u g. ground (
        arith,
        h.live j u,
        h.live info.account_id b y,
        text_eq_iff info.account_id j,
        lookup-insert info.account_id j (b -ℤ info.amount) s.balances,
      );
    };
    queue = λ q s h. record { rooted = h.rooted; live = h.live };
  };
  calls = record {
    opened = λ t a s e h. record {
      rooted = λ j. Rooted-erase a (h.rooted j);
      live = λ j u g.
          ground
            (arith, h.live j u, lookup-erase a j s.merged, lookup-insert a j (pos 0) s.balances);
    };
    credited = λ t a x v s ok e h. record {
      rooted = h.rooted;
      live = λ j u g.
          ground (
            arith,
            h.live j u,
            h.live a v e,
            text_eq_iff a j,
            lookup-insert a j (v +ℤ x) s.balances,
          );
    };
    moved = λ t a b x v w s ok ne e y l h. record {
      rooted = h.rooted;
      live = λ j u g. ground (
        arith,
        h.live j u,
        h.live a v e,
        h.live b w y,
        text_eq_iff a j,
        text_eq_iff b j,
        lookup-insert b j (w +ℤ x) (insert a (v -ℤ x) s.balances),
        lookup-insert a j (v -ℤ x) s.balances,
      );
    };
    enlisted = λ t a x d v s ok e h. record { rooted = h.rooted; live = h.live };
    canceled = λ id info s e p h. record { rooted = h.rooted; live = h.live };
    absorbed = λ t a b v w s ne e y h. record {
      rooted = λ j. Rooted-insert b a t ne (h.live b w y) (h.live a v e) (h.rooted j);
      live = λ j u g. ground (
        arith,
        h.live j u,
        h.live a v e,
        text_eq_iff a j,
        lookup-insert b j (a, t) s.merged,
        lookup-erase b j (insert b (pos 0) (insert a (v +ℤ w) s.balances)),
        lookup-insert b j (pos 0) (insert a (v +ℤ w) s.balances),
        lookup-insert a j (v +ℤ w) s.balances,
      );
    };
  };
}

empty-IsForest : IsForest empty
unfolding lookup
empty-IsForest = record { rooted = λ a. top refl; live = λ a v e. cc }

pub run-IsForest : (ops : List Operation) → IsForest (run ops empty)
run-IsForest ops = run-keeps IsForest-keeps ops empty (All-AnyCall ops) empty-IsForest

merged-KeepsDue : (m : Dict (Text × ℤ)) → KeepsDue (λ s. s.merged ≡ m)
unfolding mark_processed debit
merged-KeepsDue m = record {
  skip = λ id info b s e c y u h. h;
  pay = λ id info b s e c y l h. h;
  queue = λ q s h. h;
}

-- After any calls from the empty bank, whatever the account and the time that are asked for,
-- GetBalance returns for every fuel above the number of accounts that are merged: it leaves the
-- state after the due payments and answers from that state.
pub get_balance_returns :
    (ops : List Operation) (t : ℤ) (a : Text) (time_at : ℤ) (fuel : ℕ)
    → let s = run ops empty in
      length s.merged < fuel
      → get_balance fuel t a time_at s
        ≡ some (process_due t s, balance_at a time_at (process_due t s))
unfolding get_balance
get_balance_returns ops t a time_at fuel lt =
    let s = run ops empty in
    let forest = process_due-keeps IsForest-keeps.due t s (run-IsForest ops) in
    let same = process_due-keeps (merged-KeepsDue s.merged) t s refl in
    let (n, h) = Rooted-HasHeight (forest.rooted a) in
    let bound = HasHeight-bound n h in
    let (r, e, o) = root_at_time-Finds time_at n fuel h (grind arith) in rw (e, get_balance)
