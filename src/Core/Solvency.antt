-- ===== src/Core/Solvency.antt =====
-- Balances stay between zero and the sum of all balances, if no deposit and no transfer has a
-- negative amount; and what a negative amount does, which the code does not refuse.
use cloud_storage_system.Base.{◌≢◌, subst, ◌≡◌, some, List, [], ◌∷◌, arith, Bool-cases, inl, inr}
use cloud_storage_system.Base.Int.{ℤ, pos, ◌+ℤ◌, ◌-ℤ◌, ◌≤ℤ◌, ◌<ℤ◌, int_laws, +ℤ_parts}
use cloud_storage_system.Base.Lists.{All}
use cloud_storage_system.Base.Text.{Text, text_eq, text_eq_iff}
use cloud_storage_system.Base.Dict.{Dict, lookup, insert, erase, lookup-insert}
use cloud_storage_system.Core.State.{Bank, empty}
use cloud_storage_system.Core.Due.{debit, mark_processed, process_due}
use cloud_storage_system.Core.Operations.{
  open_account, credit, move_funds, enlist, mark_canceled, absorb, transfer, transfer_now,
}
use cloud_storage_system.Core.Runs.{Keeps, Operation, deposits, transfers, run, run-keeps}
use cloud_storage_system.Core.Totals.{total}

-- No entry is negative.
abbrev pub AreNonNegative : Dict ℤ → Type 0
AreNonNegative [] = Unit
AreNonNegative ((_, v) ∷ m) = (pos 0 ≤ℤ v) × AreNonNegative m

insert-AreNonNegative :
    (k : Text) (v : ℤ) (m : Dict ℤ) → pos 0 ≤ℤ v → AreNonNegative m → AreNonNegative (insert k v m)
unfolding insert
insert-AreNonNegative k v [] p h = (p, tt)
insert-AreNonNegative k v ((j, w) ∷ m) p h = ground (arith, insert-AreNonNegative k v m p h.1)

erase-AreNonNegative : (k : Text) (m : Dict ℤ) → AreNonNegative m → AreNonNegative (erase k m)
unfolding erase
erase-AreNonNegative k [] h = tt
erase-AreNonNegative k ((j, w) ∷ m) h = ground (arith, erase-AreNonNegative k m h.1)

total_nonneg : (m : Dict ℤ) → AreNonNegative m → pos 0 ≤ℤ total m
total_nonneg [] h = omega arith
total_nonneg ((j, w) ∷ m) h = omega (arith, total_nonneg m h.1, +ℤ_parts w (total m))

pub lookup_nonneg :
    (k : Text) (v : ℤ) (m : Dict ℤ) → AreNonNegative m → lookup k m ≡ some v → pos 0 ≤ℤ v
unfolding lookup
lookup_nonneg k v [] h e = ground (arith, e)
lookup_nonneg k v ((j, w) ∷ m) h e = ground (arith, lookup_nonneg k v m h.1)

pub lookup-le-total :
    (k : Text) (v : ℤ) (m : Dict ℤ) → AreNonNegative m → lookup k m ≡ some v → v ≤ℤ total m
unfolding lookup
lookup-le-total k v [] h e = ground (arith, e)
lookup-le-total k v ((j, w) ∷ m) h e = elim (Bool-cases (text_eq j k)) [
  | inl y ↦
      let same : w ≡ v = ground (arith, e, y) in
      subst (λ u. u ≤ℤ total ((j, w) ∷ m)) same
        (omega (arith, total_nonneg m h.1, +ℤ_parts w (total m)))
  | inr y ↦
      let rest = lookup-le-total k v m h.1 (ground (arith, e, y)) in
      omega (arith, rest, h.0, +ℤ_parts w (total m))
]

-- The amount of a deposit or transfer is not negative.
abbrev pub IsProper : Operation → Type 0
IsProper (deposits t a x) = pos 0 ≤ℤ x
IsProper (transfers t a b x) = pos 0 ≤ℤ x
IsProper _ = Unit

pub record IsSolvent (s : Bank) : Type 0 where
  pub nonneg : AreNonNegative s.balances

IsSolvent-keeps : Keeps IsProper IsSolvent
unfolding mark_processed mark_canceled debit open_account credit move_funds enlist absorb
IsSolvent-keeps = record {
  due = record {
    skip = λ k v b s e c y u h. record { nonneg = h.nonneg };
    pay = λ k v b s e c y l h. record {
      nonneg = insert-AreNonNegative _ _ s.balances (omega int_laws) h.nonneg;
    };
    queue = λ q s h. record { nonneg = h.nonneg };
  };
  calls = record {
    opened = λ t a s e h. record {
      nonneg = insert-AreNonNegative _ _ s.balances (omega arith) h.nonneg;
    };
    credited = λ t a x v s ok e h. record {
      nonneg =
          insert-AreNonNegative _ _ s.balances
            (omega (arith, +ℤ_parts v x, lookup_nonneg a v s.balances h.nonneg e)) h.nonneg;
    };
    moved = λ t a b x v w s ok ne e y l h. record {
      nonneg =
          insert-AreNonNegative b _ _
            (omega (arith, +ℤ_parts w x, lookup_nonneg b w s.balances h.nonneg y))
            (insert-AreNonNegative a _ s.balances (omega int_laws) h.nonneg);
    };
    enlisted = λ t a x d v s ok e h. record { nonneg = h.nonneg };
    canceled = λ k v s e p h. record { nonneg = h.nonneg };
    absorbed = λ t a b v w s ne e y h. record {
      nonneg = erase-AreNonNegative b _ (
          insert-AreNonNegative b _ _ (omega arith) (
            insert-AreNonNegative a _ s.balances
              (omega (
                arith,
                +ℤ_parts v w,
                lookup_nonneg a v s.balances h.nonneg e,
                lookup_nonneg b w s.balances h.nonneg y,
              ))
              h.nonneg));
    };
  };
}

-- After any calls from the empty bank whose deposits and transfers have no negative amount, every
-- balance lies between 0 and the sum of all balances. So no balance is overdrawn, by due payments
-- neither, and none leaves the range of an int while the sum fits one.
pub run_bounds :
    (ops : List Operation) (a : Text) (v : ℤ)
    → All IsProper ops
    → lookup a (run ops empty).balances ≡ some v
    → (pos 0 ≤ℤ v) × (v ≤ℤ total (run ops empty).balances)
run_bounds ops a v ok e =
    (lookup_nonneg a v _ solvent.nonneg e, lookup-le-total a v _ solvent.nonneg e)
  where
    solvent : IsSolvent (run ops empty)
    solvent = run-keeps IsSolvent-keeps ops empty ok (record { nonneg = tt })

-- A transfer of a negative amount between two accounts that are there, where the source is not
-- overdrawn, is carried out: it takes the amount from the target, whatever the target holds.
pub transfer_negative :
    (t : ℤ) (a b : Text) (x v w : ℤ) (s : Bank)
    → a ≢ b
    → lookup a (process_due t s).balances ≡ some v
    → lookup b (process_due t s).balances ≡ some w
    → pos 0 ≤ℤ v
    → x <ℤ pos 0
    → ((transfer t a b x s).1 ≡ some (v -ℤ x))
      × (lookup b (transfer t a b x s).0.balances ≡ some (w +ℤ x))
      × (v <ℤ v -ℤ x)
      × (w +ℤ x <ℤ w)
unfolding transfer transfer_now move_funds
transfer_negative t a b x v w s ne e y p n =
    let m = (process_due t s).balances in
    (
      ground (arith, text_eq_iff a b),
      ground (
        arith,
        text_eq_iff a b,
        text_eq_iff b b,
        lookup-insert b b (w +ℤ x) (insert a (v -ℤ x) m),
      ),
      omega int_laws,
      omega int_laws,
    )
