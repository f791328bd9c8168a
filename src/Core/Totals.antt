-- ===== src/Core/Totals.antt =====
-- The sum of the balances, and of the outgoing amounts, under each operation.
use cloud_storage_system.Base.{
  subst, ◌≡◌, refl, false, none, some, List, [], ◌∷◌, arith, inl, inr, Bool-cases, ◌∙◌,
}
use cloud_storage_system.Base.Int.{ℤ, pos, ◌+ℤ◌, ◌-ℤ◌, int_laws}
use cloud_storage_system.Base.Text.{Text, text_eq, text_eq_iff}
use cloud_storage_system.Base.Dict.{Dict, lookup, insert, erase, lookup-insert, lookup-erase}
use cloud_storage_system.Core.State.{PaymentInfo, Bank, empty, add_outgoing}
use cloud_storage_system.Core.Due.{debit, mark_processed, process_due}
use cloud_storage_system.Core.Operations.{
  open_account, credit, move_funds, enlist, mark_canceled, absorb,
}
use cloud_storage_system.Core.Keeps.{KeepsDue, process_due-keeps}
use cloud_storage_system.Core.Runs.{Keeps, AnyCall, All-AnyCall, Operation, run, run-keeps}
use cloud_storage_system.Core.History.{funds, funds-insert, funds_of_some}

abbrev pub total : Dict ℤ → ℤ
total [] = pos 0
total ((_, v) ∷ m) = v +ℤ total m

-- No key stands twice.
abbrev pub IsUnique {ℓ} : {V : Type ℓ} → Dict V → Type ℓ
IsUnique [] = Unit
IsUnique ((k, _) ∷ m) = (lookup k m ≡ none) × IsUnique m

pub insert-IsUnique : (k : Text) (v : ℤ) (m : Dict ℤ) → IsUnique m → IsUnique (insert k v m)
unfolding lookup insert
insert-IsUnique k v [] h = (refl, tt)
insert-IsUnique k v ((j, w) ∷ m) h = elim (Bool-cases (text_eq j k)) [
  | inl e ↦ ground (arith, text_eq_iff j k)
  | inr e ↦
      ground
        (arith, lookup-insert k j v m, text_eq_iff j k, text_eq_iff k j, insert-IsUnique k v m h.1)
]

pub erase-IsUnique : (k : Text) (m : Dict ℤ) → IsUnique m → IsUnique (erase k m)
unfolding lookup erase
erase-IsUnique k [] h = tt
erase-IsUnique k ((j, w) ∷ m) h = ground (arith, lookup-erase k j m, erase-IsUnique k m h.1)

pub total-insert :
    (k : Text) (v : ℤ) (m : Dict ℤ) → total (insert k v m) +ℤ funds k m ≡ total m +ℤ v
unfolding lookup insert funds
total-insert k v [] = omega int_laws
total-insert k v ((j, w) ∷ m) = elim (Bool-cases (text_eq j k)) [
  | inl e ↦ rw e (omega int_laws)
  | inr e ↦ rw e (grind (int_laws, total-insert k v m))
]

erase_missing : (k : Text) (m : Dict ℤ) → lookup k m ≡ none → erase k m ≡ m
unfolding lookup erase
erase_missing k [] h = refl
erase_missing k ((j, w) ∷ m) h = ground (arith, erase_missing k m)

pub total-erase : (k : Text) (m : Dict ℤ) → IsUnique m → total (erase k m) +ℤ funds k m ≡ total m
unfolding lookup erase funds
total-erase k [] h = omega int_laws
total-erase k ((j, w) ∷ m) h = elim (Bool-cases (text_eq j k)) [
  | inl e ↦
      rw (e, erase_missing k m (subst (λ i. lookup i m ≡ none) ((text_eq_iff j k).0 e) h.0))
        (omega int_laws)
  | inr e ↦ rw e (grind (int_laws, total-erase k m h.1))
]

-- The keys of both maps are unique, as a std::unordered_map guarantees.
pub record IsUniqueBank (s : Bank) : Type 0 where
  pub balances : IsUnique s.balances
  pub outgoing : IsUnique s.outgoing

pub IsUniqueBank-keeps : Keeps AnyCall IsUniqueBank
unfolding mark_processed mark_canceled debit open_account credit move_funds enlist absorb
    add_outgoing
IsUniqueBank-keeps = record {
  due = record {
    skip = λ id info b s e c y u h. record { balances = h.balances; outgoing = h.outgoing };
    pay = λ id info b s e c y l h. record {
      balances = insert-IsUnique _ _ s.balances h.balances;
      outgoing = insert-IsUnique _ _ s.outgoing h.outgoing;
    };
    queue = λ q s h. record { balances = h.balances; outgoing = h.outgoing };
  };
  calls = record {
    opened = λ t a s e h. record {
      balances = insert-IsUnique _ _ s.balances h.balances;
      outgoing = h.outgoing;
    };
    credited = λ t a x v s ok e h. record {
      balances = insert-IsUnique _ _ s.balances h.balances;
      outgoing = h.outgoing;
    };
    moved = λ t a b x v w s ok ne e y l h. record {
      balances = insert-IsUnique b _ _ (insert-IsUnique a _ s.balances h.balances);
      outgoing = insert-IsUnique _ _ s.outgoing h.outgoing;
    };
    enlisted = λ t a x d v s ok e h. record { balances = h.balances; outgoing = h.outgoing };
    canceled = λ id info s e p h. record { balances = h.balances; outgoing = h.outgoing };
    absorbed = λ t a b v w s ne e y h. record {
      balances =
          erase-IsUnique b _ (insert-IsUnique b _ _ (insert-IsUnique a _ s.balances h.balances));
      outgoing = erase-IsUnique b _ (insert-IsUnique a _ s.outgoing h.outgoing);
    };
  };
}

pub run-IsUniqueBank : (ops : List Operation) → IsUniqueBank (run ops empty)
run-IsUniqueBank ops =
    run-keeps IsUniqueBank-keeps ops empty (All-AnyCall ops)
      (record { balances = tt; outgoing = tt })

pub total-move :
    (a b : Text) (x v w : ℤ) (m : Dict ℤ)
    → text_eq a b ≡ false
    → lookup a m ≡ some v
    → lookup b m ≡ some w
    → total (insert b (w +ℤ x) (insert a (v -ℤ x) m)) ≡ total m
total-move a b x v w m ne e y = grind (
  int_laws,
  funds_of_some a v m e,
  funds_of_some b w m y,
  total-insert b (w +ℤ x) (insert a (v -ℤ x) m),
  total-insert a (v -ℤ x) m,
  funds-insert a b (v -ℤ x) m,
)

-- A payment takes from the balances what it adds to the outgoing amounts.
pub debit-total :
    (info : PaymentInfo) (b : ℤ) (s : Bank)
    → lookup info.account_id s.balances ≡ some b
    → total (debit info b s).balances +ℤ total (debit info b s).outgoing
      ≡ total s.balances +ℤ total s.outgoing
unfolding debit add_outgoing funds
debit-total info b s e =
    let k = info.account_id in
    grind (
      int_laws,
      funds_of_some k b s.balances e,
      total-insert k (b -ℤ info.amount) s.balances,
      total-insert k (funds k s.outgoing +ℤ info.amount) s.outgoing,
    )

-- What the balances and the outgoing amounts add up to together.
abbrev pub turnover : Bank → ℤ
turnover s = total s.balances +ℤ total s.outgoing

-- A property of one payment that holds for all that processDuePayments makes.
pub record HasTurnover (x : ℤ) (s : Bank) : Type 0 where
  pub sum : turnover s ≡ x

HasTurnover-keeps : (x : ℤ) → KeepsDue (HasTurnover x)
unfolding mark_processed
HasTurnover-keeps x = record {
  skip = λ id info b s e c y u h. record { sum = h.sum };
  pay = λ id info b s e c y l h. record { sum = debit-total info b s y ∙ h.sum };
  queue = λ q s h. record { sum = h.sum };
}

-- Processing the due payments takes from the balances, in all, exactly what it adds to the outgoing
-- amounts, whatever the state.
pub process_due-turnover : (t : ℤ) (s : Bank) → turnover (process_due t s) ≡ turnover s
process_due-turnover t s =
    (process_due-keeps (HasTurnover-keeps (turnover s)) t s (record { sum = refl })).sum
