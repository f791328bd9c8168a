-- ===== src/Core/State.antt =====
-- The private state of class BankingSystemImpl (banking_core_impl.hpp).
use cloud_storage_system.Base.{ℕ, Bool, List, [], ◌∷◌, ◌++◌, if◌then◌else◌, get_or}
use cloud_storage_system.Base.Int.{ℤ, pos, ◌+ℤ◌, ltb_ℤ}
use cloud_storage_system.Base.Text.{Text}
use cloud_storage_system.Base.Dict.{Dict, lookup, insert}

-- struct PaymentInfo
pub record PaymentInfo : Type 0 where
  pub account_id : Text
  pub amount : ℤ
  pub due_timestamp : ℤ
  pub canceled : Bool
  pub processed : Bool
  pub creation_order : ℕ

-- `due` is a std::map: its keys ascend. `deletion_times` is declared and never written.
pub record Bank : Type 0 where
  pub balances : Dict ℤ
  pub outgoing : Dict ℤ
  pub next_ordinal : ℕ
  pub payments : Dict PaymentInfo
  pub due : List (ℤ × List Text)
  pub events : Dict (List (ℤ × ℤ))
  pub merged : Dict (Text × ℤ)
  pub creation_time : Dict ℤ
  pub creation_times : Dict (List ℤ)
  pub deletion_times : Dict (List ℤ)

abbrev pub empty : Bank
empty = record {
  balances = [];
  outgoing = [];
  next_ordinal = 1;
  payments = [];
  due = [];
  events = [];
  merged = [];
  creation_time = [];
  creation_times = [];
  deletion_times = [];
}

-- balanceEvents_[account].emplace_back(timestamp, delta)
unfoldable pub record_event : Text → ℤ → ℤ → Dict (List (ℤ × ℤ)) → Dict (List (ℤ × ℤ))
record_event a ts delta events = insert a (get_or [] (lookup a events) ++ (ts, delta) ∷ []) events

-- accountOutgoing_[account] += amount
unfoldable pub add_outgoing : Text → ℤ → Dict ℤ → Dict ℤ
add_outgoing a amount outgoing = insert a (get_or (pos 0) (lookup a outgoing) +ℤ amount) outgoing

-- dueTimeToPaymentIds_[due].push_back(id)
unfoldable pub push_due : ℤ → Text → List (ℤ × List Text) → List (ℤ × List Text)
push_due d id [] = (d, id ∷ []) ∷ []
push_due d id ((e, ids) ∷ q) =
    if ltb_ℤ d e
    then (d, id ∷ []) ∷ (e, ids) ∷ q
    else (if ltb_ℤ e d then (e, ids) ∷ push_due d id q else (e, ids ++ id ∷ []) ∷ q)
