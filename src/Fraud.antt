-- ===== src/Fraud.antt =====
-- FraudDetectionAgent (ai/fraud_detection_agent.cpp): the numbers it computes with, its results and the
-- histories of accounts.
pub mod Scores
pub mod Agent
pub mod Window
mod Tests
use cloud_storage_system.Base.{
  ℕ, suc, ◌+◌, ◌≡◌, refl, Bool, true, false, ◌&&◌, not, Option, none, some, List, [], ◌∷◌, ◌++◌,
  ltb, leb, if◌then◌else◌, get_or,
}
use cloud_storage_system.Base.Int.{ℤ, pos, ◌+ℤ◌, ◌-ℤ◌, ltb_ℤ}
use cloud_storage_system.Base.Lists.{length}
use cloud_storage_system.Base.Text.{Text}
use cloud_storage_system.Base.Dict.{Dict, lookup, insert}
use cloud_storage_system.Server.{TransactionData}

-- What the code uses of double: literals, given in thousandths, the conversions from int and size_t,
-- arithmetic, std::abs and the comparisons.
pub record Floats (N : Type 0) : Type 0 where
  pub literal : ℕ → N
  pub of_int : ℤ → N
  pub of_size : ℕ → N
  pub add : N → N → N
  pub subtract : N → N → N
  pub multiply : N → N → N
  pub divide : N → N → N
  pub absolute : N → N
  pub lt : N → N → Bool
  pub le : N → N → Bool
  pub eq : N → N → Bool

-- struct FraudResult
pub record FraudResult (N : Type 0) : Type 0 where
  pub risk_score : N
  pub risk_factors : List Text
  pub recommendation : Text
  pub confidence_level : ℤ

-- struct AccountHistory; `last_update` is a reading of the clock.
pub record AccountHistory (N : Type 0) : Type 0 where
  pub recent_transactions : List TransactionData
  pub last_update : ℕ
  pub average_transaction_amount : N
  pub transaction_frequency_per_hour : N
  pub location_counts : Dict ℤ
  pub ip_counts : Dict ℤ

-- `while (recent_transactions.size() > 1000) recent_transactions.pop_front()`
unfoldable pub trim : List TransactionData → List TransactionData
trim [] = []
trim (t ∷ ts) = if ltb 1000 (length (t ∷ ts)) then trim ts else t ∷ ts

-- `counts[key]++` for a key that is not empty
unfoldable pub count_key : Text → Dict ℤ → Dict ℤ
count_key [] counts = counts
count_key (c ∷ cs) counts =
    insert (c ∷ cs) (get_or (pos 0) (lookup (c ∷ cs) counts) +ℤ pos 1) counts

unfoldable pub last_time : ℤ → List TransactionData → ℤ
last_time time [] = time
last_time time (t ∷ ts) = last_time t.timestamp ts

-- The time between the first and the last transaction, where there are two.
unfoldable pub time_span : List TransactionData → Option ℤ
time_span [] = none
time_span (t ∷ []) = none
time_span (t ∷ u ∷ ts) = some (last_time u.timestamp ts -ℤ t.timestamp)

module _ {N : Type 0} (floats : Floats N) where
  open floats use {literal, of_int, of_size, add, subtract, multiply, divide, absolute, lt, le, eq}

  -- std::min and std::max
  unfoldable pub min_float : N → N → N
  min_float a b = if lt b a then b else a

  unfoldable pub max_float : N → N → N
  max_float a b = if lt a b then b else a

  -- isFraudulent and needsReview
  unfoldable pub is_fraudulent : FraudResult N → Bool
  is_fraudulent result = lt (literal 700) result.risk_score

  unfoldable pub needs_review : FraudResult N → Bool
  needs_review result = lt (literal 400) result.risk_score && le result.risk_score (literal 700)

  unfoldable pub total_amount : N → List TransactionData → N
  total_amount total [] = total
  total_amount total (t ∷ ts) = total_amount (add total (of_int t.amount)) ts

  unfoldable pub frequency_of : N → List TransactionData → N
  frequency_of old recent = elim (time_span recent) [
    | none ↦ old
    | some span ↦
        if ltb_ℤ (pos 0) span
        then divide (multiply (of_size (length recent)) (literal 3600000)) (of_int span)
        else old
  ]

  -- AccountHistory as it starts, and addTransaction at a reading of the clock.
  abbrev pub new_history : ℕ → AccountHistory N
  new_history now = record {
    recent_transactions = [];
    last_update = now;
    average_transaction_amount = literal 0;
    transaction_frequency_per_hour = literal 0;
    location_counts = [];
    ip_counts = [];
  }

  unfoldable pub update_statistics :
      TransactionData → List TransactionData → AccountHistory N → AccountHistory N
  update_statistics tx [] h = h
  update_statistics tx (t ∷ ts) h = record h {
    average_transaction_amount =
        divide (total_amount (literal 0) (t ∷ ts)) (of_size (length (t ∷ ts)));
    location_counts = count_key tx.location h.location_counts;
    ip_counts = count_key tx.source_ip h.ip_counts;
    transaction_frequency_per_hour = frequency_of h.transaction_frequency_per_hour (t ∷ ts);
  }

  unfoldable pub add_transaction : ℕ → TransactionData → AccountHistory N → AccountHistory N
  add_transaction now tx h =
      let recent = trim (h.recent_transactions ++ tx ∷ []) in
      record (update_statistics tx recent (record h { recent_transactions = recent })) {
        last_update = now;
      }

  -- cleanupOldTransactions
  unfoldable pub drop_before : ℤ → List TransactionData → List TransactionData
  drop_before cutoff_time [] = []
  drop_before cutoff_time (t ∷ ts) =
      if ltb_ℤ t.timestamp cutoff_time then drop_before cutoff_time ts else t ∷ ts

  unfoldable pub cleanup_old_transactions : ℤ → AccountHistory N → AccountHistory N
  cleanup_old_transactions current_timestamp h = record h {
    recent_transactions = drop_before (current_timestamp -ℤ pos 3600) h.recent_transactions;
  }
