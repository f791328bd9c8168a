-- ===== src/Fraud/Scores.antt =====
-- The scores of FraudDetectionAgent and performAnalysis (ai/fraud_detection_agent.cpp), over the
-- histories of the accounts and the thresholds.
pub mod Recommendations
use cloud_storage_system.Base.{
  ℕ, ◌+◌, Bool, true, false, Option, none, some, List, [], ◌∷◌, ◌++◌, if◌then◌else◌,
}
use cloud_storage_system.Base.Int.{ℤ, pos, ◌+ℤ◌, ◌-ℤ◌, leb_ℤ}
use cloud_storage_system.Base.Text.{Text, text, text_eq}
use cloud_storage_system.Base.Dict.{Dict, lookup}
use cloud_storage_system.Core.Spenders.{eq_ℤ}
use cloud_storage_system.Server.{TransactionData}
use cloud_storage_system.Fraud.{Floats, FraudResult, AccountHistory, min_float, max_float}

-- What performAnalysis reads.
pub record Model (N : Type 0) : Type 0 where
  pub account_histories : Dict (AccountHistory N)
  pub amount_anomaly_threshold : N
  pub frequency_anomaly_threshold : N
  pub velocity_threshold : N

-- The amounts of the transactions from a time on.
unfoldable pub amount_since : ℤ → ℤ → List TransactionData → ℤ
amount_since from total [] = total
amount_since from total (t ∷ ts) =
    amount_since from (if leb_ℤ from t.timestamp then total +ℤ t.amount else total) ts

-- The sum of the counts, and the count of one location.
unfoldable pub total_count : ℤ → Dict ℤ → ℤ
total_count total [] = total
total_count total ((location, n) ∷ counts) = total_count (total +ℤ n) counts

unfoldable pub count_of : Text → ℤ → Dict ℤ → ℤ
count_of key current [] = current
count_of key current ((location, n) ∷ counts) =
    count_of key (if text_eq location key then n else current) counts

module _ {N : Type 0} (floats : Floats N) where
  open floats use {literal, of_int, add, subtract, multiply, divide, absolute, lt, eq}

  unfoldable pub amount_score : Model N → TransactionData → N
  amount_score model tx = elim (lookup tx.account_id model.account_histories) [
    | none ↦ literal 0
    | some history ↦
        if eq history.average_transaction_amount (literal 0)
        then literal 0
        else (let mean = history.average_transaction_amount in
            let std_dev = multiply mean (literal 500) in
            let z_score = divide (absolute (subtract (of_int tx.amount) mean)) std_dev in
            min_float floats (literal 1000) (divide z_score model.amount_anomaly_threshold))
  ]

  -- A value above a threshold, against twice the threshold.
  unfoldable pub excess : N → N → N
  excess value threshold =
      if lt threshold value
      then min_float floats (literal 1000) (divide value (multiply threshold (literal 2000)))
      else literal 0

  unfoldable pub frequency_score : Model N → TransactionData → N
  frequency_score model tx = elim (lookup tx.account_id model.account_histories) [
    | none ↦ literal 0
    | some history ↦ excess history.transaction_frequency_per_hour model.frequency_anomaly_threshold
  ]

  unfoldable pub velocity_of : N → TransactionData → List TransactionData → N
  velocity_of threshold tx [] = literal 0
  velocity_of threshold tx (t ∷ ts) =
      excess (of_int (amount_since (tx.timestamp -ℤ pos 3600) (pos 0) (t ∷ ts) +ℤ tx.amount))
        threshold

  unfoldable pub velocity_score : Model N → TransactionData → N
  velocity_score model tx = elim (lookup tx.account_id model.account_histories) [
    | none ↦ literal 0
    | some history ↦ velocity_of model.velocity_threshold tx history.recent_transactions
  ]

  unfoldable pub rarity : Text → Dict ℤ → N
  rarity location counts =
      if eq_ℤ (total_count (pos 0) counts) (pos 0)
      then literal 0
      else max_float floats (literal 0) (
          subtract (literal 1000) (
            divide (of_int (count_of location (pos 0) counts))
              (of_int (total_count (pos 0) counts))))

  unfoldable pub location_of : Text → Dict ℤ → N
  location_of location [] = literal 0
  location_of location (c ∷ counts) = rarity location (c ∷ counts)

  unfoldable pub location_score : Model N → TransactionData → N
  location_score model tx = elim tx.location [
    | [] ↦ literal 0
    | _ ∷ _ ↦ elim (lookup tx.account_id model.account_histories) [
      | none ↦ literal 0
      | some history ↦ location_of tx.location history.location_counts
    ]
  ]

  -- The weighted scores, clamped.
  unfoldable pub combine : N → N → N → N → N
  combine amount frequency velocity location = max_float floats (literal 0) (
      min_float floats (literal 1000) (
        add
          (add (add (multiply amount (literal 400)) (multiply frequency (literal 300)))
            (multiply velocity (literal 200)))
          (multiply location (literal 100))))

  unfoldable pub recommend : N → Text × ℤ
  recommend risk =
      if lt (literal 800) risk
      then (text "BLOCK", pos 95)
      else (if lt (literal 600) risk
          then (text "REVIEW", pos 85)
          else (if lt (literal 300) risk then (text "MONITOR", pos 70) else (text "ALLOW", pos 90)))

  -- A risk factor, where its score is above a half.
  unfoldable pub factor : N → Text → List Text
  factor score name = if lt (literal 500) score then name ∷ [] else []

  unfoldable pub perform_analysis : Model N → TransactionData → FraudResult N
  perform_analysis model tx =
      let amount = amount_score model tx in
      let frequency = frequency_score model tx in
      let velocity = velocity_score model tx in
      let location = location_score model tx in
      let risk = combine amount frequency velocity location in
      let (recommendation, confidence_level) = recommend risk in
      record {
        risk_score = risk;
        risk_factors =
            factor amount (text "Unusual transaction amount")
            ++ (factor frequency (text "High transaction frequency")
                ++ (factor velocity (text "High velocity spending")
                    ++ factor location (text "Unusual location pattern")));
        recommendation = recommendation;
        confidence_level = confidence_level;
      }
