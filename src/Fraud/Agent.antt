-- ===== src/Fraud/Agent.antt =====
-- The agent of ai/fraud_detection_agent.cpp: its queue, its worker, its statistics and its thresholds.
pub mod Quiet
pub mod Restart
use cloud_storage_system.Base.{
  ℕ, zero, suc, ◌+◌, ◌%◌, ◌^◌, Bool, true, false, ◌&&◌, ◌||◌, Option, none, some, List, [], ◌∷◌,
  ◌++◌, ltb, if◌then◌else◌,
}
use cloud_storage_system.Base.Int.{ℤ, pos}
use cloud_storage_system.Base.Lists.{length}
use cloud_storage_system.Base.Text.{Text}
use cloud_storage_system.Server.{TransactionData}
use cloud_storage_system.Fraud.{
  Floats, FraudResult, min_float, max_float, is_fraudulent, needs_review,
}
use cloud_storage_system.Fraud.Scores.{Model, perform_analysis}

-- The members, with the queue as the list that it holds, whether the analysis thread is in its loop,
-- whether a callback is set, and the calls of the callback so far.
pub record FraudDetectionAgent (N : Type 0) : Type 0 where
  pub model : Model N
  pub analysis_queue : List TransactionData
  pub running : Bool
  pub working : Bool
  pub alert_callback : Bool
  pub alerts : List (TransactionData × FraudResult N)
  pub transactions_analyzed : ℕ
  pub fraud_alerts_generated : ℕ
  pub total_risk_score : N

-- getStats
pub record Stats (N : Type 0) : Type 0 where
  pub transactions_analyzed : ℕ
  pub fraud_alerts_generated : ℕ
  pub average_risk_score : N
  pub analysis_queue_size : ℕ

-- The transaction without an account that wakes the worker up.
abbrev pub shutdown : TransactionData
shutdown = record {
  account_id = [];
  transaction_type = [];
  amount = pos 0;
  timestamp = pos 0;
  source_ip = [];
  location = [];
  metadata = [];
}

module _ {N : Type 0} where
  unfoldable pub submit_transaction :
      TransactionData → FraudDetectionAgent N → FraudDetectionAgent N
  submit_transaction tx a = record a { analysis_queue = a.analysis_queue ++ tx ∷ [] }

  unfoldable pub set_alert_callback : FraudDetectionAgent N → FraudDetectionAgent N
  set_alert_callback a = record a { alert_callback = true }

  unfoldable pub start : FraudDetectionAgent N → FraudDetectionAgent N
  start a = if a.running then a else record a { running = true; working = true }

module _ {N : Type 0} (floats : Floats N) where
  open floats use {literal, add, multiply, divide, of_size}

  abbrev pub new_agent : FraudDetectionAgent N
  new_agent = record {
    model = record {
      account_histories = [];
      amount_anomaly_threshold = literal 3000;
      frequency_anomaly_threshold = literal 5000;
      velocity_threshold = literal 10000000;
    };
    analysis_queue = [];
    running = false;
    working = false;
    alert_callback = false;
    alerts = [];
    transactions_analyzed = 0;
    fraud_alerts_generated = 0;
    total_risk_score = literal 0;
  }

  unfoldable pub raise_alert :
      TransactionData → FraudResult N → FraudDetectionAgent N → FraudDetectionAgent N
  raise_alert tx result a =
      if (is_fraudulent floats result || needs_review floats result) && a.alert_callback
      then record a {
        alerts = a.alerts ++ (tx, result) ∷ [];
        fraud_alerts_generated =
            if is_fraudulent floats result
            then (a.fraud_alerts_generated + 1) % 2 ^ 64
            else a.fraud_alerts_generated;
      }
      else a

  unfoldable pub analyze : TransactionData → FraudDetectionAgent N → FraudDetectionAgent N
  analyze tx a =
      let result = perform_analysis floats a.model tx in
      raise_alert tx result (record a {
        transactions_analyzed = (a.transactions_analyzed + 1) % 2 ^ 64;
        total_risk_score = add a.total_risk_score result.risk_score;
      })

  -- The body of the loop of analysisWorker: an empty queue makes it wait, a transaction without an
  -- account ends it.
  unfoldable pub handle_item : TransactionData → FraudDetectionAgent N → FraudDetectionAgent N
  handle_item tx a = elim tx.account_id [ [] ↦ record a { working = false } | _ ∷ _ ↦ analyze tx a ]

  unfoldable pub take_from : List TransactionData → FraudDetectionAgent N → FraudDetectionAgent N
  take_from [] a = a
  take_from (tx ∷ rest) a = handle_item tx (record a { analysis_queue = rest })

  unfoldable pub take_one : FraudDetectionAgent N → FraudDetectionAgent N
  take_one a = take_from a.analysis_queue a

  -- One round of the loop, with its test.
  unfoldable pub work_round : FraudDetectionAgent N → FraudDetectionAgent N
  work_round a =
      if a.working then (if a.running then take_one a else record a { working = false }) else a

  -- stop: the worker, which it waits for, had passed its test before, and takes one more item, or it
  -- meets the test next.
  unfoldable pub stop : Bool → FraudDetectionAgent N → FraudDetectionAgent N
  stop late a =
      if a.running
      then (let a' = submit_transaction shutdown (record a { running = false }) in
          record (if late && a.working then take_one a' else a') { working = false })
      else a

  unfoldable pub between : ℕ → ℕ → N → N
  between low high x = max_float floats (literal low) (min_float floats (literal high) x)

  -- updateModels, with the three numbers that it draws.
  unfoldable pub update_models : N → N → N → FraudDetectionAgent N → FraudDetectionAgent N
  update_models d1 d2 d3 a = record a {
    model = record a.model {
      amount_anomaly_threshold = between 1500 5000 (add a.model.amount_anomaly_threshold d1);
      frequency_anomaly_threshold = between 2000 10000 (add a.model.frequency_anomaly_threshold d2);
      velocity_threshold =
          between 5000000 50000000 (add a.model.velocity_threshold (multiply d3 (literal 1000000)));
    };
  }

  unfoldable pub get_stats : FraudDetectionAgent N → Stats N
  get_stats a = record {
    transactions_analyzed = a.transactions_analyzed;
    fraud_alerts_generated = a.fraud_alerts_generated;
    average_risk_score =
        if ltb 0 a.transactions_analyzed
        then divide a.total_risk_score (of_size a.transactions_analyzed)
        else literal 0;
    analysis_queue_size = length a.analysis_queue;
  }
