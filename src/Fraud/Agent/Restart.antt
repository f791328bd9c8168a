-- ===== src/Fraud/Agent/Restart.antt =====
-- The worker of the agent: what it analyses before it ends, and what it finds after a restart.
use cloud_storage_system.Base.{
  ℕ, zero, suc, ◌≡◌, refl, sym, ap, ◌∙◌, Bool, true, false, ◌&&◌, List, [], ◌∷◌, ◌++◌, ◌||◌,
  Bool-cases, inl, inr, if◌then◌else◌,
}
use mathlib.Core.List.{append-nil, append_assoc}
use cloud_storage_system.Base.Lists.{All, length}
use cloud_storage_system.Base.Text.{Text}
use cloud_storage_system.Server.{TransactionData}
use cloud_storage_system.Fraud.{Floats, is_fraudulent, needs_review}
use cloud_storage_system.Fraud.Scores.{perform_analysis}
use cloud_storage_system.Fraud.Agent.{
  FraudDetectionAgent, submit_transaction, start, raise_alert, analyze, handle_item, take_from,
  take_one, work_round, stop, shutdown,
}

module _ {N : Type 0} (floats : Floats N) where
  -- A number of rounds of the worker, and the submission of transactions.
  pub work_rounds : ℕ → FraudDetectionAgent N → FraudDetectionAgent N
  work_rounds zero a = a
  work_rounds (suc n) a = work_rounds n (work_round floats a)

  pub submit_all : List TransactionData → FraudDetectionAgent N → FraudDetectionAgent N
  submit_all [] a = a
  submit_all (tx ∷ txs) a = submit_all txs (submit_transaction tx a)

  submit_all-queue :
      (txs : List TransactionData) (a : FraudDetectionAgent N)
      → submit_all txs a ≡ record a { analysis_queue = a.analysis_queue ++ txs }
  unfolding submit_all submit_transaction
  submit_all-queue [] a =
      ap (λ q. record a { analysis_queue = q }) (sym (append-nil a.analysis_queue))
  submit_all-queue (tx ∷ txs) a =
      submit_all-queue txs (submit_transaction tx a)
      ∙ ap (λ q. record a { analysis_queue = q }) (append_assoc a.analysis_queue (tx ∷ []) txs)

  -- A worker that has ended does nothing.
  work_round-ended : (a : FraudDetectionAgent N) → a.working ≡ false → work_round floats a ≡ a
  unfolding work_round
  work_round-ended a e =
      ap
        (λ b.
          if b then (if a.running then take_one floats a else record a { working = false }) else a)
        e

  work_rounds-ended : (n : ℕ) (a : FraudDetectionAgent N) → a.working ≡ false → work_rounds n a ≡ a
  unfolding work_rounds
  work_rounds-ended zero a e = refl
  work_rounds-ended (suc n) a e =
      ap (work_rounds n) (work_round-ended a e) ∙ work_rounds-ended n a e

  -- An idle agent is stopped, its worker meets the test of the loop, and it is started again: the
  -- transaction that should have woken the old worker up ends the new one. Whatever is submitted then,
  -- and however many rounds the worker has, nothing is analysed, and the transactions stay in the
  -- queue, while the agent counts as running.
  pub restart-ends :
      (a : FraudDetectionAgent N) (txs : List TransactionData) (n : ℕ)
      → a.running ≡ true
      → a.analysis_queue ≡ []
      → let a' = work_rounds (suc n) (submit_all txs (start (stop floats false a))) in
        (a'.transactions_analyzed ≡ a.transactions_analyzed)
        × (a'.alerts ≡ a.alerts)
        × (a'.analysis_queue ≡ txs)
        × (a'.running ≡ true)
        × (a'.working ≡ false)
  unfolding start stop submit_transaction work_rounds work_round take_one take_from handle_item
  restart-ends a txs n on idle =
      let left = record a { analysis_queue = txs; running = true; working = false } in
      rw
        (
          submit_all-queue txs (start (stop floats false a)),
          on,
          idle,
          work_rounds-ended n left refl,
        )
        (refl, refl, refl, refl, refl)

  pub analyze_all : List TransactionData → FraudDetectionAgent N → FraudDetectionAgent N
  analyze_all [] a = a
  analyze_all (tx ∷ txs) a = analyze_all txs (analyze floats tx a)

  abbrev pub with_queue :
      List TransactionData → Bool → FraudDetectionAgent N → FraudDetectionAgent N
  with_queue queue working a = record a {
    analysis_queue = queue;
    running = true;
    working = working;
  }

  analyze-with_queue :
      (tx : TransactionData) (queue : List TransactionData) (working : Bool)
      (a : FraudDetectionAgent N)
      → analyze floats tx (with_queue queue working a)
        ≡ with_queue queue working (analyze floats tx a)
  unfolding analyze raise_alert
  analyze-with_queue tx queue working a =
      let result = perform_analysis floats a.model tx in
      elim (Bool-cases
        ((is_fraudulent floats result || needs_review floats result) && a.alert_callback)) [
          | inl y ↦ rw (y, analyze) refl
          | inr n ↦ rw (n, analyze) refl
        ]

  abbrev pub HasAccount : TransactionData → Type 0
  HasAccount tx = (c : ℕ) × (cs : Text) × (tx.account_id ≡ c ∷ cs)

  handle_item-analyze :
      (tx : TransactionData) (a : FraudDetectionAgent N)
      → HasAccount tx
      → handle_item floats tx a ≡ analyze floats tx a
  unfolding handle_item
  handle_item-analyze tx a (c, cs, e) =
      ap (λ t. elim t [ [] ↦ record a { working = false } | _ ∷ _ ↦ analyze floats tx a ]) e

  work_round-analyze :
      (tx : TransactionData) (queue : List TransactionData) (a : FraudDetectionAgent N)
      → HasAccount tx
      → work_round floats (with_queue (tx ∷ queue) true a)
        ≡ with_queue queue true (analyze floats tx a)
  unfolding work_round take_one take_from
  work_round-analyze tx queue a h =
      handle_item-analyze tx (with_queue queue true a) h ∙ analyze-with_queue tx queue true a

  shutdown-ends :
      (rest : List TransactionData) (a : FraudDetectionAgent N)
      → work_round floats (with_queue (shutdown ∷ rest) true a) ≡ with_queue rest false a
  unfolding work_round take_one take_from handle_item
  shutdown-ends rest a = refl

  -- While the agent runs, its worker analyses the transactions in the order in which they were
  -- submitted, up to the first without an account, which ends it; what stands behind that one is left
  -- in the queue.
  pub work_rounds-analyze_all :
      (txs rest : List TransactionData) (a : FraudDetectionAgent N)
      → All HasAccount txs
      → work_rounds (suc (length txs)) (with_queue (txs ++ shutdown ∷ rest) true a)
        ≡ with_queue rest false (analyze_all txs a)
  unfolding work_rounds analyze_all
  work_rounds-analyze_all [] rest a h = shutdown-ends rest a
  work_rounds-analyze_all (tx ∷ txs) rest a h =
      ap (work_rounds (suc (length txs))) (work_round-analyze tx (txs ++ shutdown ∷ rest) a h.0)
      ∙ work_rounds-analyze_all txs rest (analyze floats tx a) h.1
