-- ===== src/Fraud/Agent/Quiet.antt =====
-- The agent over any calls, and what is written to the histories of the accounts.
use cloud_storage_system.Base.{
  arith, ℕ, ◌≡◌, refl, ap, ◌∙◌, Bool, false, ◌&&◌, ◌||◌, none, List, [], ◌∷◌, ◌⊎◌, inl, inr,
  if_elim,
}
use cloud_storage_system.Base.Int.{pos}
use cloud_storage_system.Base.Text.{Text, text}
use cloud_storage_system.Base.Dict.{Dict, lookup}
use cloud_storage_system.Server.{TransactionData}
use cloud_storage_system.Fraud.{
  Floats, FraudResult, AccountHistory, min_float, max_float, is_fraudulent, needs_review,
}
use cloud_storage_system.Fraud.Scores.{
  Model, amount_score, frequency_score, velocity_score, location_score, combine, recommend, factor,
  perform_analysis,
}
use cloud_storage_system.Fraud.Scores.Recommendations.{FloatLaws}
use cloud_storage_system.Fraud.Agent.{
  FraudDetectionAgent, submit_transaction, set_alert_callback, start, new_agent, raise_alert,
  analyze, handle_item, take_from, take_one, work_round, stop, update_models,
}

-- The calls of the agent and the rounds of its worker.
pub data AgentCall (N : Type 0) : Type 0 where
  starts : AgentCall N
  stops : Bool → AgentCall N
  submits : TransactionData → AgentCall N
  sets_callback : AgentCall N
  updates : N → N → N → AgentCall N
  works : AgentCall N

Text-cases : (t : Text) → (t ≡ []) ⊎ ((c : ℕ) × (cs : Text) × (t ≡ c ∷ cs))
Text-cases [] = inl refl
Text-cases (c ∷ cs) = inr (c, cs, refl)

module _ {N : Type 0} (floats : Floats N) where
  open floats use {literal, lt, add}

  pub perform : AgentCall N → FraudDetectionAgent N → FraudDetectionAgent N
  perform starts a = start a
  perform (stops late) a = stop floats late a
  perform (submits tx) a = submit_transaction tx a
  perform sets_callback a = set_alert_callback a
  perform (updates d1 d2 d3) a = update_models floats d1 d2 d3 a
  perform works a = work_round floats a

  pub perform_all : List (AgentCall N) → FraudDetectionAgent N → FraudDetectionAgent N
  perform_all [] a = a
  perform_all (c ∷ cs) a = perform_all cs (perform c a)

  abbrev pub allowed : FraudResult N
  allowed = record {
    risk_score = literal 0;
    risk_factors = [];
    recommendation = text "ALLOW";
    confidence_level = pos 90;
  }

  -- No history, no alert, and no risk so far.
  pub record Nothing (histories : Dict (AccountHistory N))
      (alerts : List (TransactionData × FraudResult N)) (generated : ℕ) (risk : N) : Type 0 where
    pub no_history : histories ≡ []
    pub no_alert : alerts ≡ []
    pub none_generated : generated ≡ 0
    pub no_risk : risk ≡ literal 0

  abbrev pub IsQuiet : FraudDetectionAgent N → Type 0
  IsQuiet a = Nothing a.model.account_histories a.alerts a.fraud_alerts_generated a.total_risk_score

  module _ (laws : FloatLaws floats) where
    open laws use {lt_literals, le_literals, zero_times, zero_plus_zero}

    location_score-none :
        (model : Model N) (tx : TransactionData)
        → lookup tx.account_id model.account_histories ≡ none
        → location_score floats model tx ≡ literal 0
    unfolding location_score
    location_score-none model tx e = elim (Text-cases tx.location) [
      | inl n ↦ rw (n, location_score) refl
      | inr (c, cs, n) ↦ rw (n, location_score, e) refl
    ]

    combine-zero : combine floats (literal 0) (literal 0) (literal 0) (literal 0) ≡ literal 0
    unfolding combine min_float max_float
    combine-zero =
        rw
          (
            zero_times 400,
            zero_times 300,
            zero_times 200,
            zero_times 100,
            zero_plus_zero,
            zero_plus_zero,
            zero_plus_zero,
            lt_literals 0 1000 (omega arith) (omega arith),
            lt_literals 0 0 (omega arith) (omega arith),
          )
          refl

    factor-zero : (name : Text) → factor floats (literal 0) name ≡ []
    unfolding factor
    factor-zero name = rw (lt_literals 500 0 (omega arith) (omega arith)) refl

    recommend-zero : recommend floats (literal 0) ≡ (text "ALLOW", pos 90)
    unfolding recommend
    recommend-zero =
        rw
          (
            lt_literals 800 0 (omega arith) (omega arith),
            lt_literals 600 0 (omega arith) (omega arith),
            lt_literals 300 0 (omega arith) (omega arith),
          )
          refl

    scores-none :
        (model : Model N) (tx : TransactionData)
        → lookup tx.account_id model.account_histories ≡ none
        → (amount_score floats model tx ≡ literal 0)
          × (frequency_score floats model tx ≡ literal 0)
          × (velocity_score floats model tx ≡ literal 0)
    unfolding amount_score frequency_score velocity_score
    scores-none model tx e =
        (rw (e, amount_score) refl, rw (e, frequency_score) refl, rw (e, velocity_score) refl)

    -- Without a history of its account a transaction is allowed.
    perform_analysis-none :
        (model : Model N) (tx : TransactionData)
        → lookup tx.account_id model.account_histories ≡ none
        → perform_analysis floats model tx ≡ allowed
    unfolding perform_analysis
    perform_analysis-none model tx e =
        let (amount, frequency, velocity) = scores-none model tx e in
        rw
          (
            amount,
            frequency,
            velocity,
            location_score-none model tx e,
            combine-zero,
            recommend-zero,
            factor-zero (text "Unusual transaction amount"),
            factor-zero (text "High transaction frequency"),
            factor-zero (text "High velocity spending"),
            factor-zero (text "Unusual location pattern"),
          )
          refl

    allowed-quiet : (is_fraudulent floats allowed || needs_review floats allowed) ≡ false
    unfolding is_fraudulent needs_review
    allowed-quiet =
        rw
          (
            lt_literals 700 0 (omega arith) (omega arith),
            lt_literals 400 0 (omega arith) (omega arith),
          )
          refl

    analyze-IsQuiet :
        (tx : TransactionData) (a : FraudDetectionAgent N)
        → IsQuiet a
        → IsQuiet (analyze floats tx a)
    unfolding analyze raise_alert lookup
    analyze-IsQuiet tx a q =
        let e = perform_analysis-none a.model tx (ap (lookup tx.account_id) q.no_history) in
        rw (e, allowed-quiet)
          (record {
            no_history = q.no_history;
            no_alert = q.no_alert;
            none_generated = q.none_generated;
            no_risk = ap (λ r. add r (literal 0)) q.no_risk ∙ zero_plus_zero;
          })

    take_from-IsQuiet :
        (items : List TransactionData) (a : FraudDetectionAgent N)
        → IsQuiet a
        → IsQuiet (take_from floats items a)
    unfolding take_from handle_item
    take_from-IsQuiet [] a q = q
    take_from-IsQuiet (tx ∷ rest) a q = elim (Text-cases tx.account_id) [
      | inl n ↦ rw (n, handle_item) q
      | inr (c, cs, n) ↦
          rw (n, handle_item) (analyze-IsQuiet tx (record a { analysis_queue = rest }) q)
    ]

    perform-IsQuiet :
        (c : AgentCall N) (a : FraudDetectionAgent N) → IsQuiet a → IsQuiet (perform c a)
    unfolding perform start submit_transaction set_alert_callback update_models work_round stop
        take_one
    perform-IsQuiet starts a q = if_elim IsQuiet a.running _ _ (λ _. q) (λ _. q)
    perform-IsQuiet (stops late) a q =
        if_elim IsQuiet a.running _ _
          (λ _. if_elim IsQuiet (late && a.working) _ _ (λ _. take_from-IsQuiet _ _ q) (λ _. q))
          (λ _. q)
    perform-IsQuiet (submits tx) a q = q
    perform-IsQuiet sets_callback a q = q
    perform-IsQuiet (updates d1 d2 d3) a q = q
    perform-IsQuiet works a q =
        if_elim IsQuiet a.working _ _
          (λ _. if_elim IsQuiet a.running _ _ (λ _. take_from-IsQuiet _ _ q) (λ _. q)) (λ _. q)

    perform_all-IsQuiet :
        (cs : List (AgentCall N)) (a : FraudDetectionAgent N)
        → IsQuiet a
        → IsQuiet (perform_all cs a)
    unfolding perform_all
    perform_all-IsQuiet [] a q = q
    perform_all-IsQuiet (c ∷ cs) a q = perform_all-IsQuiet cs (perform c a) (perform-IsQuiet c a q)

    -- Whatever is submitted to a new agent, and however it is started, stopped and updated, it has no
    -- history of any account. So it has never raised an alert and finds no risk, and it allows every
    -- transaction, with a score of 0.0, no risk factor and a confidence of 90.
    pub perform_all-quiet :
        (cs : List (AgentCall N)) (tx : TransactionData)
        → let a = perform_all cs (new_agent floats) in
          (a.alerts ≡ [])
          × (a.fraud_alerts_generated ≡ 0)
          × (a.total_risk_score ≡ literal 0)
          × (perform_analysis floats a.model tx ≡ allowed)
    unfolding lookup
    perform_all-quiet cs tx =
        let fresh : IsQuiet (new_agent floats) = record {
          no_history = refl;
          no_alert = refl;
          none_generated = refl;
          no_risk = refl;
        } in
        let q = perform_all-IsQuiet cs (new_agent floats) fresh in
        (
          q.no_alert,
          q.none_generated,
          q.no_risk,
          perform_analysis-none _ tx (ap (lookup tx.account_id) q.no_history),
        )
