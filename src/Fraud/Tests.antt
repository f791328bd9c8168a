-- ===== src/Fraud/Tests.antt =====
-- The fraud agent over thousandths, and the theorems of this component applied to it.
use cloud_storage_system.Base.{
  ℕ, ◌+◌, ◌-◌, ◌*◌, ◌/◌, ◌≤◌, ◌≡◌, refl, true, false, ◌||◌, not, [], ◌∷◌, arith, ltb, leb, ◌==◌,
}
use cloud_storage_system.Base.Int.{pos, pos_part, ◌-ℤ◌, ◌+ℤ◌}
use cloud_storage_system.Base.Lists.{length}
use cloud_storage_system.Base.Text.{text, text_eq}
use cloud_storage_system.Base.Dict.{lookup}
use cloud_storage_system.Server.{TransactionData}
use cloud_storage_system.Fraud.{
  min_float, max_float, Floats, is_fraudulent, needs_review, new_history,
}
use cloud_storage_system.Fraud.Scores.{
  Model, perform_analysis, amount_score, frequency_score, velocity_score, location_score, combine,
  recommend, excess, velocity_of, location_of, rarity, amount_since, total_count, count_of,
}
use cloud_storage_system.Fraud.Scores.Recommendations.{FloatLaws, Agrees, recommendation_alerts}
use cloud_storage_system.Fraud.Agent.{new_agent, start, stop, shutdown}
use cloud_storage_system.Fraud.Agent.Quiet.{
  starts, stops, submits, works, sets_callback, allowed, perform_all, perform_all-quiet,
}
use cloud_storage_system.Fraud.Agent.Restart.{work_rounds, submit_all, restart-ends}
use cloud_storage_system.Fraud.Window.{add_all, newest, count_at, occurrences, add_all-window}

-- Numbers that are not negative, in thousandths, rounded down.
abbrev thousandths : Floats ℕ
thousandths = record {
  literal = λ n. n;
  of_int = λ n. pos_part n * 1000;
  of_size = λ n. n * 1000;
  add = λ a b. a + b;
  subtract = λ a b. a - b;
  multiply = λ a b. a * b / 1000;
  divide = λ a b. a * 1000 / b;
  absolute = λ a. a;
  lt = ltb;
  le = leb;
  eq = λ a b. a == b;
}

thousandths-FloatLaws : FloatLaws thousandths
thousandths-FloatLaws = record {
  lt_literals = λ m n p q. refl;
  le_literals = λ m n p q. refl;
  lt_trans = λ x y z p q. ground arith;
  lt_asym = λ x y p. ground arith;
  le_of_not_lt = λ x y m p q. ground arith;
  zero_times = λ n. omega arith;
  zero_plus_zero = refl;
}

abbrev purchase : TransactionData
purchase = record shutdown {
  account_id = text "acc1";
  transaction_type = text "DEPOSIT";
  amount = pos 30000;
  timestamp = pos 100;
  location = text "Rome";
}

-- An account with many small transactions in another place.
abbrev suspicious : Model ℕ
suspicious = record {
  account_histories =
      (
        text "acc1",
        record (new_history thousandths 0) {
          recent_transactions = record purchase { amount = pos 10; timestamp = pos 90 } ∷ [];
          average_transaction_amount = 10000;
          transaction_frequency_per_hour = 20000;
          location_counts = (text "Oslo", pos 7) ∷ [];
        },
      )
      ∷ [];
  amount_anomaly_threshold = 3000;
  frequency_anomaly_threshold = 5000;
  velocity_threshold = 10000000;
}

blocked : (perform_analysis thousandths suspicious purchase).recommendation ≡ text "BLOCK"
unfolding perform_analysis amount_score frequency_score velocity_score location_score combine
    recommend excess velocity_of location_of rarity lookup text_eq min_float max_float amount_since
    total_count count_of ◌-ℤ◌ ◌+ℤ◌
blocked = refl

recommendation_alerts_example :
    let r = perform_analysis thousandths suspicious purchase in
    let alert = is_fraudulent thousandths r || needs_review thousandths r in
    (alert ≡ ltb 400 r.risk_score)
    × Agrees thousandths thousandths-FloatLaws r (text "BLOCK") (not (is_fraudulent thousandths r))
    × Agrees thousandths thousandths-FloatLaws r (text "REVIEW") (not alert)
    × Agrees thousandths thousandths-FloatLaws r (text "MONITOR") (is_fraudulent thousandths r)
    × Agrees thousandths thousandths-FloatLaws r (text "ALLOW") alert
recommendation_alerts_example =
    recommendation_alerts thousandths thousandths-FloatLaws suspicious purchase

perform_all-quiet_example :
    let a =
      perform_all thousandths
        (sets_callback ∷ starts ∷ submits purchase ∷ works ∷ stops true ∷ [])
        (new_agent thousandths) in
    (a.alerts ≡ [])
    × (a.fraud_alerts_generated ≡ 0)
    × (a.total_risk_score ≡ 0)
    × (perform_analysis thousandths a.model purchase ≡ allowed thousandths)
perform_all-quiet_example =
    perform_all-quiet thousandths thousandths-FloatLaws
      (sets_callback ∷ starts ∷ submits purchase ∷ works ∷ stops true ∷ []) purchase

restart-ends_example :
    let a = start (new_agent thousandths) in
    let a' =
      work_rounds thousandths 3
        (submit_all thousandths (purchase ∷ purchase ∷ []) (start (stop thousandths false a))) in
    (a'.transactions_analyzed ≡ a.transactions_analyzed)
    × (a'.alerts ≡ a.alerts)
    × (a'.analysis_queue ≡ purchase ∷ purchase ∷ [])
    × (a'.running ≡ true)
    × (a'.working ≡ false)
unfolding start
restart-ends_example =
    restart-ends thousandths (start (new_agent thousandths)) (purchase ∷ purchase ∷ []) 2 refl refl

add_all-window_example :
    let h = add_all thousandths ((4, purchase) ∷ (9, purchase) ∷ []) (new_history thousandths 0) in
    (h.recent_transactions ≡ newest 1000 (purchase ∷ purchase ∷ []))
    × (length h.recent_transactions ≤ 1000)
    × (count_at (text "Rome") h.location_counts
        ≡ occurrences (text "Rome") (purchase ∷ purchase ∷ []))
add_all-window_example =
    add_all-window thousandths ((4, purchase) ∷ (9, purchase) ∷ []) 0 b'R' (text "ome")
