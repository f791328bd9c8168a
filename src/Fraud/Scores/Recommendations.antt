-- ===== src/Fraud/Scores/Recommendations.antt =====
-- The risk score of performAnalysis, and its recommendation against isFraudulent and needsReview.
use cloud_storage_system.Base.{
  ◌≤◌, arith, ℕ, ◌≡◌, refl, sym, ap, ◌∙◌, ◌⊎◌, inl, inr, Bool, true, false, ◌||◌, ◌&&◌, not, ltb,
  leb, Bool-cases,
}
use cloud_storage_system.Base.Text.{text_eq, Text, text}
use mathlib.Core.Bool.{true≢false}
use cloud_storage_system.Server.{TransactionData}
use cloud_storage_system.Fraud.{
  Floats, FraudResult, min_float, max_float, is_fraudulent, needs_review,
}
use cloud_storage_system.Fraud.Scores.{Model, combine, recommend, perform_analysis}

-- What IEEE 754 says of the comparisons, NaN included, and of zero: literals up to
-- a thousand compare as the numbers that they stand for, and a value that is below another one is no NaN.
pub record FloatLaws {N : Type 0} (floats : Floats N) : Type 0 where
  pub lt_literals :
      (m n : ℕ) → m ≤ 1000 → n ≤ 1000 → floats.lt (floats.literal m) (floats.literal n) ≡ ltb m n
  pub le_literals :
      (m n : ℕ) → m ≤ 1000 → n ≤ 1000 → floats.le (floats.literal m) (floats.literal n) ≡ leb m n
  pub lt_trans : (x y z : N) → floats.lt x y ≡ true → floats.lt y z ≡ true → floats.lt x z ≡ true
  pub lt_asym : (x y : N) → floats.lt x y ≡ true → floats.lt y x ≡ false
  pub le_of_not_lt :
      (x y : N) (m : ℕ)
      → floats.lt x y ≡ true
      → floats.lt (floats.literal m) x ≡ false
      → floats.le x (floats.literal m) ≡ true
  pub zero_times :
      (n : ℕ) → floats.multiply (floats.literal 0) (floats.literal n) ≡ floats.literal 0
  pub zero_plus_zero : floats.add (floats.literal 0) (floats.literal 0) ≡ floats.literal 0

module _ {N : Type 0} (floats : Floats N) (laws : FloatLaws floats) where
  open floats use {literal, lt, le}
  open laws use {lt_literals, le_literals, lt_trans, lt_asym, le_of_not_lt}

  -- A clamped value, which NaN is not: NaN becomes 1.0.
  abbrev pub IsClamped : N → Type 0
  IsClamped x =
      (x ≡ literal 0)
      ⊎ ((x ≡ literal 1000) ⊎ ((lt (literal 0) x ≡ true) × (lt x (literal 1000) ≡ true)))

  clamp-IsClamped :
      (x : N) → IsClamped (max_float floats (literal 0) (min_float floats (literal 1000) x))
  unfolding max_float min_float
  clamp-IsClamped x = elim (Bool-cases (lt x (literal 1000))) [
    | inl y ↦ rw y (elim (Bool-cases (lt (literal 0) x)) [
      | inl z ↦ rw z (inr (inr (z, y)))
      | inr z ↦ rw z (inl refl)
    ])
    | inr n ↦ rw (n, lt_literals 0 1000 (omega arith) (omega arith)) (inr (inl refl))
  ]

  pub perform_analysis-IsClamped :
      (model : Model N) (tx : TransactionData)
      → IsClamped (perform_analysis floats model tx).risk_score
  unfolding perform_analysis combine
  perform_analysis-IsClamped model tx = clamp-IsClamped _

  -- The risk score is never below 0.0 or above 1.0, whatever the histories and the thresholds hold,
  -- also where a score is NaN.
  pub perform_analysis_bounds :
      (model : Model N) (tx : TransactionData)
      → let risk = (perform_analysis floats model tx).risk_score in
        (lt risk (literal 0) ≡ false) × (lt (literal 1000) risk ≡ false)
  perform_analysis_bounds model tx = elim (perform_analysis-IsClamped model tx) [
    | inl e ↦
        rw
          (
            e,
            lt_literals 0 0 (omega arith) (omega arith),
            lt_literals 1000 0 (omega arith) (omega arith),
          )
          (refl, refl)
    | inr (inl e) ↦
        rw
          (
            e,
            lt_literals 1000 0 (omega arith) (omega arith),
            lt_literals 1000 1000 (omega arith) (omega arith),
          )
          (refl, refl)
    | inr (inr (p, q)) ↦ (lt_asym _ _ p, lt_asym _ _ q)
  ]

  -- A value above a literal is above the smaller ones.
  above :
      (m n : ℕ) (x : N)
      → ltb m n ≡ true
      → n ≤ 1000
      → lt (literal n) x ≡ true
      → lt (literal m) x ≡ true
  above m n x e b h = lt_trans (literal m) (literal n) x (lt_literals m n (ground arith) b ∙ e) h

  below :
      (m n : ℕ) (x : N)
      → ltb m n ≡ true
      → n ≤ 1000
      → lt (literal m) x ≡ false
      → lt (literal n) x ≡ false
  below m n x e b h = elim (Bool-cases (lt (literal n) x)) [
    | inl y ↦ absurd (true≢false (sym (above m n x e b y) ∙ h))
    | inr n ↦ n
  ]

  le_700 : (x : N) → IsClamped x → lt (literal 700) x ≡ false → le x (literal 700) ≡ true
  le_700 x (inl e) h = rw (e, le_literals 0 700 (omega arith) (omega arith)) refl
  le_700 x (inr (inl e)) h = absurd (
      true≢false
        (sym (ap (lt (literal 700)) e ∙ lt_literals 700 1000 (omega arith) (omega arith)) ∙ h))
  le_700 x (inr (inr (p, q))) h = le_of_not_lt x (literal 1000) 700 q h

  -- The alerts that the agent raises, and the claims on one recommendation.
  abbrev pub Agrees : FraudResult N → Text → Bool → Type 0
  Agrees r name wrong = (text_eq r.recommendation name && wrong) ≡ false

  -- isFraudulent or needsReview hold exactly above 0.4. A transaction to block is fraudulent, one to
  -- review is one of both, one to monitor is not fraudulent, and one to allow is neither.
  pub recommendation_alerts :
      (model : Model N) (tx : TransactionData)
      → let r = perform_analysis floats model tx in
        let alert = is_fraudulent floats r || needs_review floats r in
        (alert ≡ lt (literal 400) r.risk_score)
        × Agrees r (text "BLOCK") (not (is_fraudulent floats r))
        × Agrees r (text "REVIEW") (not alert)
        × Agrees r (text "MONITOR") (is_fraudulent floats r)
        × Agrees r (text "ALLOW") alert
  unfolding is_fraudulent needs_review recommend text_eq perform_analysis
  recommendation_alerts model tx =
      let x = (perform_analysis floats model tx).risk_score in
      let c = perform_analysis-IsClamped model tx in
      elim (Bool-cases (lt (literal 800) x)) [
        | inl b8 ↦
            rw (b8, above 700 800 x refl (omega arith) b8, above 400 800 x refl (omega arith) b8)
              (refl, refl, refl, refl, refl)
        | inr n8 ↦ elim (Bool-cases (lt (literal 600) x)) [
          | inl b6 ↦ elim (Bool-cases (lt (literal 700) x)) [
            | inl b7 ↦
                rw (n8, b6, b7, above 400 600 x refl (omega arith) b6)
                  (refl, refl, refl, refl, refl)
            | inr n7 ↦
                rw (n8, b6, n7, above 400 600 x refl (omega arith) b6, le_700 x c n7)
                  (refl, refl, refl, refl, refl)
          ]
          | inr n6 ↦ elim (Bool-cases (lt (literal 300) x)) [
            | inl b3 ↦ elim (Bool-cases (lt (literal 400) x)) [
              | inl b4 ↦
                  rw
                    (
                      n8,
                      n6,
                      b3,
                      below 600 700 x refl (omega arith) n6,
                      b4,
                      le_700 x c (below 600 700 x refl (omega arith) n6),
                    )
                    (refl, refl, refl, refl, refl)
              | inr n4 ↦
                  rw (n8, n6, b3, below 600 700 x refl (omega arith) n6, n4)
                    (refl, refl, refl, refl, refl)
            ]
            | inr n3 ↦
                rw
                  (
                    n8,
                    n6,
                    n3,
                    below 600 700 x refl (omega arith) n6,
                    below 300 400 x refl (omega arith) n3,
                  )
                  (refl, refl, refl, refl, refl)
          ]
        ]
      ]
