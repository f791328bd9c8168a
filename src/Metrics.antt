-- ===== src/Metrics.antt =====
-- MetricsCollector (observability/metrics.cpp): counters, gauges and histograms.
pub mod Buckets
pub mod Export
mod Tests
use cloud_storage_system.Base.{
  ℕ, zero, suc, ◌+◌, ◌%◌, ◌^◌, Bool, true, false, Option, none, some, List, [], ◌∷◌, map,
  if◌then◌else◌, get_or,
}
use cloud_storage_system.Base.Text.{Text}
use cloud_storage_system.Base.Dict.{Dict, lookup, insert}

-- What the code uses of double: its operations on finite values, <=, and infinity.
pub record Double (N : Type 0) : Type 0 where
  pub zero_value : N
  pub add : N → N → N
  pub negate : N → N
  pub le : N → N → Bool
  pub thousandths : ℕ → N
  pub infinity : N

-- struct HistogramBucket and struct Histogram, without the help text, which nothing reads.
pub record HistogramBucket (N : Type 0) : Type 0 where
  pub upper_bound : N
  pub count : ℕ

pub record Histogram (N : Type 0) : Type 0 where
  pub buckets : List (HistogramBucket N)
  pub count : ℕ
  pub sum : N

pub record MetricsCollector (N : Type 0) : Type 0 where
  pub counters : Dict N
  pub gauges : Dict N
  pub histograms : Dict (Histogram N)

module _ {N : Type 0} (double : Double N) where
  unfoldable pub increment_counter : Text → N → MetricsCollector N → MetricsCollector N
  increment_counter name value m = record m {
    counters =
        insert name (double.add (get_or double.zero_value (lookup name m.counters)) value)
          m.counters;
  }

  unfoldable pub set_gauge : Text → N → MetricsCollector N → MetricsCollector N
  set_gauge name value m = record m { gauges = insert name value m.gauges }

  unfoldable pub increment_gauge : Text → N → MetricsCollector N → MetricsCollector N
  increment_gauge name value m = record m {
    gauges =
        insert name (double.add (get_or double.zero_value (lookup name m.gauges)) value) m.gauges;
  }

  unfoldable pub decrement_gauge : Text → N → MetricsCollector N → MetricsCollector N
  decrement_gauge name value m = increment_gauge name (double.negate value) m

  -- defaultBuckets, in thousandths.
  unfoldable pub default_buckets : List N
  default_buckets =
      map double.thousandths
        (5 ∷ 10 ∷ 25 ∷ 50 ∷ 75 ∷ 100 ∷ 250 ∷ 500 ∷ 750 ∷ 1000 ∷ 2500 ∷ 5000 ∷ 7500 ∷ 10000 ∷ [])

  unfoldable pub empty_buckets : List N → List (HistogramBucket N)
  empty_buckets [] = (record { upper_bound = double.infinity; count = 0 }) ∷ []
  empty_buckets (bound ∷ bounds) =
      (record { upper_bound = bound; count = 0 }) ∷ empty_buckets bounds

  -- The loop over the buckets.
  unfoldable pub count_value : N → List (HistogramBucket N) → List (HistogramBucket N)
  count_value value [] = []
  count_value value (bucket ∷ buckets) =
      (if double.le value bucket.upper_bound
        then record bucket { count = (bucket.count + 1) % 2 ^ 64 }
        else bucket)
      ∷ count_value value buckets

  unfoldable pub started : List (HistogramBucket N) → List (HistogramBucket N)
  started [] = empty_buckets default_buckets
  started (bucket ∷ buckets) = bucket ∷ buckets

  unfoldable pub observe : N → Histogram N → Histogram N
  observe value hist = record {
    buckets = count_value value (started hist.buckets);
    count = (hist.count + 1) % 2 ^ 64;
    sum = double.add hist.sum value;
  }

  abbrev pub new_histogram : Histogram N
  new_histogram = record { buckets = []; count = 0; sum = double.zero_value }

  unfoldable pub observe_histogram : Text → N → MetricsCollector N → MetricsCollector N
  observe_histogram name value m = record m {
    histograms =
        insert name (observe value (get_or new_histogram (lookup name m.histograms))) m.histograms;
  }

  -- The counts that exportMetrics writes for the buckets of a histogram.
  unfoldable pub exported_counts : ℕ → List (HistogramBucket N) → List ℕ
  exported_counts cumulative [] = []
  exported_counts cumulative (bucket ∷ buckets) =
      let total = (cumulative + bucket.count) % 2 ^ 64 in total ∷ exported_counts total buckets

  unfoldable pub reset : MetricsCollector N → MetricsCollector N
  reset m = record { counters = []; gauges = []; histograms = [] }
