-- ===== src/Metrics/Export.antt =====
-- MetricsCollector::exportMetrics (observability/metrics.cpp): the text, and the timer.
use cloud_storage_system.Base.{ℕ, ◌+◌, ◌%◌, ◌^◌, Bool, List, [], ◌∷◌, ◌++◌, if◌then◌else◌}
use cloud_storage_system.Base.Text.{Text, text, decimal}
use cloud_storage_system.Base.Dict.{Dict}
use cloud_storage_system.Metrics.{
  Double, HistogramBucket, Histogram, MetricsCollector, observe_histogram,
}

-- The pieces that are written to the stream, one after the other.
unfoldable pub concat : List Text → Text
concat [] = []
concat (t ∷ ts) = t ++ concat ts

unfoldable pub header : Text → Text → Text → Text
header name help kind = concat (text "# HELP " ∷ name ∷ help ∷ text "\n# TYPE " ∷ name ∷ kind ∷ [])

-- `show` is how the stream prints a double, and `is_infinity` its comparison with infinity.
module _ {N : Type 0} (double : Double N) (show : N → Text) (is_infinity : N → Bool) where
  unfoldable pub export_counters : Dict N → Text
  export_counters [] = []
  export_counters ((name, value) ∷ counters) = concat (
      header name (text " Counter metric") (text " counter\n")
      ∷ name
      ∷ text " "
      ∷ show value
      ∷ text "\n"
      ∷ export_counters counters
      ∷ [])

  unfoldable pub export_gauges : Dict N → Text
  export_gauges [] = []
  export_gauges ((name, value) ∷ gauges) = concat (
      header name (text " Gauge metric") (text " gauge\n")
      ∷ name
      ∷ text " "
      ∷ show value
      ∷ text "\n"
      ∷ export_gauges gauges
      ∷ [])

  unfoldable pub export_buckets : Text → ℕ → List (HistogramBucket N) → Text
  export_buckets name cumulative_count [] = []
  export_buckets name cumulative_count (bucket ∷ buckets) =
      let total = (cumulative_count + bucket.count) % 2 ^ 64 in
      concat (
        name
        ∷ text "_bucket{le=\""
        ∷ (if is_infinity bucket.upper_bound then text "+Inf" else show bucket.upper_bound)
        ∷ text "\"} "
        ∷ decimal total
        ∷ text "\n"
        ∷ export_buckets name total buckets
        ∷ [])

  unfoldable pub export_histograms : Dict (Histogram N) → Text
  export_histograms [] = []
  export_histograms ((name, hist) ∷ histograms) = concat (
      header name (text " Histogram metric") (text " histogram\n")
      ∷ export_buckets name 0 hist.buckets
      ∷ name
      ∷ text "_count "
      ∷ decimal hist.count
      ∷ text "\n"
      ∷ name
      ∷ text "_sum "
      ∷ show hist.sum
      ∷ text "\n"
      ∷ export_histograms histograms
      ∷ [])

  unfoldable pub export_metrics : MetricsCollector N → Text
  export_metrics m =
      export_counters m.counters ++ (export_gauges m.gauges ++ export_histograms m.histograms)

  -- A Timer from its construction to its destruction; `seconds` is the time in between.
  unfoldable pub time_block : Text → N → MetricsCollector N → MetricsCollector N
  time_block name seconds m = observe_histogram double name seconds m
