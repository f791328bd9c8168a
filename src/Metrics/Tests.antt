-- ===== src/Metrics/Tests.antt =====
-- A histogram of two values, in thousandths, and the theorem of this component applied to it.
use cloud_storage_system.Base.{false, ℕ, ◌%◌, ◌^◌, ◌+◌, ◌≡◌, refl, leb, [], ◌∷◌, map}
use cloud_storage_system.Base.Lists.{length}
use cloud_storage_system.Metrics.{
  Double, default_buckets, exported_counts, observe, count_value, started, empty_buckets,
}
use cloud_storage_system.Base.Text.{text}
use cloud_storage_system.Metrics.Export.{
  export_metrics, export_counters, export_gauges, export_histograms, header, concat,
}
use cloud_storage_system.Metrics.Buckets.{at_most, observed, all_bounds, observed-counts}

-- Thousandths as natural numbers, with a large one for infinity.
abbrev whole : Double ℕ
whole = record {
  zero_value = 0;
  add = λ a b. a + b;
  negate = λ a. 0;
  le = leb;
  thousandths = λ n. n;
  infinity = 1000000;
}

observed-counts_example :
    ((observed whole (30 ∷ 3 ∷ [])).buckets
      ≡ map
          (λ b. record { upper_bound = b; count = at_most whole b (30 ∷ 3 ∷ []) % 2 ^ 64 })
          (all_bounds whole (default_buckets whole)))
    × ((observed whole (30 ∷ 3 ∷ [])).count ≡ length {A = ℕ} (30 ∷ 3 ∷ []) % 2 ^ 64)
observed-counts_example = observed-counts whole 30 (3 ∷ [])

-- The export adds the cumulative counts up once more: after two observations, the bucket of infinity
-- is exported with a count of 27.
exported_twice :
    exported_counts whole 0 (observed whole (30 ∷ 3 ∷ [])).buckets
    ≡ 1 ∷ 2 ∷ 3 ∷ 5 ∷ 7 ∷ 9 ∷ 11 ∷ 13 ∷ 15 ∷ 17 ∷ 19 ∷ 21 ∷ 23 ∷ 25 ∷ 27 ∷ []
unfolding exported_counts observed observe count_value started empty_buckets default_buckets
exported_twice = refl

exported_counter :
    export_metrics whole
      (λ n. text "2")
      (λ n. false)
      (record { counters = (text "a", 2) ∷ []; gauges = []; histograms = [] })
    ≡ text "# HELP a Counter metric\n# TYPE a counter\na 2\n"
unfolding export_metrics export_counters export_gauges export_histograms header concat
exported_counter = refl
