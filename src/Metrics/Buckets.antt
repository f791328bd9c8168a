-- ===== src/Metrics/Buckets.antt =====
-- What the buckets of a histogram count, and what is exported of them.
use cloud_storage_system.Base.{
  ℕ, ◌+◌, ◌%◌, ◌^◌, ◌≡◌, refl, ap, ◌∙◌, List, [], ◌∷◌, map, if◌then◌else◌, arith, Bool-cases, inl,
  inr,
}
use cloud_storage_system.Base.Lists.{length}
use cloud_storage_system.Metrics.{
  Double, HistogramBucket, Histogram, observe, count_value, started, empty_buckets, default_buckets,
  new_histogram,
}

module _ {N : Type 0} (double : Double N) where
  -- How many of the values are at most a bound.
  unfoldable pub at_most : N → List N → ℕ
  at_most bound [] = 0
  at_most bound (v ∷ vs) = if double.le v bound then at_most bound vs + 1 else at_most bound vs

  -- The histogram after some observations, the last one first.
  unfoldable pub observed : List N → Histogram N
  observed [] = new_histogram double
  observed (v ∷ vs) = observe double v (observed vs)

  abbrev bucket_of : List N → N → HistogramBucket N
  bucket_of vs bound = record { upper_bound = bound; count = at_most bound vs % 2 ^ 64 }

  abbrev pub all_bounds : List N → List N
  all_bounds [] = double.infinity ∷ []
  all_bounds (b ∷ bs) = b ∷ all_bounds bs

  empty_buckets-map :
      (bounds : List N) → empty_buckets double bounds ≡ map (bucket_of []) (all_bounds bounds)
  unfolding empty_buckets at_most
  empty_buckets-map [] = refl
  empty_buckets-map (b ∷ bs) = ap (bucket_of [] b ∷◌) (empty_buckets-map bs)

  counted :
      (v : N) (vs : List N) (b : N)
      → (if double.le v b
          then record (bucket_of vs b) { count = (at_most b vs % 2 ^ 64 + 1) % 2 ^ 64 }
          else bucket_of vs b)
        ≡ bucket_of (v ∷ vs) b
  unfolding at_most
  counted v vs b = elim (Bool-cases (double.le v b)) [
    | inl e ↦
        let sum : (at_most b vs % 2 ^ 64 + 1) % 2 ^ 64 ≡ (at_most b vs + 1) % 2 ^ 64 =
          omega arith in
        rw (e, at_most) (ap (λ n. record { upper_bound = b; count = n }) sum)
    | inr e ↦ rw (e, at_most) refl
  ]

  count_value-map :
      (v : N) (vs bounds : List N)
      → count_value double v (map (bucket_of vs) bounds) ≡ map (bucket_of (v ∷ vs)) bounds
  unfolding count_value at_most
  count_value-map v vs [] = refl
  count_value-map v vs (b ∷ bs) =
      ap (◌∷ count_value double v (map (bucket_of vs) bs)) (counted v vs b)
      ∙ ap (bucket_of (v ∷ vs) b ∷◌) (count_value-map v vs bs)

  observed-eq :
      (v : N) (vs : List N)
      → (observed (v ∷ vs)).buckets ≡ map (bucket_of (v ∷ vs)) (all_bounds (default_buckets double))
  unfolding observed observe started default_buckets
  observed-eq v [] =
      ap (count_value double v) (empty_buckets-map (default_buckets double))
      ∙ count_value-map v [] (all_bounds (default_buckets double))
  observed-eq v (w ∷ vs) =
      ap (λ l. count_value double v (started double l)) (observed-eq w vs)
      ∙ count_value-map v (w ∷ vs) (all_bounds (default_buckets double))

  count-observed : (vs : List N) → (observed vs).count ≡ length vs % 2 ^ 64
  unfolding observed observe
  count-observed [] = refl
  count-observed (v ∷ vs) = omega (arith, count-observed vs)

-- After any observations, at least one, a histogram has a bucket for each default bound and one for
-- infinity, each with the number of the observed values that are at most its bound, and its own count
-- is the number of observations, both modulo 2^64. So the counts of the buckets are cumulative already.
pub observed-counts :
    {N : Type 0} (double : Double N) (v : N) (vs : List N)
    → ((observed double (v ∷ vs)).buckets
        ≡ map
            (λ b. record { upper_bound = b; count = at_most double b (v ∷ vs) % 2 ^ 64 })
            (all_bounds double (default_buckets double)))
      × ((observed double (v ∷ vs)).count ≡ length (v ∷ vs) % 2 ^ 64)
observed-counts double v vs = (observed-eq double v vs, count-observed double (v ∷ vs))
