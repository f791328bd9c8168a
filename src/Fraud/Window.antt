-- ===== src/Fraud/Window.antt =====
-- What addTransaction of ai/fraud_detection_agent.cpp keeps of a sequence of transactions.
use cloud_storage_system.Base.{
  ℕ, suc, ◌-◌, ◌≤◌, ◌≡◌, refl, sym, ap, ◌∙◌, true, false, List, [], ◌∷◌, ◌++◌, map, arith, ltb,
  if◌then◌else◌, get_or, Bool-cases, inl, inr,
}
use mathlib.Core.List.{append_assoc, append-nil}
use cloud_storage_system.Base.Int.{ℤ, pos, ◌+ℤ◌, +ℤ_zero, zero_+ℤ, int_laws}
use cloud_storage_system.Base.Lists.{length, drop, length-append}
use cloud_storage_system.Base.Text.{Text, text_eq, text_eq_iff}
use cloud_storage_system.Base.Dict.{Dict, lookup, lookup-insert}
use cloud_storage_system.Server.{TransactionData}
use cloud_storage_system.Fraud.{
  Floats, AccountHistory, trim, count_key, new_history, update_statistics, add_transaction,
}

-- The last `n` entries.
abbrev pub newest : ℕ → List TransactionData → List TransactionData
newest n xs = drop (length xs - n) xs

trim-newest : (xs : List TransactionData) → trim xs ≡ newest 1000 xs
unfolding trim
trim-newest [] = refl
trim-newest (t ∷ ts) = elim (Bool-cases (ltb 1000 (suc (length ts)))) [
  | inl y ↦
      let e : suc (length ts) - 1000 ≡ suc (length ts - 1000) = ground arith in
      rw (y, e) (trim-newest ts)
  | inr n ↦ let e : suc (length ts) - 1000 ≡ 0 = ground arith in rw (n, e) refl
]

-- What is dropped early would have been dropped later.
trim-trim : (xs ys : List TransactionData) → trim (trim xs ++ ys) ≡ trim (xs ++ ys)
unfolding trim
trim-trim [] ys = refl
trim-trim (t ∷ ts) ys = elim (Bool-cases (ltb 1000 (suc (length ts)))) [
  | inl y ↦
      let longer : ltb 1000 (suc (length (ts ++ ys))) ≡ true =
        ground (arith, length-append ts ys) in
      rw (y, longer) (trim-trim ts ys)
  | inr n ↦ rw n refl
]

trim_nil : trim [] ≡ []
unfolding trim
trim_nil = refl

trim_idem : (xs : List TransactionData) → trim (trim xs) ≡ trim xs
trim_idem xs = ap trim (sym (append-nil (trim xs))) ∙ trim-trim xs [] ∙ ap trim (append-nil xs)

trim-length : (xs : List TransactionData) → length (trim xs) ≤ 1000
unfolding trim
trim-length [] = omega arith
trim-length (t ∷ ts) = elim (Bool-cases (ltb 1000 (suc (length ts)))) [
  | inl y ↦ rw y (trim-length ts)
  | inr n ↦ rw n (ground arith)
]

trim-cons :
    (xs : List TransactionData) (tx : TransactionData)
    → (t : TransactionData) × (ts : List TransactionData) × (trim (xs ++ tx ∷ []) ≡ t ∷ ts)
unfolding trim
trim-cons [] tx = (tx, [], refl)
trim-cons (x ∷ xs) tx = elim (Bool-cases (ltb 1000 (suc (length (xs ++ tx ∷ []))))) [
  | inl y ↦ rw y (trim-cons xs tx)
  | inr n ↦ rw n (x, xs ++ tx ∷ [], refl)
]

regroup : (a b c : ℤ) → (a +ℤ b) +ℤ c ≡ a +ℤ (b +ℤ c)
regroup a b c = omega int_laws

abbrev pub count_at : Text → Dict ℤ → ℤ
count_at key counts = get_or (pos 0) (lookup key counts)

-- How many have this location.
pub occurrences : Text → List TransactionData → ℤ
occurrences key [] = pos 0
occurrences key (t ∷ ts) = (if text_eq t.location key then pos 1 else pos 0) +ℤ occurrences key ts

empty_ne_cons : (c : ℕ) (cs : Text) → text_eq [] (c ∷ cs) ≡ false
unfolding text_eq
empty_ne_cons c cs = refl

count_at-count_key :
    (k : Text) (c : ℕ) (cs : Text) (counts : Dict ℤ)
    → count_at (c ∷ cs) (count_key k counts)
      ≡ count_at (c ∷ cs) counts +ℤ (if text_eq k (c ∷ cs) then pos 1 else pos 0)
unfolding count_key
count_at-count_key [] c cs counts = rw (empty_ne_cons c cs, +ℤ_zero) refl
count_at-count_key (d ∷ ds) c cs counts = elim (Bool-cases (text_eq (d ∷ ds) (c ∷ cs))) [
  | inl y ↦
      rw (lookup-insert (d ∷ ds) (c ∷ cs) (count_at (d ∷ ds) counts +ℤ pos 1) counts, y)
        (ap (λ k. count_at k counts +ℤ pos 1) ((text_eq_iff (d ∷ ds) (c ∷ cs)).0 y))
  | inr n ↦
      rw (lookup-insert (d ∷ ds) (c ∷ cs) (count_at (d ∷ ds) counts +ℤ pos 1) counts, n, +ℤ_zero)
        refl
]

module _ {N : Type 0} (floats : Floats N) where
  -- The transactions of an account, each with the reading of the clock.
  pub add_all : List (ℕ × TransactionData) → AccountHistory N → AccountHistory N
  add_all [] h = h
  add_all ((now, tx) ∷ rest) h = add_all rest (add_transaction floats now tx h)

  add_transaction-recent :
      (now : ℕ) (tx : TransactionData) (h : AccountHistory N)
      → (add_transaction floats now tx h).recent_transactions
        ≡ trim (h.recent_transactions ++ tx ∷ [])
  unfolding add_transaction update_statistics
  add_transaction-recent now tx h = let (t, ts, e) = trim-cons h.recent_transactions tx in rw e refl

  add_transaction-counts :
      (now : ℕ) (tx : TransactionData) (h : AccountHistory N)
      → (add_transaction floats now tx h).location_counts ≡ count_key tx.location h.location_counts
  unfolding add_transaction update_statistics
  add_transaction-counts now tx h = let (t, ts, e) = trim-cons h.recent_transactions tx in rw e refl

  abbrev transactions : List (ℕ × TransactionData) → List TransactionData
  transactions = map (λ p. p.1)

  add_all-recent :
      (txs : List (ℕ × TransactionData)) (h : AccountHistory N)
      → trim h.recent_transactions ≡ h.recent_transactions
      → (add_all txs h).recent_transactions ≡ trim (h.recent_transactions ++ transactions txs)
  unfolding add_all
  add_all-recent [] h e = rw (append-nil h.recent_transactions, e) refl
  add_all-recent ((now, tx) ∷ rest) h e =
      let h' = add_transaction floats now tx h in
      let recent = add_transaction-recent now tx h in
      let again : trim h'.recent_transactions ≡ h'.recent_transactions =
        ap trim recent ∙ trim_idem (h.recent_transactions ++ tx ∷ []) ∙ sym recent in
      add_all-recent rest h' again
      ∙ ap (λ r. trim (r ++ transactions rest)) recent
      ∙ trim-trim (h.recent_transactions ++ tx ∷ []) (transactions rest)
      ∙ ap trim (append_assoc h.recent_transactions (tx ∷ []) (transactions rest))

  add_all-counts :
      (txs : List (ℕ × TransactionData)) (c : ℕ) (cs : Text) (h : AccountHistory N)
      → count_at (c ∷ cs) (add_all txs h).location_counts
        ≡ count_at (c ∷ cs) h.location_counts +ℤ occurrences (c ∷ cs) (transactions txs)
  unfolding add_all occurrences
  add_all-counts [] c cs h = sym (+ℤ_zero _)
  add_all-counts ((now, tx) ∷ rest) c cs h =
      rw
        (
          add_all-counts rest c cs (add_transaction floats now tx h),
          add_transaction-counts now tx h,
          count_at-count_key tx.location c cs h.location_counts,
        )
        (regroup _ _ _)

  -- An account's history keeps the last thousand of the transactions that were added to it, in their
  -- order, and no more; the count of a location, which is not empty, is the number of all
  -- transactions with it that were ever added, those that were dropped included.
  pub add_all-window :
      (txs : List (ℕ × TransactionData)) (now : ℕ) (c : ℕ) (cs : Text)
      → let h = add_all txs (new_history floats now) in
        (h.recent_transactions ≡ newest 1000 (map (λ p. p.1) txs))
        × (length h.recent_transactions ≤ 1000)
        × (count_at (c ∷ cs) h.location_counts ≡ occurrences (c ∷ cs) (map (λ p. p.1) txs))
  unfolding lookup
  add_all-window txs now c cs =
      let recent = add_all-recent txs (new_history floats now) trim_nil in
      let short = trim-length (transactions txs) in
      (
        recent ∙ trim-newest (transactions txs),
        rw recent short,
        add_all-counts txs c cs (new_history floats now) ∙ zero_+ℤ _,
      )
