-- ===== src/ThreadSafe/Deadlock.antt =====
-- Two threads that wait for each other, and two that reach the bank at once.
use cloud_storage_system.Base.{
  ℕ, zero, suc, ◌≡◌, ◌≢◌, refl, sym, ap, ◌∙◌, subst, false, Option, none, some, List, [], ◌∷◌,
  arith, inl, inr, ◌>>=◌, Option-cases,
}
use mathlib.Core.Option.{some-injective}
use cloud_storage_system.Base.Text.{Text, text_eq, text_eq_iff, text_eq_refl}
use cloud_storage_system.ThreadSafe.{
  transfer_plan, deposit_plan, Action, account_mutex, exclusive, lock, unlock, call, Hold, System,
  is_free, clashes, act, advance, program, continue, Reach, start, next, lock_eq, two_accounts_plan,
  one_account_plan, releases, has_mutex, both_shared,
}

-- No thread can take a step.
abbrev pub IsStuck : System → Type 0
IsStuck s = (i : ℕ) → advance i s ≡ none

-- Two threads about to transfer between two accounts, in opposite directions.
abbrev pub opposite : Text → Text → System
opposite a b = record {
  threads = transfer_plan a b ∷ transfer_plan b a ∷ [];
  held = [];
  mutexes = a ∷ b ∷ [];
}

abbrev holds : ℕ → Text → Hold
holds i a = record { thread = i; lock = account_mutex a; mode = exclusive }

-- What a transfer has left to do, once it holds its first lock and has found the second one.
abbrev half : Text → Text → List Action
half a b = lock exclusive (account_mutex b) ∷ call ∷ releases a b

abbrev pub crossed : Text → Text → System
crossed a b = record {
  threads = half a b ∷ half b a ∷ [];
  held = holds 1 b ∷ holds 0 a ∷ [];
  mutexes = a ∷ b ∷ [];
}

-- The steps of the threads in a given order.
unfoldable pub runs : List ℕ → System → Option System
runs [] s = some s
runs (i ∷ is) s = advance i s >>= runs is

pub runs-Reach : (is : List ℕ) (s u v : System) → Reach s u → runs is u ≡ some v → Reach s v
unfolding runs
runs-Reach [] s u v r e = subst (Reach s) (some-injective u v e) r
runs-Reach (i ∷ is) s u v r e = elim (Option-cases (advance i u)) [
  | inl n ↦ absurd (ground (arith, n, e))
  | inr (w, y) ↦ runs-Reach is s w v (next i r y) (ap (λ o. o >>= runs is) (sym y) ∙ e)
]

text_eq-false : (a b : Text) → a ≢ b → text_eq a b ≡ false
text_eq-false a b ne = ground (arith, text_eq_iff a b, ne)

pub cross :
    (a b : Text) → a ≢ b → runs (0 ∷ 0 ∷ 1 ∷ 1 ∷ 0 ∷ 1 ∷ []) (opposite a b) ≡ some (crossed a b)
unfolding runs advance act program continue two_accounts_plan is_free clashes lock_eq both_shared
    has_mutex
cross a b ne =
    rw (text_eq_refl a, text_eq-false a b ne, text_eq_refl b, text_eq-false b a (λ e. ne (sym e)))
      (rw (text_eq-false a b ne, text_eq_refl a, text_eq_refl b) refl)

-- Two transfers between the same two accounts in opposite directions can reach a state
-- with calls left in both threads in which each holds the mutex that the other waits for, so that
-- neither takes another step.
pub opposite-IsStuck :
    (a b : Text)
    → a ≢ b
    → (s : System) × Reach (opposite a b) s
      × IsStuck s
      × (program 0 s.threads ≢ [])
      × (program 1 s.threads ≢ [])
unfolding advance act program continue is_free clashes lock_eq both_shared
opposite-IsStuck a b ne = (
  crossed a b,
  runs-Reach _ _ _ _ start (cross a b ne),
  stuck,
  λ e. ground (arith, e),
  λ e. ground (arith, e),
)
  where
    stuck : IsStuck (crossed a b)
    stuck zero = rw (text_eq_refl b) refl
    stuck (suc zero) = rw (text_eq_refl a, text_eq-false a b ne) refl
    stuck (suc (suc i)) = refl

-- Two deposits into two accounts, by two threads.
abbrev pub deposits : Text → Text → System
deposits a b = record {
  threads = deposit_plan a ∷ deposit_plan b ∷ [];
  held = [];
  mutexes = a ∷ b ∷ [];
}

abbrev calling : Text → List Action
calling a = call ∷ unlock (account_mutex a) ∷ []

both :
    (a b : Text)
    → a ≢ b
    → runs (0 ∷ 0 ∷ 1 ∷ 1 ∷ []) (deposits a b)
      ≡ some (record {
        threads = calling a ∷ calling b ∷ [];
        held = holds 1 b ∷ holds 0 a ∷ [];
        mutexes = a ∷ b ∷ [];
      })
unfolding runs advance act program continue one_account_plan is_free clashes lock_eq both_shared
    has_mutex
both a b ne =
    rw (text_eq_refl a, text_eq-false a b ne, text_eq_refl b, text_eq-false b a (λ e. ne (sym e)))
      refl

-- Two deposits into different accounts can reach a state in which both threads are about to call the
-- bank: the locks do not keep calls of the bank, whose maps all operations share, apart.
pub deposits-overlap :
    (a b : Text)
    → a ≢ b
    → (s : System) × Reach (deposits a b) s
      × ((p : List Action) × (program 0 s.threads ≡ call ∷ p))
      × ((p : List Action) × (program 1 s.threads ≡ call ∷ p))
unfolding program
deposits-overlap a b ne = (_, runs-Reach _ _ _ _ start (both a b ne), (_, refl), (_, refl))
