-- ===== src/ThreadSafe/Covering.antt =====
-- The locks that a thread of BankingSystemThreadSafe (banking_system_thread_safe.cpp) holds at its calls,
-- whatever the other threads do.
use cloud_storage_system.Base.{
  ℕ, zero, suc, ◌==◌, ◌≡◌, ◌≢◌, ◌⊎◌, refl, sym, ap, subst, Bool, true, false, Option, none, some,
  List, [], ◌∷◌, arith, if_elim, if◌then◌else◌, Bool-cases, inl, inr,
}
use cloud_storage_system.Base.Lists.{All, In}
use cloud_storage_system.Base.Text.{Text}
use cloud_storage_system.ThreadSafe.{
  Lock, global_mutex, lock_eq, Mode, exclusive, Action, find, lock, unlock, create_mutex, call,
  Hold, System, is_free, release, has_mutex, program, continue, act, advance, Reach, start, next,
}
use cloud_storage_system.ThreadSafe.Exclusion.{account_hold}

-- The holds of one thread.
unfoldable pub own : ℕ → List Hold → List Hold
own i [] = []
own i (h ∷ held) = if h.thread == i then h ∷ own i held else own i held

own-release_same :
    (i : ℕ) (l : Lock) (held : List Hold) → own i (release i l held) ≡ release i l (own i held)
unfolding own release
own-release_same i l [] = refl
own-release_same i l (h ∷ held) = ground (arith, own-release_same i l held)

own-release_other :
    (i k : ℕ) (l : Lock) (held : List Hold) → i ≢ k → own i (release k l held) ≡ own i held
unfolding own release
own-release_other i k l [] ne = refl
own-release_other i k l (h ∷ held) ne = ground (arith, own-release_other i k l held ne)

-- A thread that starts with the holds and takes the steps of the program holds the locks of the
-- accounts at each of its calls.
abbrev pub Covers : ℕ → List (Mode × Text) → List Hold → List Action → Type 0
Covers i used held [] = Unit
Covers i used held (find a ∷ p) = Covers i used held p
Covers i used held (lock m l ∷ p) =
    Covers i used ((record { thread = i; lock = l; mode = m }) ∷ held) p
Covers i used held (unlock l ∷ p) = Covers i used (release i l held) p
Covers i used held (create_mutex a ∷ p) = Covers i used held p
Covers i used held (call ∷ p) =
    All (λ (m, a). In (account_hold i m a) held) used × Covers i used held p

program-continue_same :
    (i : ℕ) (x : Action) (p q : List Action) (ps : List (List Action))
    → program i ps ≡ x ∷ p
    → program i (continue i q ps) ≡ q
unfolding program continue
program-continue_same zero x p q [] e = ground (arith, e)
program-continue_same (suc i) x p q [] e = ground (arith, e)
program-continue_same zero x p q (r ∷ ps) e = refl
program-continue_same (suc i) x p q (r ∷ ps) e = program-continue_same i x p q ps e

program-continue_other :
    (i k : ℕ) (q : List Action) (ps : List (List Action))
    → i ≢ k
    → program i (continue k q ps) ≡ program i ps
unfolding program continue
program-continue_other i k q [] ne = refl
program-continue_other zero zero q (r ∷ ps) ne = absurd (ne refl)
program-continue_other zero (suc k) q (r ∷ ps) ne = refl
program-continue_other (suc i) zero q (r ∷ ps) ne = refl
program-continue_other (suc i) (suc k) q (r ∷ ps) ne =
    program-continue_other i k q ps (λ e. ne (ap suc e))

eq_self : (i : ℕ) → (i == i) ≡ true
eq_self i = ground arith

release_global :
    (i : ℕ) (held : List Hold)
    → release i global_mutex ((record { thread = i; lock = global_mutex; mode = exclusive }) ∷ held)
      ≡ held
unfolding release lock_eq
release_global i held = rw (eq_self i) refl

eq-cases : (i k : ℕ) → (i ≡ k) ⊎ (i ≢ k)
eq-cases i k = elim (Bool-cases (i == k)) [
  | inl y ↦ inl (ground arith)
  | inr n ↦ inr (λ e. ground (arith, e, n))
]

-- The state that a step of another thread leads to, where there is one, is the same to a thread.
abbrev Spares : ℕ → System → Option System → Type 0
Spares i u none = Unit
Spares i u (some v) = (own i v.held ≡ own i u.held) × (program i v.threads ≡ program i u.threads)

act-Spares : (i k : ℕ) (p : List Action) (u : System) → i ≢ k → Spares i u (act k p u)
unfolding act own
act-Spares i k [] u ne = tt
act-Spares i k (find a ∷ p) u ne = (refl, program-continue_other i k _ u.threads ne)
act-Spares i k (lock m l ∷ p) u ne =
    if_elim (Spares i u) (is_free m l u.held) _ _
      (λ _. (ground (arith, ne), program-continue_other i k _ u.threads ne)) (λ _. tt)
act-Spares i k (unlock l ∷ p) u ne =
    (own-release_other i k l u.held ne, program-continue_other i k _ u.threads ne)
act-Spares i k (create_mutex a ∷ p) u ne = (refl, program-continue_other i k _ u.threads ne)
act-Spares i k (call ∷ p) u ne = (refl, program-continue_other i k _ u.threads ne)

module _ (i : ℕ) (used : List (Mode × Text)) where
  abbrev pub IsCovered : System → Type 0
  IsCovered u = Covers i used (own i u.held) (program i u.threads)

  abbrev Leads : Option System → Type 0
  Leads none = Unit
  Leads (some v) = IsCovered v

  -- The way over the creation of the mutex.
  find-Covers :
      (b : Bool) (a : Text) (p : List Action) (held : List Hold)
      → Covers i used held p
      → Covers i used held
          (if b then p else lock exclusive global_mutex ∷ create_mutex a ∷ unlock global_mutex ∷ p)
  find-Covers true a p held h = h
  find-Covers false a p held h = subst (λ y. Covers i used y p) (sym (release_global i held)) h

  act-Leads :
      (p : List Action) (u : System)
      → program i u.threads ≡ p
      → Covers i used (own i u.held) p
      → Leads (act i p u)
  unfolding act own
  act-Leads [] u e h = tt
  act-Leads (find a ∷ p) u e h =
      rw (program-continue_same i (find a) p _ u.threads e)
        (find-Covers (has_mutex a u.mutexes) a p (own i u.held) h)
  act-Leads (lock m l ∷ p) u e h =
      if_elim Leads (is_free m l u.held) _ _
        (λ _. rw (program-continue_same i (lock m l) p p u.threads e, eq_self i) h) (λ _. tt)
  act-Leads (unlock l ∷ p) u e h =
      rw (program-continue_same i (unlock l) p p u.threads e, own-release_same i l u.held) h
  act-Leads (create_mutex a ∷ p) u e h =
      rw (program-continue_same i (create_mutex a) p p u.threads e) h
  act-Leads (call ∷ p) u e h = rw (program-continue_same i call p p u.threads e) h.1

  step-IsCovered : (k : ℕ) (u v : System) → advance k u ≡ some v → IsCovered u → IsCovered v
  unfolding advance
  step-IsCovered k u v y h = elim (eq-cases i k) [
    | inl e ↦ subst Leads y (
        subst (λ j. Leads (act j (program j u.threads) u)) e
          (act-Leads (program i u.threads) u refl h))
    | inr ne ↦ let (a, b) = subst (Spares i u) y (act-Spares i k _ u ne) in rw (a, b) h
  ]

  pub Reach-IsCovered : (s u : System) → Reach s u → IsCovered s → IsCovered u
  Reach-IsCovered s u start h = h
  Reach-IsCovered s u (next k r y) h = step-IsCovered k _ u y (Reach-IsCovered s _ r h)
