-- ===== src/ThreadSafe/Accounts.antt =====
-- The operations of BankingSystemThreadSafe (banking_system_thread_safe.cpp), and what the mutexes of the
-- accounts keep apart.
use cloud_storage_system.Base.{
  ℕ, zero, suc, ◌≡◌, ◌≢◌, refl, sym, ap, subst, true, Option, none, some, List, [], ◌∷◌, map, arith,
  if_elim, inl, inr,
}
use mathlib.Core.Option.{some-injective}
use cloud_storage_system.Base.Lists.{All, In}
use cloud_storage_system.Base.Text.{Text, text_lt}
use cloud_storage_system.ThreadSafe.{
  create_account_plan, top_spenders_plan, account_mutex, Mode, shared, exclusive, both_shared,
  Action, unlock, call, deposit_plan, schedule_payment_plan, cancel_payment_plan, transfer_plan,
  merge_accounts_plan, get_balance_plan, one_account_plan, two_accounts_plan, releases, Hold,
  System, program, Reach,
}
use cloud_storage_system.ThreadSafe.Covering.{own, Covers, IsCovered, Reach-IsCovered}
use cloud_storage_system.ThreadSafe.Exclusion.{account_hold, Reach-IsExclusive, holds-both_shared}

-- The operations.
pub data Operation : Type 0 where
  deposits schedules_payment cancels_payment asks_balance : Text → Operation
  transfers merges_accounts : Text → Text → Operation
  creates_account ranks_spenders : Operation

unfoldable pub plan : Operation → List Action
plan (deposits a) = deposit_plan a
plan (schedules_payment a) = schedule_payment_plan a
plan (cancels_payment a) = cancel_payment_plan a
plan (asks_balance a) = get_balance_plan a
plan (transfers a b) = transfer_plan a b
plan (merges_accounts a b) = merge_accounts_plan a b
plan creates_account = create_account_plan
plan ranks_spenders = top_spenders_plan

-- The accounts whose mutexes an operation is to hold while it calls the bank, shared where it only
-- reads the account.
unfoldable pub uses : Operation → List (Mode × Text)
uses (deposits a) = (exclusive, a) ∷ []
uses (schedules_payment a) = (exclusive, a) ∷ []
uses (cancels_payment a) = (exclusive, a) ∷ []
uses (asks_balance a) = (shared, a) ∷ []
uses (transfers a b) = (exclusive, a) ∷ (exclusive, b) ∷ []
uses (merges_accounts a b) = (exclusive, a) ∷ (exclusive, b) ∷ []
uses creates_account = []
uses ranks_spenders = []

releases-Covers :
    (i : ℕ) (used : List (Mode × Text)) (held : List Hold) (a b : Text)
    → Covers i used held (releases a b)
unfolding releases
releases-Covers i used held a b =
    if_elim (Covers i used held) (text_lt b a)
      (unlock (account_mutex a) ∷ unlock (account_mutex b) ∷ [])
      (unlock (account_mutex b) ∷ unlock (account_mutex a) ∷ []) (λ _. tt) (λ _. tt)

two_accounts-Covers :
    (i : ℕ) (a b : Text)
    → Covers i ((exclusive, a) ∷ (exclusive, b) ∷ []) [] (two_accounts_plan a b)
unfolding two_accounts_plan
two_accounts-Covers i a b = (
  (inr (inl refl), (inl refl, tt)),
  releases-Covers i ((exclusive, a) ∷ (exclusive, b) ∷ [])
      (account_hold i exclusive b ∷ account_hold i exclusive a ∷ []) a b,
)

plan-Covers : (i : ℕ) (o : Operation) → Covers i (uses o) [] (plan o)
unfolding plan uses one_account_plan get_balance_plan create_account_plan top_spenders_plan
plan-Covers i (deposits a) = ((inl refl, tt), tt)
plan-Covers i (schedules_payment a) = ((inl refl, tt), tt)
plan-Covers i (cancels_payment a) = ((inl refl, tt), tt)
plan-Covers i (asks_balance a) = ((inl refl, tt), tt)
plan-Covers i (transfers a b) = two_accounts-Covers i a b
plan-Covers i (merges_accounts a b) = two_accounts-Covers i a b
plan-Covers i creates_account = (tt, tt)
plan-Covers i ranks_spenders = (tt, tt)

In-own : (i : ℕ) (h : Hold) (held : List Hold) → In h (own i held) → In h held
unfolding own
In-own i h [] w = w
In-own i h (x ∷ held) w = ground (arith, In-own i h held)

All-In :
    (P : Mode × Text → Type 0) (x : Mode × Text) (xs : List (Mode × Text))
    → All P xs
    → In x xs
    → P x
All-In P x [] h w = absurd w
All-In P x (y ∷ xs) h (inl e) = subst P e h.0
All-In P x (y ∷ xs) h (inr w) = All-In P x xs h.1 w

-- Threads that have an operation each before them, with no lock held.
abbrev pub operating : List Operation → List Text → System
operating ops mutexes = record { threads = map plan ops; held = []; mutexes = mutexes }

abbrev pub get_elem? : List Operation → ℕ → Option Operation
get_elem? [] i = none
get_elem? (o ∷ ops) zero = some o
get_elem? (o ∷ ops) (suc i) = get_elem? ops i

program-map :
    (ops : List Operation) (i : ℕ) (o : Operation)
    → get_elem? ops i ≡ some o
    → program i (map plan ops) ≡ plan o
unfolding program
program-map [] i o e = ground (arith, e)
program-map (x ∷ ops) zero o e = ap plan (some-injective x o e)
program-map (x ∷ ops) (suc i) o e = program-map ops i o e

-- The locks that a thread of such a system holds when it is about to call the bank.
held_at_call :
    (ops : List Operation) (mutexes : List Text) (u : System) (i : ℕ) (o : Operation)
    (p : List Action) (m : Mode) (a : Text)
    → Reach (operating ops mutexes) u
    → get_elem? ops i ≡ some o
    → program i u.threads ≡ call ∷ p
    → In (m, a) (uses o)
    → In (account_hold i m a) u.held
unfolding own
held_at_call ops mutexes u i o p m a r e c w =
    let first : IsCovered i (uses o) (operating ops mutexes) =
      subst (Covers i (uses o) []) (sym (program-map ops i o e)) (plan-Covers i o) in
    let h =
      subst (Covers i (uses o) (own i u.held)) c
        (Reach-IsCovered i (uses o) (operating ops mutexes) u r first) in
    In-own i (account_hold i m a) u.held (All-In _ (m, a) (uses o) h.0 w)

-- However threads with an operation each interleave, from a state in which no lock is held: where two of
-- them stand at their calls of the bank at the same time, both for the same account (that of a deposit,
-- of a payment to schedule or cancel or of a question for a balance, or one of the two of a transfer or
-- a merge), then both only ask for its balance.
pub calls-both_shared :
    (ops : List Operation) (mutexes : List Text) (u : System) (i j : ℕ) (o q : Operation)
    (p r : List Action) (m n : Mode) (a : Text)
    → Reach (operating ops mutexes) u
    → i ≢ j
    → get_elem? ops i ≡ some o
    → get_elem? ops j ≡ some q
    → program i u.threads ≡ call ∷ p
    → program j u.threads ≡ call ∷ r
    → In (m, a) (uses o)
    → In (n, a) (uses q)
    → both_shared m n ≡ true
calls-both_shared ops mutexes u i j o q p r m n a w ne e f c d x y =
    holds-both_shared i j a m n u.held ne (Reach-IsExclusive (operating ops mutexes) u refl w)
      (held_at_call ops mutexes u i o p m a w e c x) (held_at_call ops mutexes u j q r n a w f d y)
