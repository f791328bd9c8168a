-- ===== src/ThreadSafe.antt =====
-- The locks of BankingSystemThreadSafe (banking_system_thread_safe.cpp): what each operation locks, and
-- the steps of several threads.
pub mod Exclusion
pub mod Covering
pub mod Accounts
pub mod Deadlock
mod Tests
use cloud_storage_system.Base.{
  ℕ, zero, suc, ◌==◌, ◌≡◌, Bool, true, false, ◌&&◌, ◌||◌, not, Option, none, some, List, [], ◌∷◌,
  ◌++◌, if◌then◌else◌,
}
use cloud_storage_system.Base.Text.{Text, text_eq, text_lt}

-- global_mutex_, or the mutex of an account.
pub data Lock : Type 0 where
  global_mutex : Lock
  account_mutex : Text → Lock

unfoldable pub lock_eq : Lock → Lock → Bool
lock_eq global_mutex global_mutex = true
lock_eq global_mutex (account_mutex _) = false
lock_eq (account_mutex _) global_mutex = false
lock_eq (account_mutex a) (account_mutex b) = text_eq a b

-- How a std::shared_mutex is held: by a shared_lock or by a unique_lock.
pub data Mode : Type 0 where
  shared : Mode
  exclusive : Mode

unfoldable pub both_shared : Mode → Mode → Bool
both_shared shared shared = true
both_shared shared exclusive = false
both_shared exclusive _ = false

-- What a thread does: the lookup in getAccountMutex, a lock, an unlock, the creation of an account's
-- mutex, and the call of the bank.
pub data Action : Type 0 where
  find : Text → Action
  lock : Mode → Lock → Action
  unlock : Lock → Action
  create_mutex : Text → Action
  call : Action

-- The operations, up to the release of their locks. Swapping the locks after both are held only
-- changes the order of the releases.
unfoldable pub create_account_plan : List Action
create_account_plan = lock exclusive global_mutex ∷ call ∷ unlock global_mutex ∷ []

unfoldable pub one_account_plan : Text → List Action
one_account_plan a =
    find a ∷ lock exclusive (account_mutex a) ∷ call ∷ unlock (account_mutex a) ∷ []

abbrev pub deposit_plan : Text → List Action
deposit_plan a = one_account_plan a

abbrev pub schedule_payment_plan : Text → List Action
schedule_payment_plan a = one_account_plan a

abbrev pub cancel_payment_plan : Text → List Action
cancel_payment_plan a = one_account_plan a

unfoldable pub releases : Text → Text → List Action
releases a b =
    if text_lt b a
    then unlock (account_mutex a) ∷ unlock (account_mutex b) ∷ []
    else unlock (account_mutex b) ∷ unlock (account_mutex a) ∷ []

unfoldable pub two_accounts_plan : Text → Text → List Action
two_accounts_plan a b =
    find a
    ∷ lock exclusive (account_mutex a)
    ∷ find b
    ∷ lock exclusive (account_mutex b)
    ∷ call
    ∷ releases a b

abbrev pub transfer_plan : Text → Text → List Action
transfer_plan source target = two_accounts_plan source target

abbrev pub merge_accounts_plan : Text → Text → List Action
merge_accounts_plan a1 a2 = two_accounts_plan a1 a2

unfoldable pub top_spenders_plan : List Action
top_spenders_plan = lock shared global_mutex ∷ call ∷ unlock global_mutex ∷ []

unfoldable pub get_balance_plan : Text → List Action
get_balance_plan a = find a ∷ lock shared (account_mutex a) ∷ call ∷ unlock (account_mutex a) ∷ []

-- A lock that a thread holds.
pub record Hold : Type 0 where
  pub thread : ℕ
  pub lock : Lock
  pub mode : Mode

-- What each thread has left to do, the locks that are held, and the keys of account_mutexes_.
pub record System : Type 0 where
  pub threads : List (List Action)
  pub held : List Hold
  pub mutexes : List Text

unfoldable pub clashes : Mode → Lock → Hold → Bool
clashes m l h = lock_eq l h.lock && not (both_shared m h.mode)

-- The lock can be taken in that mode. A thread that holds it already is no exception.
unfoldable pub is_free : Mode → Lock → List Hold → Bool
is_free m l [] = true
is_free m l (h ∷ held) = not (clashes m l h) && is_free m l held

unfoldable pub release : ℕ → Lock → List Hold → List Hold
release i l [] = []
release i l (h ∷ held) = if (h.thread == i) && lock_eq h.lock l then held else h ∷ release i l held

unfoldable pub has_mutex : Text → List Text → Bool
has_mutex a [] = false
has_mutex a (b ∷ bs) = text_eq b a || has_mutex a bs

unfoldable pub program : ℕ → List (List Action) → List Action
program i [] = []
program zero (p ∷ ps) = p
program (suc i) (p ∷ ps) = program i ps

unfoldable pub continue : ℕ → List Action → List (List Action) → List (List Action)
continue i q [] = []
continue zero q (p ∷ ps) = q ∷ ps
continue (suc i) q (p ∷ ps) = p ∷ continue i q ps

-- One step of a thread; no result where it has finished, or waits for a lock.
unfoldable pub act : ℕ → List Action → System → Option System
act i [] s = none
act i (find a ∷ p) s = some (record s {
  threads =
      continue i
        (if has_mutex a s.mutexes
          then p
          else lock exclusive global_mutex ∷ create_mutex a ∷ unlock global_mutex ∷ p)
        s.threads;
})
act i (lock m l ∷ p) s =
    if is_free m l s.held
    then some (record s {
      threads = continue i p s.threads;
      held = (record { thread = i; lock = l; mode = m }) ∷ s.held;
    })
    else none
act i (unlock l ∷ p) s =
    some (record s { threads = continue i p s.threads; held = release i l s.held })
act i (create_mutex a ∷ p) s = some (record s {
  threads = continue i p s.threads;
  mutexes = (if has_mutex a s.mutexes then s.mutexes else a ∷ s.mutexes);
})
act i (call ∷ p) s = some (record s { threads = continue i p s.threads })

unfoldable pub advance : ℕ → System → Option System
advance i s = act i (program i s.threads) s

-- The states that steps of the threads, in any order, lead to.
pub data Reach (s : System) : System → Type 0 where
  start : Reach s s
  next : {u v : System} (i : ℕ) → Reach s u → advance i u ≡ some v → Reach s v
