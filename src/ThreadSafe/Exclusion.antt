-- ===== src/ThreadSafe/Exclusion.antt =====
-- No two threads hold a mutex but where both share it.
use cloud_storage_system.Base.{
  ℕ, ◌≡◌, refl, sym, subst, true, Option, none, some, List, [], ◌∷◌, arith, if_elim,
}
use cloud_storage_system.Base.{◌≢◌, inl, inr, ap, ◌∙◌, false}
use cloud_storage_system.Base.Lists.{In}
use cloud_storage_system.Base.Text.{Text, text_eq_refl}
use cloud_storage_system.ThreadSafe.{
  account_mutex, both_shared, clashes, shared, exclusive, lock_eq, Lock, Mode, Action, find, lock,
  unlock, create_mutex, call, Hold, System, is_free, release, act, advance, Reach, start, next,
}

-- A thread's hold of the mutex of an account.
abbrev pub account_hold : ℕ → Mode → Text → Hold
account_hold i m a = record { thread = i; lock = account_mutex a; mode = m }

-- Each hold was taken while the ones behind it in the list left its mutex free.
abbrev pub IsExclusive : List Hold → Type 0
IsExclusive [] = Unit
IsExclusive (h ∷ held) = (is_free h.mode h.lock held ≡ true) × IsExclusive held

is_free-release :
    (m : Mode) (l : Lock) (i : ℕ) (k : Lock) (held : List Hold)
    → is_free m l held ≡ true
    → is_free m l (release i k held) ≡ true
unfolding is_free release
is_free-release m l i k [] h = refl
is_free-release m l i k (x ∷ held) h = ground (arith, is_free-release m l i k held)

release-IsExclusive :
    (i : ℕ) (k : Lock) (held : List Hold) → IsExclusive held → IsExclusive (release i k held)
unfolding release
release-IsExclusive i k [] h = tt
release-IsExclusive i k (x ∷ held) h =
    if_elim IsExclusive _ held (x ∷ release i k held) (λ _. h.1)
      (λ _. (is_free-release x.mode x.lock i k held h.0, release-IsExclusive i k held h.1))

-- The property of the state that a step leads to, where there is one.
abbrev Leads : Option System → Type 0
Leads none = Unit
Leads (some v) = IsExclusive v.held

act-Leads : (i : ℕ) (p : List Action) (u : System) → IsExclusive u.held → Leads (act i p u)
unfolding act
act-Leads i [] u h = tt
act-Leads i (find a ∷ p) u h = h
act-Leads i (lock m l ∷ p) u h =
    if_elim Leads (is_free m l u.held) _ _ (λ free. (free, h)) (λ _. tt)
act-Leads i (unlock l ∷ p) u h = release-IsExclusive i l u.held h
act-Leads i (create_mutex a ∷ p) u h = h
act-Leads i (call ∷ p) u h = h

pub Reach-IsExclusive : (s u : System) → s.held ≡ [] → Reach s u → IsExclusive u.held
unfolding advance
Reach-IsExclusive s u e start = subst IsExclusive (sym e) tt
Reach-IsExclusive s u e (next i r y) = subst Leads y (act-Leads i _ _ (Reach-IsExclusive s _ e r))

clashes_at :
    (m : Mode) (l : Lock) (k : Hold) (held : List Hold)
    → is_free m l held ≡ true
    → In k held
    → clashes m l k ≡ false
unfolding is_free
clashes_at m l k [] f h = absurd h
clashes_at m l k (x ∷ held) f (inl e) = subst (λ h. clashes m l h ≡ false) e (ground arith)
clashes_at m l k (x ∷ held) f (inr h) = clashes_at m l k held (ground arith) h

modes_apart :
    (i : ℕ) (a : Text) (m n : Mode)
    → clashes m (account_mutex a) (account_hold i n a) ≡ false
    → (both_shared m n ≡ true) × (both_shared n m ≡ true)
unfolding clashes lock_eq both_shared
modes_apart i a shared shared h = (refl, refl)
modes_apart i a shared exclusive h = ground (arith, text_eq_refl a)
modes_apart i a exclusive n h = ground (arith, text_eq_refl a)

-- Two threads hold the mutex of an account only in shared mode.
pub holds-both_shared :
    (i j : ℕ) (a : Text) (m n : Mode) (held : List Hold)
    → i ≢ j
    → IsExclusive held
    → In (account_hold i m a) held
    → In (account_hold j n a) held
    → both_shared m n ≡ true
holds-both_shared i j a m n [] ne h g k = absurd g
holds-both_shared i j a m n (x ∷ held) ne h (inl e) (inl f) =
    absurd (ne (ap (λ (y : Hold). y.thread) (sym e ∙ f)))
holds-both_shared i j a m n (x ∷ held) ne h (inl e) (inr g) =
    let free = subst (λ (y : Hold). is_free y.mode y.lock held ≡ true) e h.0 in
    (modes_apart j a m n (clashes_at m (account_mutex a) (account_hold j n a) held free g)).0
holds-both_shared i j a m n (x ∷ held) ne h (inr g) (inl f) =
    let free = subst (λ (y : Hold). is_free y.mode y.lock held ≡ true) f h.0 in
    (modes_apart i a n m (clashes_at n (account_mutex a) (account_hold i m a) held free g)).1
holds-both_shared i j a m n (x ∷ held) ne h (inr g) (inr k) =
    holds-both_shared i j a m n held ne h.1 g k
