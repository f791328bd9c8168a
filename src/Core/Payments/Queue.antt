-- ===== src/Core/Payments/Queue.antt =====
-- The queue of due payments, dueTimeToPaymentIds_: membership, and the order of its keys.
use cloud_storage_system.Base.{◌≡◌, refl, List, [], ◌∷◌, ◌++◌, ◌⊎◌, inl, inr, arith, if_elim, subst}
use cloud_storage_system.Base.Int.{ℤ, ◌<ℤ◌, ltb_ℤ, eq_of_parts}
use cloud_storage_system.Base.Lists.{In, In-append_right, In-append_left}
use cloud_storage_system.Base.Text.{Text}
use cloud_storage_system.Core.State.{push_due}

abbrev pub DueQueue : Type 0
DueQueue = List (ℤ × List Text)

-- The id stands in the queue under the due time.
abbrev pub InQueue : ℤ → Text → DueQueue → Type 0
InQueue d id [] = ⊥
InQueue d id ((e, ids) ∷ q) = ((e ≡ d) × In id ids) ⊎ InQueue d id q

abbrev pub AreAbove : ℤ → DueQueue → Type 0
AreAbove c [] = Unit
AreAbove c ((e, _) ∷ q) = (c <ℤ e) × AreAbove c q

-- The due times ascend, as the keys of a std::map do.
abbrev pub IsAscending : DueQueue → Type 0
IsAscending [] = Unit
IsAscending ((d, _) ∷ q) = AreAbove d q × IsAscending q

pub InQueue-push_due : (d : ℤ) (id : Text) (q : DueQueue) → InQueue d id (push_due d id q)
unfolding push_due
InQueue-push_due d id [] = inl (refl, inl refl)
InQueue-push_due d id ((e, ids) ∷ q) =
    if_elim (InQueue d id) (ltb_ℤ d e) _ _ (λ _. inl (refl, inl refl))
      (λ l.
        if_elim (InQueue d id) (ltb_ℤ e d) _ _ (λ _. inr (InQueue-push_due d id q))
          (λ g. inl (eq_of_parts e d (ground arith), In-append_right id ids (id ∷ []) (inl refl))))

InQueue-tail :
    (c e : ℤ) (j : Text) (ids : List Text) (q q' : DueQueue)
    → (InQueue e j q → InQueue e j q')
    → InQueue e j ((c, ids) ∷ q)
    → InQueue e j ((c, ids) ∷ q')
InQueue-tail c e j ids q q' f (inl h) = inl h
InQueue-tail c e j ids q q' f (inr h) = inr (f h)

InQueue-head :
    (c e : ℤ) (id j : Text) (ids : List Text) (q : DueQueue)
    → InQueue e j ((c, ids) ∷ q)
    → InQueue e j ((c, ids ++ id ∷ []) ∷ q)
InQueue-head c e id j ids q (inl (p, m)) = inl (p, In-append_left j ids (id ∷ []) m)
InQueue-head c e id j ids q (inr h) = inr h

pub InQueue-push_due_keep :
    (d e : ℤ) (id j : Text) (q : DueQueue) → InQueue e j q → InQueue e j (push_due d id q)
unfolding push_due
InQueue-push_due_keep d e id j [] h = absurd h
InQueue-push_due_keep d e id j ((c, ids) ∷ q) h =
    if_elim (InQueue e j) (ltb_ℤ d c) _ _ (λ _. inr h)
      (λ _.
        if_elim (InQueue e j) (ltb_ℤ c d) _ _
          (λ _. InQueue-tail c e j ids q (push_due d id q) (InQueue-push_due_keep d e id j q) h)
          (λ _. InQueue-head c e id j ids q h))

pub AreAbove-mono : (c d : ℤ) (q : DueQueue) → c <ℤ d → AreAbove d q → AreAbove c q
AreAbove-mono c d [] l h = tt
AreAbove-mono c d ((e, _) ∷ q) l h = (omega arith, AreAbove-mono c d q l h.1)

pub AreAbove-push_due :
    (c d : ℤ) (id : Text) (q : DueQueue) → c <ℤ d → AreAbove c q → AreAbove c (push_due d id q)
unfolding push_due
AreAbove-push_due c d id [] l h = (l, tt)
AreAbove-push_due c d id ((e, ids) ∷ q) l h = ground (arith, AreAbove-push_due c d id q l h.1)

pub IsAscending-push_due :
    (d : ℤ) (id : Text) (q : DueQueue) → IsAscending q → IsAscending (push_due d id q)
unfolding push_due
IsAscending-push_due d id [] h = (tt, tt)
IsAscending-push_due d id ((e, ids) ∷ q) h =
    if_elim IsAscending (ltb_ℤ d e) _ _
      (λ l. ((ground arith, AreAbove-mono d e q (ground arith) h.0), h))
      (λ l.
        if_elim IsAscending (ltb_ℤ e d) _ _
          (λ g. (AreAbove-push_due e d id q (ground arith) h.0, IsAscending-push_due d id q h.1))
          (λ g. h))

pub lt_of_InQueue : (c d : ℤ) (id : Text) (q : DueQueue) → AreAbove c q → InQueue d id q → c <ℤ d
lt_of_InQueue c d id [] h m = absurd m
lt_of_InQueue c d id ((e, _) ∷ q) h (inl (p, _)) = subst (λ x. c <ℤ x) p h.0
lt_of_InQueue c d id ((e, _) ∷ q) h (inr m) = lt_of_InQueue c d id q h.1 m
