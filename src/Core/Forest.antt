-- ===== src/Core/Forest.antt =====
-- The chains of merge edges, merged_ of banking_core_impl.hpp, and their lengths.
use cloud_storage_system.Base.{
  ap, ℕ, zero, suc, ◌≤◌, ◌<◌, ◌≡◌, refl, false, none, some, arith, inl, inr, Bool-cases,
}
use cloud_storage_system.Base.Int.{ℤ}
use cloud_storage_system.Base.Lists.{length}
use cloud_storage_system.Base.Text.{Text, text_eq, text_eq_iff}
use cloud_storage_system.Base.Dict.{
  Dict, lookup, insert, erase, lookup-insert, lookup-erase, length-erase_found,
}

-- The merges from an account on end at an account that is not merged.
pub data Rooted (m : Dict (Text × ℤ)) : Text → Type 0 where
  top : {a : Text} → lookup a m ≡ none → Rooted m a
  under : {a p : Text} {t : ℤ} → lookup a m ≡ some (p, t) → Rooted m p → Rooted m a

pub Rooted-insert :
    (k p : Text) (t : ℤ) {m : Dict (Text × ℤ)} {a : Text}
    → text_eq p k ≡ false
    → lookup k m ≡ none
    → lookup p m ≡ none
    → Rooted m a
    → Rooted (insert k (p, t) m) a
Rooted-insert k p t {m} {a} ne ek ep (top e) = elim (Bool-cases (text_eq k a)) [
  | inl y ↦
      under {p = p} {t = t} (ground (arith, lookup-insert k a (p, t) m))
        (top (ground (arith, lookup-insert k p (p, t) m, text_eq_iff k p, text_eq_iff p k)))
  | inr n ↦ top (ground (arith, lookup-insert k a (p, t) m))
]
Rooted-insert k p t {m} {a} ne ek ep (under {p = q} {t = u} e r) =
    under {p = q} {t = u} (ground (arith, lookup-insert k a (p, t) m, text_eq_iff k a))
      (Rooted-insert k p t ne ek ep r)

pub Rooted-erase : (k : Text) {m : Dict (Text × ℤ)} {a : Text} → Rooted m a → Rooted (erase k m) a
Rooted-erase k {m} {a} (top e) = top (ground (arith, lookup-erase k a m))
Rooted-erase k {m} {a} (under {p = q} {t = u} e r) = elim (Bool-cases (text_eq k a)) [
  | inl y ↦ top (ground (arith, lookup-erase k a m))
  | inr n ↦ under {p = q} {t = u} (ground (arith, lookup-erase k a m)) (Rooted-erase k r)
]

-- The chain from an account on has this many edges.
pub data HasHeight (m : Dict (Text × ℤ)) : ℕ → Text → Type 0 where
  owner : {a : Text} → lookup a m ≡ none → HasHeight m 0 a
  merged_into :
      {n : ℕ} {a p : Text} {t : ℤ}
      → lookup a m ≡ some (p, t)
      → HasHeight m n p
      → HasHeight m (suc n) a

pub Rooted-HasHeight : {m : Dict (Text × ℤ)} {a : Text} → Rooted m a → (n : ℕ) × HasHeight m n a
Rooted-HasHeight (top e) = (0, owner e)
Rooted-HasHeight (under {p = p} {t = t} e r) =
    let (n, h) = Rooted-HasHeight r in (suc n, merged_into {p = p} {t = t} e h)

HasHeight-unique :
    {m : Dict (Text × ℤ)} {a b : Text} (i j : ℕ) → HasHeight m i a → HasHeight m j b → a ≡ b → i ≡ j
HasHeight-unique zero zero h g e = refl
HasHeight-unique {m} zero (suc j) (owner e) (merged_into {p = q} {t = u} d g) c = absurd cc
HasHeight-unique {m} (suc i) zero (merged_into {p = q} {t = u} d g) (owner e) c = absurd cc
HasHeight-unique {m} (suc i) (suc j) (merged_into {p = p} {t = t} e h)
      (merged_into {p = q} {t = u} d g) c =
    ap suc (HasHeight-unique i j h g cc)

-- A chain that is too short to pass an account does not need its edge.
HasHeight-erase :
    {m : Dict (Text × ℤ)} {a b : Text} (n k : ℕ)
    → HasHeight m k a
    → HasHeight m n b
    → n < k
    → HasHeight (erase a m) n b
HasHeight-erase {m} {a} {b} zero k g (owner e) lt = owner (ground (arith, lookup-erase a b m))
HasHeight-erase {m} {a} {b} (suc n) k g (merged_into {p = p} {t = t} e h) lt =
    elim (Bool-cases (text_eq a b)) [
      | inl y ↦ absurd (
          let same =
            HasHeight-unique k (suc n) g (merged_into {p = p} {t = t} e h)
              (ground (arith, text_eq_iff a b)) in
          omega arith)
      | inr y ↦
          merged_into {p = p} {t = t} (ground (arith, lookup-erase a b m))
            (HasHeight-erase n k g h (omega arith))
    ]

-- No chain has more edges than accounts are merged.
pub HasHeight-bound : (n : ℕ) {m : Dict (Text × ℤ)} {a : Text} → HasHeight m n a → n ≤ length m
HasHeight-bound zero h = omega arith
HasHeight-bound (suc n) {m} {a} (merged_into {p = p} {t = t} e h) =
    let less =
      HasHeight-bound n
        (HasHeight-erase n (suc n) (merged_into {p = p} {t = t} e h) h (omega arith)) in
    let shrinks = length-erase_found a m e in omega arith
