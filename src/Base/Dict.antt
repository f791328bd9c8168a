-- ===== src/Base/Dict.antt =====
-- std::unordered_map and std::map with text keys, as association lists.
use cloud_storage_system.Base.{
  inr, inl, Bool-cases, ◌≡◌, refl, Option, none, some, List, [], ◌∷◌, arith, ◌≤◌, ◌<◌,
  if◌then◌else◌,
}
use cloud_storage_system.Base.Lists.{length}
use cloud_storage_system.Base.Text.{Text, text_eq, text_eq_iff}

abbrev pub Dict {ℓ} : Type ℓ → Type ℓ
Dict V = List (Text × V)

module _ {ℓ} {V : Type ℓ} where
  -- m.find(k)
  unfoldable pub lookup : Text → Dict V → Option V
  lookup k [] = none
  lookup k ((j, v) ∷ m) = if text_eq j k then some v else lookup k m

  -- m[k] = v
  unfoldable pub insert : Text → V → Dict V → Dict V
  insert k v [] = (k, v) ∷ []
  insert k v ((j, w) ∷ m) = if text_eq j k then (k, v) ∷ m else (j, w) ∷ insert k v m

  -- m.erase(k)
  unfoldable pub erase : Text → Dict V → Dict V
  erase k [] = []
  erase k ((j, w) ∷ m) = let rest = erase k m in if text_eq j k then rest else (j, w) ∷ rest

  pub lookup-insert :
      (k j : Text) (v : V) (m : Dict V)
      → lookup j (insert k v m) ≡ (if text_eq k j then some v else lookup j m)
  unfolding lookup insert
  lookup-insert k j v [] = refl
  lookup-insert k j v ((i, w) ∷ m) =
      ground (arith, text_eq_iff k j, text_eq_iff i k, text_eq_iff i j, lookup-insert k j v m)

  pub lookup-erase :
      (k j : Text) (m : Dict V) → lookup j (erase k m) ≡ (if text_eq k j then none else lookup j m)
  unfolding lookup erase
  lookup-erase k j [] = ground arith
  lookup-erase k j ((i, w) ∷ m) =
      ground (arith, text_eq_iff k j, text_eq_iff i k, text_eq_iff i j, lookup-erase k j m)

  pub length-erase : (k : Text) (m : Dict V) → length (erase k m) ≤ length m
  unfolding erase
  length-erase k [] = omega arith
  length-erase k ((i, w) ∷ m) = ground (arith, length-erase k m)

  pub length-erase_found :
      (k : Text) (m : Dict V) {v : V} → lookup k m ≡ some v → length (erase k m) < length m
  unfolding lookup erase
  length-erase_found k [] e = cc
  length-erase_found k ((i, w) ∷ m) {v} e = elim (Bool-cases (text_eq i k)) [
    | inl y ↦ let h = length-erase k m in ground arith
    | inr n ↦ let h = length-erase_found k m {v = v} (ground (arith, e)) in ground arith
  ]
