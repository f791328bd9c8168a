-- ===== src/Core/Spenders/Ranking.antt =====
-- Which accounts TopSpenders lists, and in which order.
use Prim.Native.Nat.{min}
use cloud_storage_system.Base.{suc, ◌≡◌, refl, false, List, [], ◌∷◌, arith, ap, map}
use cloud_storage_system.Base.Int.{ℤ, pos_part}
use cloud_storage_system.Base.Lists.{All, length, take, length-take}
use cloud_storage_system.Base.Dict.{Dict}
use cloud_storage_system.Core.State.{Bank}
use cloud_storage_system.Core.Due.{process_due}
use cloud_storage_system.Core.Spenders.{
  limit, show_spender, Spender, ranks, place, sort, collect, ranking, top_spenders,
}

-- No entry ranks before one that stands ahead of it.
abbrev pub IsRanked : List Spender → Type 0
IsRanked [] = Unit
IsRanked (x ∷ l) = All (λ y. ranks y x ≡ false) l × IsRanked l

length-place : (x : Spender) (l : List Spender) → length (place x l) ≡ suc (length l)
unfolding place
length-place x [] = refl
length-place x (y ∷ l) = ground (arith, length-place x l)

length-sort : (l : List Spender) → length (sort l) ≡ length l
unfolding sort
length-sort [] = refl
length-sort (x ∷ l) = omega (arith, length-place x (sort l), length-sort l)

length-collect : (outgoing m : Dict ℤ) → length (collect outgoing m) ≡ length m
unfolding collect
length-collect outgoing [] = refl
length-collect outgoing (_ ∷ m) = ap suc (length-collect outgoing m)

length-map {ℓ κ} : {A : Type ℓ} {B : Type κ} (f : A → B) (l : List A) → length (map f l) ≡ length l
length-map f [] = refl
length-map f (x ∷ l) = ap suc (length-map f l)

-- TopSpenders lists as many accounts as are asked for, but no more than there are, and none for a
-- negative count.
pub length-top_spenders :
    (t n : ℤ) (s : Bank)
    → length (top_spenders t n s).1 ≡ min (pos_part n) (length (process_due t s).balances)
unfolding top_spenders ranking
length-top_spenders t n s =
    let s' = process_due t s in
    let l = ranking s' in
    ground (
      arith,
      length-map show_spender (take (limit n l) l),
      length-take (limit n l) l,
      length-sort (collect s'.outgoing s'.balances),
      length-collect s'.outgoing s'.balances,
    )
