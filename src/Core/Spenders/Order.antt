-- ===== src/Core/Spenders/Order.antt =====
-- The comparison of TopSpenders is a strict total order, so the sorted list does not depend on the
-- order in which the accounts come.
use mathlib.Core.List.{Perm, Permᴰ}
use mathlib.Core.Logic.{∥∥₁_elim}
use cloud_storage_system.Base.{
  get_or, ◌≡◌, refl, true, false, List, [], ◌∷◌, arith, Bool-cases, inl, inr, ap, ◌∙◌,
}
use cloud_storage_system.Base.Int.{pos, ℤ, eq_of_parts}
use cloud_storage_system.Base.Text.{Text, text_lt_irrefl, text_lt_trans, text_lt_total}
use cloud_storage_system.Core.Spenders.{
  lookup, Bank, collect, ranking, Dict, Spender, ranks, place, sort,
}

pub ranks_trans : (a b c : Spender) → ranks a b ≡ true → ranks b c ≡ true → ranks a c ≡ true
unfolding ranks
ranks_trans (a, x) (b, y) (c, z) h k = ground (arith, text_lt_trans a b c)

pub ranks_irrefl : (a : Spender) → ranks a a ≡ false
unfolding ranks
ranks_irrefl (a, x) = ground (arith, text_lt_irrefl a)

pub ranks_asym : (a b : Spender) → ranks a b ≡ true → ranks b a ≡ false
ranks_asym a b h = elim (Bool-cases (ranks b a)) [
  | inl e ↦ absurd (ground (arith, ranks_trans a b a h e, ranks_irrefl a))
  | inr e ↦ e
]

pub ranks_total : (a b : Spender) → ranks a b ≡ false → ranks b a ≡ false → a ≡ b
unfolding ranks
ranks_total (a, x) (b, y) h k = ground (arith, eq_of_parts x y, text_lt_total a b)

-- Placing two entries in either order gives one list.
place_comm : (x y : Spender) (l : List Spender) → place x (place y l) ≡ place y (place x l)
unfolding place
place_comm x y [] = ground (arith, ranks_asym x y, ranks_asym y x, ranks_total x y)
place_comm x y (z ∷ zs) = ground (
  arith,
  place_comm x y zs,
  ranks_asym x y,
  ranks_asym y x,
  ranks_total x y,
  ranks_trans z x y,
  ranks_trans z y x,
  ranks_trans x z y,
  ranks_trans y z x,
)

-- The entry of an account among the spenders.
abbrev entry : Dict ℤ → Text × ℤ → Spender
entry outgoing (a, _) = (a, get_or (pos 0) (lookup a outgoing))

sort-collect-swap :
    (outgoing : Dict ℤ) (a b : Text × ℤ) (l : Dict ℤ)
    → sort (collect outgoing (a ∷ b ∷ l)) ≡ sort (collect outgoing (b ∷ a ∷ l))
unfolding sort collect
sort-collect-swap outgoing a b l =
    place_comm (entry outgoing a) (entry outgoing b) (sort (collect outgoing l))

sort-collect-Permᴰ :
    (outgoing : Dict ℤ) {l r : Dict ℤ}
    → Permᴰ l r
    → sort (collect outgoing l) ≡ sort (collect outgoing r)
unfolding sort collect
sort-collect-Permᴰ outgoing Permᴰ.nil = refl
sort-collect-Permᴰ outgoing (Permᴰ.cons {a = a} {b = b} {l₁ = l} {l₂ = r} e p) =
    ap (λ x. place (entry outgoing x) (sort (collect outgoing l))) e
    ∙ ap (place (entry outgoing b)) (sort-collect-Permᴰ outgoing p)
sort-collect-Permᴰ outgoing (Permᴰ.swap {a = a} {b = b} {a' = a'} {b' = b'} {l = l} e f) =
    sort-collect-swap outgoing a b l
    ∙ ap (λ x. sort (collect outgoing (x ∷ a ∷ l))) f
    ∙ ap (λ x. sort (collect outgoing (a' ∷ x ∷ l))) e
sort-collect-Permᴰ outgoing (Permᴰ.trans p q) =
    sort-collect-Permᴰ outgoing p ∙ sort-collect-Permᴰ outgoing q

List-Spender-set : IsSet (List Spender)
List-Spender-set = hlevel

-- The ranking is the same whatever the order in which the map of balances is walked through.
pub ranking-perm :
    (s : Bank) (m : Dict ℤ) → Perm m s.balances → ranking (record s { balances = m }) ≡ ranking s
unfolding ranking
ranking-perm s m p = ∥∥₁_elim p (List-Spender-set _ _) (sort-collect-Permᴰ s.outgoing)
