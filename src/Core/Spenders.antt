-- ===== src/Core/Spenders.antt =====
-- BankingSystemImpl::TopSpenders (banking_core_impl.cpp).
pub mod Order
pub mod Ranking
use Prim.Native.Nat.{min}
use cloud_storage_system.Base.{
  ℕ, Bool, true, false, ◌==◌, ◌+◌, List, [], ◌∷◌, ◌++◌, map, if◌then◌else◌, get_or,
}
use cloud_storage_system.Base.Int.{ℤ, pos, pos_part, neg_part, ltb_ℤ}
use cloud_storage_system.Base.Lists.{length, take}
use cloud_storage_system.Base.Text.{Text, text, text_lt, to_string}
use cloud_storage_system.Base.Dict.{Dict, lookup}
use cloud_storage_system.Core.State.{Bank}
use cloud_storage_system.Core.Due.{process_due}

abbrev pub eq_ℤ : ℤ → ℤ → Bool
eq_ℤ a b = pos_part a + neg_part b == pos_part b + neg_part a

abbrev pub Spender : Type 0
Spender = Text × ℤ

-- The comparison that std::sort is given: more outgoing first, then the smaller id.
unfoldable pub ranks : Spender → Spender → Bool
ranks (a, x) (b, y) = if eq_ℤ x y then text_lt a b else ltb_ℤ y x

-- std::sort, as an insertion sort; the comparison is a strict total order, so any algorithm gives
-- this list.
unfoldable pub place : Spender → List Spender → List Spender
place x [] = x ∷ []
place x (y ∷ ys) = if ranks y x then y ∷ place x ys else x ∷ y ∷ ys

unfoldable pub sort : List Spender → List Spender
sort [] = []
sort (x ∷ xs) = place x (sort xs)

-- The first loop, over the accounts that are there.
unfoldable pub collect : Dict ℤ → Dict ℤ → List Spender
collect outgoing [] = []
collect outgoing ((a, _) ∷ m) = (a, get_or (pos 0) (lookup a outgoing)) ∷ collect outgoing m

unfoldable pub show_spender : Spender → Text
show_spender (a, x) = a ++ (text "(" ++ (to_string x ++ text ")"))

unfoldable pub ranking : Bank → List Spender
ranking s = sort (collect s.outgoing s.balances)

-- The number of entries: std::min of the count asked for, at least 0, and of the accounts there.
abbrev pub limit : ℤ → List Spender → ℕ
limit n l = min (pos_part (if ltb_ℤ n (pos 0) then pos 0 else n)) (length l)

unfoldable pub top_spenders : ℤ → ℤ → Bank → Bank × List Text
top_spenders t n s =
    let s' = process_due t s in
    let sorted = ranking s' in (s', map show_spender (take (limit n sorted) sorted))
