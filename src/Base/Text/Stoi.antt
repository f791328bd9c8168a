-- ===== src/Base/Text/Stoi.antt =====
-- std::stoi: the integer at the front of a text, and no result where it throws.
use cloud_storage_system.Base.{
  ℕ, zero, suc, ◌+◌, ◌-◌, ◌*◌, ◌/◌, ◌%◌, ◌^◌, ◌≡◌, refl, subst, ap, ◌∙◌, Bool, true, false, ◌&&◌,
  ◌||◌, Option, none, some, [], ◌∷◌, ◌++◌, arith, ltb, leb, ◌==◌, if◌then◌else◌, ◌>>=◌, Bool-cases,
  inl, inr,
}
use cloud_storage_system.Base.Int.{int_laws, ℤ, pos, negsuc, neg, leb_ℤ, ◌-ℤ◌}
use cloud_storage_system.Base.Lists.{All}
use cloud_storage_system.Base.Text.{
  text, Text, to_string, decimal, decimal_digits, decimal_value, decimal_value-digits,
}

abbrev is_space : ℕ → Bool
is_space c = c == 32 || (leb 9 c && leb c 13)

abbrev is_digit : ℕ → Bool
is_digit c = leb 48 c && leb c 57

skip_spaces : Text → Text
skip_spaces [] = []
skip_spaces (c ∷ cs) = if is_space c then skip_spaces cs else c ∷ cs

leading_number : ℕ → Text → ℕ
leading_number acc [] = acc
leading_number acc (c ∷ cs) =
    let rest = leading_number (acc * 10 + (c - 48)) cs in if is_digit c then rest else acc

magnitude : Text → Option ℕ
magnitude [] = none
magnitude (c ∷ cs) = if is_digit c then some (leading_number 0 (c ∷ cs)) else none

-- What an int of 32 bits holds.
abbrev pub fits_int : ℤ → Bool
fits_int z = leb_ℤ (negsuc (2 ^ 31 - 1)) z && leb_ℤ z (pos (2 ^ 31 - 1))

abbrev int_of : ℤ → Option ℤ
int_of z = if fits_int z then some z else none

signed_number : Text → Option ℤ
signed_number [] = none
signed_number (c ∷ cs) =
    if c == b'-'
    then (magnitude cs >>= λ n. int_of (neg (pos n)))
    else (magnitude (if c == b'+' then cs else c ∷ cs) >>= λ n. int_of (pos n))

unfoldable pub stoi : Text → Option ℤ
unfolding skip_spaces leading_number magnitude signed_number ◌-ℤ◌
stoi t = signed_number (skip_spaces t)

-- The texts of numbers are made of digits.
abbrev AllDigits : Text → Type 0
AllDigits t = All (λ c. is_digit c ≡ true) t

AllDigits-append : (a : Text) (c : ℕ) → AllDigits a → is_digit c ≡ true → AllDigits (a ++ c ∷ [])
AllDigits-append [] c h k = (k, tt)
AllDigits-append (x ∷ xs) c h k = (h.0, AllDigits-append xs c h.1 k)

decimal_digits-AllDigits : (f n : ℕ) → AllDigits (decimal_digits f n)
unfolding decimal_digits
decimal_digits-AllDigits zero n = tt
decimal_digits-AllDigits (suc f) n = elim (Bool-cases (ltb n 10)) [
  | inl y ↦ rw y (ground arith, tt)
  | inr m ↦ rw m (
      AllDigits-append (decimal_digits f (n / 10)) (48 + n % 10)
        (decimal_digits-AllDigits f (n / 10)) (ground arith))
]

leading_number-value :
    (acc : ℕ) (t : Text) → AllDigits t → leading_number acc t ≡ decimal_value acc t
unfolding leading_number decimal_value
leading_number-value acc [] h = refl
leading_number-value acc (c ∷ cs) h = rw h.0 (leading_number-value (acc * 10 + (c - 48)) cs h.1)

append-cons : (a : Text) (c : ℕ) → (x : ℕ) × (xs : Text) × (a ++ c ∷ [] ≡ x ∷ xs)
append-cons [] c = (c, [], refl)
append-cons (x ∷ xs) c = (x, xs ++ c ∷ [], refl)

decimal-cons : (n : ℕ) → (c : ℕ) × (cs : Text) × (decimal n ≡ c ∷ cs)
unfolding decimal decimal_digits
decimal-cons n = elim (Bool-cases (ltb n 10)) [
  | inl y ↦ (48 + n, [], rw y)
  | inr m ↦ rw m (append-cons (decimal_digits n (n / 10)) (48 + n % 10))
]

magnitude-digits :
    (t : Text) (c : ℕ) (cs : Text)
    → t ≡ c ∷ cs
    → AllDigits t
    → magnitude t ≡ some (decimal_value 0 t)
unfolding magnitude
magnitude-digits [] c cs e h = cc
magnitude-digits (x ∷ xs) c cs e h = rw (h.0, leading_number-value 0 (x ∷ xs) h)

magnitude-decimal : (n : ℕ) → magnitude (decimal n) ≡ some n
unfolding decimal
magnitude-decimal n =
    let (c, cs, e) = decimal-cons n in
    magnitude-digits (decimal n) c cs e (decimal_digits-AllDigits (suc n) n)
    ∙ ap some (decimal_value-digits (suc n) n (omega arith))

to_string_pos : (n : ℕ) → to_string (pos n) ≡ decimal n
unfolding to_string decimal
to_string_pos n = refl

to_string_negsuc : (n : ℕ) → to_string (negsuc n) ≡ b'-' ∷ decimal (suc n)
unfolding to_string decimal
to_string_negsuc n = refl

stoi_minus : (t : Text) → stoi (b'-' ∷ t) ≡ (magnitude t >>= λ n. int_of (neg (pos n)))
unfolding stoi
stoi_minus t = refl

-- An unsigned text is read as it stands.
stoi-digits :
    (c : ℕ) (cs : Text)
    → is_digit c ≡ true
    → stoi (c ∷ cs) ≡ (magnitude (c ∷ cs) >>= λ n. int_of (pos n))
unfolding stoi
stoi-digits c cs h =
    let s : is_space c ≡ false = ground arith in
    let m : c == b'-' ≡ false = ground arith in
    let p : c == b'+' ≡ false = ground arith in rw (s, skip_spaces, signed_number, m, p) refl

stoi-decimal : (n : ℕ) → stoi (decimal n) ≡ (magnitude (decimal n) >>= λ k. int_of (pos k))
unfolding decimal
stoi-decimal n =
    let (c, cs, e) = decimal-cons n in
    let d = subst AllDigits e (decimal_digits-AllDigits (suc n) n) in rw e (stoi-digits c cs d.0)

neg_pos : (n : ℕ) → neg (pos (suc n)) ≡ negsuc n
neg_pos n = omega int_laws

pub stoi-to_string : (z : ℤ) → fits_int z ≡ true → stoi (to_string z) ≡ some z
stoi-to_string (pos n) h = rw (to_string_pos, stoi-decimal, magnitude-decimal, h) refl
stoi-to_string (negsuc n) h =
    rw (to_string_negsuc, stoi_minus, magnitude-decimal, neg_pos n, h) refl

pub stoi_zero : stoi (text "0") ≡ some (pos 0)
unfolding stoi
stoi_zero = refl
