-- ===== src/Network/Framing/Header.antt =====
-- The header that frameMessage writes, read back.
use cloud_storage_system.Base.{
  ℕ, zero, suc, ◌-◌, ◌*◌, ◌/◌, ◌%◌, ◌^◌, ◌<◌, ◌≡◌, refl, sym, ap, ◌∙◌, some, [], ◌∷◌, ◌++◌, arith,
  inl, inr, Bool-cases, ltb, true,
}
use native.Mathlib.Numerals.{unary_clauses}
use cloud_storage_system.Base.Lists.{length, length-append}
use cloud_storage_system.Base.Text.{Text}
use cloud_storage_system.Network.Framing.{
  hex_digit, hex_digits, zeros, pad, digit_value, read_digits, read_prefixed, read_signed, is_space,
  read_size,
}

-- The digits of a number in a fixed width.
unfoldable pub fixed : ℕ → ℕ → Text
fixed zero n = []
fixed (suc w) n = fixed w (n / 16) ++ hex_digit (n % 16) ∷ []

pub digit_value-hex_digit : (d : ℕ) → d < 16 → digit_value (hex_digit d) ≡ some d
unfolding digit_value hex_digit
digit_value-hex_digit d h = ground arith

append_assoc : (a b c : Text) → (a ++ b) ++ c ≡ a ++ (b ++ c)
append_assoc [] b c = refl
append_assoc (x ∷ a) b c = ap (x ∷◌) (append_assoc a b c)

pub append_nil : (a : Text) → a ++ [] ≡ a
append_nil [] = refl
append_nil (x ∷ a) = ap (x ∷◌) (append_nil a)

ltb-true : (m n : ℕ) → m < n → ltb m n ≡ true
ltb-true m n h = ground arith

fixed-suc : (w n : ℕ) → fixed (suc w) n ≡ fixed w (n / 16) ++ hex_digit (n % 16) ∷ []
unfolding fixed
fixed-suc w n = refl

zeros-append : (w : ℕ) → zeros w ++ b'0' ∷ [] ≡ b'0' ∷ zeros w
unfolding zeros
zeros-append zero = refl
zeros-append (suc w) = ap (b'0' ∷◌) (zeros-append w)

fixed_zero : (w : ℕ) → fixed w 0 ≡ zeros w
unfolding fixed zeros hex_digit
fixed_zero zero = refl
fixed_zero (suc w) = rw (fixed_zero w) (zeros-append w)

pub length-fixed : (w n : ℕ) → length (fixed w n) ≡ w
unfolding fixed
length-fixed zero n = refl
length-fixed (suc w) n =
    omega
      (arith, length-append (fixed w (n / 16)) (hex_digit (n % 16) ∷ []), length-fixed w (n / 16))

pow_suc : (w : ℕ) → 16 ^ suc w ≡ 16 * 16 ^ w
pow_suc w = simp unary_clauses (omega arith)

pub read_digits-fixed :
    (w n : ℕ) (s : Text) → n < 16 ^ w → read_digits 0 (fixed w n ++ s) ≡ read_digits n s
unfolding fixed read_digits
read_digits-fixed zero n s h = ap (λ k. read_digits k s) (omega arith)
read_digits-fixed (suc w) n s h =
    ap (read_digits 0) (append_assoc (fixed w (n / 16)) (hex_digit (n % 16) ∷ []) s)
    ∙ read_digits-fixed w (n / 16) (hex_digit (n % 16) ∷ s) (omega (arith, pow_suc w))
    ∙ rw (digit_value-hex_digit (n % 16) (omega arith), read_digits)
        (ap (λ k. read_digits k s) (omega arith))

pad-append : (w d : ℕ) (s : Text) → pad (suc w) (s ++ d ∷ []) ≡ pad w s ++ d ∷ []
unfolding pad
pad-append w d s =
    ap (λ k. zeros k ++ (s ++ d ∷ [])) (omega (arith, length-append s (d ∷ [])))
    ∙ sym (append_assoc (zeros (w - length s)) s (d ∷ []))

pad_nil : (w : ℕ) → pad w [] ≡ fixed w 0
unfolding pad
pad_nil w = append_nil (zeros (w - 0)) ∙ ap zeros (omega arith) ∙ sym (fixed_zero w)

pad_digit : (w n : ℕ) → n < 16 → pad (suc w) (hex_digit n ∷ []) ≡ fixed (suc w) n
unfolding fixed
pad_digit w n h =
    pad-append w (hex_digit n) []
    ∙ ap (λ t. t ++ hex_digit n ∷ []) (pad_nil w)
    ∙ ap (λ k. fixed w k ++ hex_digit n ∷ []) (omega arith)
    ∙ ap (λ k. fixed w (n / 16) ++ hex_digit k ∷ []) (omega arith)

-- A number below 16 ^ w fills w places with its digits and the padding.
pub pad-hex_digits :
    (w f n : ℕ) → n < 16 ^ suc w → n < f → pad (suc w) (hex_digits f n) ≡ fixed (suc w) n
unfolding hex_digits
pad-hex_digits w zero n h l = absurd (omega arith)
pad-hex_digits zero (suc f) n h l =
    rw (ltb-true n 16 (omega arith), hex_digits) (pad_digit zero n (omega arith))
pad-hex_digits (suc w) (suc f) n h l = elim (Bool-cases (ltb n 16)) [
  | inl e ↦ rw (e, hex_digits) (pad_digit (suc w) n (ground arith))
  | inr e ↦
      rw (e, hex_digits)
        (pad-append (suc w) (hex_digit (n % 16)) (hex_digits f (n / 16))
          ∙ ap (λ t. t ++ hex_digit (n % 16) ∷ [])
              (pad-hex_digits w f (n / 16) (omega (arith, pow_suc (suc w))) (ground arith))
          ∙ sym (fixed-suc (suc w) n))
]

read_digits_nil : (n : ℕ) → read_digits n [] ≡ n
unfolding read_digits
read_digits_nil n = refl

-- Two digits in front are neither white space, nor a sign, nor a prefix.
read_size_digits :
    (unset c d x y : ℕ) (s : Text)
    → digit_value c ≡ some x
    → digit_value d ≡ some y
    → read_size unset (c ∷ d ∷ s) ≡ read_digits 0 (c ∷ d ∷ s)
unfolding digit_value read_size is_space read_signed read_prefixed
read_size_digits unset c d x y s e f = ground arith

pub read_size-fixed : (unset n : ℕ) → n < 16 ^ 8 → read_size unset (fixed 8 n) ≡ n
unfolding fixed
read_size-fixed unset n h =
    read_size_digits unset _ _ _ _ _
      (digit_value-hex_digit (n / 16 / 16 / 16 / 16 / 16 / 16 / 16 % 16) (omega arith))
      (digit_value-hex_digit (n / 16 / 16 / 16 / 16 / 16 / 16 % 16) (omega arith))
    ∙ ap (read_digits 0) (sym (append_nil (fixed 8 n)))
    ∙ read_digits-fixed 8 n [] h
    ∙ read_digits_nil n
