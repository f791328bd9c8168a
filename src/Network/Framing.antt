-- ===== src/Network/Framing.antt =====
-- class MessageFramer (network/protocol.cpp).
pub mod Header
pub mod RoundTrip
use cloud_storage_system.Base.{
  ℕ, zero, suc, ◌+◌, ◌-◌, ◌*◌, ◌/◌, ◌%◌, ◌^◌, Bool, true, false, ◌&&◌, ◌||◌, Option, none, some,
  List, [], ◌∷◌, ◌++◌, ltb, leb, ◌==◌, if◌then◌else◌,
}
use cloud_storage_system.Base.Lists.{length, take, drop}
use cloud_storage_system.Base.Text.{Text}

-- `ss << std::hex << n`: the least number of digits, in lower case. Each round divides by 16, so a
-- fuel above the number is enough.
unfoldable pub hex_digit : ℕ → ℕ
hex_digit d = if ltb d 10 then 48 + d else 87 + d

unfoldable pub hex_digits : ℕ → ℕ → Text
hex_digits zero n = []
hex_digits (suc f) n =
    let rest = hex_digits f (n / 16) in
    if ltb n 16 then hex_digit n ∷ [] else rest ++ hex_digit (n % 16) ∷ []

-- `std::setw(w) << std::setfill('0')`
unfoldable pub zeros : ℕ → Text
zeros zero = []
zeros (suc n) = b'0' ∷ zeros n

unfoldable pub pad : ℕ → Text → Text
pad w s = zeros (w - length s) ++ s

unfoldable pub frame_message : Text → Text
frame_message message = pad 8 (hex_digits (suc (length message)) (length message)) ++ message

-- `ss >> std::hex >> message_size`, as std::strtoull reads a number of base 16: white space, a sign,
-- a prefix 0x, digits up to the first other byte.
unfoldable pub digit_value : ℕ → Option ℕ
digit_value c =
    if leb 48 c && leb c 57
    then some (c - 48)
    else (if leb 97 c && leb c 102
        then some (c - 87)
        else (if leb 65 c && leb c 70 then some (c - 55) else none))

unfoldable pub read_digits : ℕ → Text → ℕ
read_digits acc [] = acc
read_digits acc (c ∷ cs) = elim (digit_value c) [
  | none ↦ acc
  | some d ↦ read_digits (acc * 16 + d) cs
]

unfoldable pub read_prefixed : Text → ℕ
read_prefixed [] = 0
read_prefixed (c ∷ []) = read_digits 0 (c ∷ [])
read_prefixed (c ∷ x ∷ cs) =
    if c == b'0' && (x == b'x' || x == b'X') then read_digits 0 cs else read_digits 0 (c ∷ x ∷ cs)

-- A minus sign negates modulo 2^64.
unfoldable pub read_signed : Text → ℕ
read_signed [] = 0
read_signed (c ∷ cs) =
    if c == b'-'
    then (2 ^ 64 - read_prefixed cs) % 2 ^ 64
    else (if c == b'+' then read_prefixed cs else read_prefixed (c ∷ cs))

unfoldable pub is_space : ℕ → Bool
is_space c = c == 32 || (leb 9 c && leb c 13)

-- `unset` is what the variable held before: white space alone leaves it as it was.
unfoldable pub read_size : ℕ → Text → ℕ
read_size unset [] = unset
read_size unset (c ∷ cs) = if is_space c then read_size unset cs else read_signed (c ∷ cs)

-- 8 + message_size, a size_t.
unfoldable pub framed_size : ℕ → Text → ℕ
framed_size unset framed_message = (8 + read_size unset (take 8 framed_message)) % 2 ^ 64

-- What unframeMessage throws.
pub data FrameError : Type 0 where
  too_short : FrameError
  incomplete : FrameError

pub data Unframed : Type 0 where
  message : Text → Unframed
  throws : FrameError → Unframed

unfoldable pub unframe_message : ℕ → Text → Unframed
unframe_message unset framed_message =
    if ltb (length framed_message) 8
    then throws too_short
    else (if ltb (length framed_message) (framed_size unset framed_message)
        then throws incomplete
        else message (take (read_size unset (take 8 framed_message)) (drop 8 framed_message)))

unfoldable pub is_complete_message : ℕ → Text → Bool
is_complete_message unset buffer =
    if ltb (length buffer) 8 then false else leb (framed_size unset buffer) (length buffer)
