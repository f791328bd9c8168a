-- ===== src/Network/Framing/RoundTrip.antt =====
-- Framing and unframing undo each other, and a message is complete exactly if it can be unframed.
use cloud_storage_system.Base.{
  zero, suc, inl, inr, Bool-cases, ltb, leb, ◌≤◌, ◌↔◌, inr, inl, ltb, Bool-cases, ◌≤◌, leb, ◌↔◌,
  suc, ℕ, ◌<◌, ◌^◌, ◌+◌, ◌++◌, ◌≡◌, refl, ap, ◌∙◌, sym, [], ◌∷◌, arith, true, false,
}
use cloud_storage_system.Base.Lists.{length-take, length-append, length, take, drop}
use cloud_storage_system.Base.Text.{Text}
use cloud_storage_system.Network.Framing.{
  FrameError, too_short, incomplete, frame_message, unframe_message, is_complete_message, read_size,
  framed_size, message, throws,
}
use cloud_storage_system.Network.Framing.Header.{
  append_nil, fixed, length-fixed, pad-hex_digits, read_size-fixed,
}

take_append : (a b : Text) → take (length a) (a ++ b) ≡ a
take_append [] b = refl
take_append (x ∷ a) b = ap (x ∷◌) (take_append a b)

take-take : (j k : ℕ) (s : Text) → j ≤ k → take j (take k s) ≡ take j s
take-take zero k s h = refl
take-take (suc j) zero s h = absurd (omega arith)
take-take (suc j) (suc k) [] h = refl
take-take (suc j) (suc k) (x ∷ s) h = ap (x ∷◌) (take-take j k s (omega arith))

frame_message-eq : (m : Text) → length m < 16 ^ 8 → frame_message m ≡ fixed 8 (length m) ++ m
unfolding frame_message
frame_message-eq m h =
    ap (λ t. t ++ m) (pad-hex_digits 7 (suc (length m)) (length m) h (omega arith))

-- The header of a frame and what is behind it.
header : (m s : Text) → length m < 16 ^ 8 → take 8 (frame_message m ++ s) ≡ fixed 8 (length m)
unfolding fixed
header m s h = rw (frame_message-eq m h) refl

body : (m s : Text) → length m < 16 ^ 8 → drop 8 (frame_message m ++ s) ≡ m ++ s
unfolding fixed
body m s h = rw (frame_message-eq m h) refl

pub length-frame_message : (m : Text) → length m < 16 ^ 8 → length (frame_message m) ≡ 8 + length m
length-frame_message m h =
    ap length (frame_message-eq m h)
    ∙ length-append (fixed 8 (length m)) m
    ∙ omega (arith, length-fixed 8 (length m))

size-frame_message :
    (unset : ℕ) (m s : Text)
    → length m < 16 ^ 8
    → read_size unset (take 8 (frame_message m ++ s)) ≡ length m
size-frame_message unset m s h =
    ap (read_size unset) (header m s h) ∙ read_size-fixed unset (length m) h

-- A message of fewer than 16 ^ 8 bytes, framed and followed by any bytes, is unframed to itself.
pub unframe_message-frame_message :
    (unset : ℕ) (m s : Text)
    → length m < 16 ^ 8
    → unframe_message unset (frame_message m ++ s) ≡ message m
unfolding unframe_message framed_size
unframe_message-frame_message unset m s h = ground (
  arith,
  size-frame_message unset m s h,
  length-append (frame_message m) s,
  length-frame_message m h,
  body m s h,
  take_append m s,
)

-- The first `k` bytes of a frame.
take-frame_message :
    (m : Text) (k : ℕ)
    → length m < 16 ^ 8
    → 8 ≤ k
    → take 8 (take k (frame_message m)) ≡ fixed 8 (length m)
take-frame_message m k h l =
    take-take 8 k (frame_message m) l
    ∙ ap (take 8) (sym (append_nil (frame_message m)))
    ∙ header m [] h

-- While the frame of a message of fewer than 16 ^ 8 bytes arrives, isCompleteMessage says true as
-- soon as its last byte is there, and not before.
pub is_complete_message-take :
    (unset : ℕ) (m : Text) (k : ℕ)
    → length m < 16 ^ 8
    → is_complete_message unset (take k (frame_message m)) ≡ leb (8 + length m) k
unfolding is_complete_message framed_size
is_complete_message-take unset m k h = elim (Bool-cases (ltb k 8)) [
  | inl e ↦ ground (arith, length-take k (frame_message m), length-frame_message m h)
  | inr e ↦ ground (
    arith,
    length-take k (frame_message m),
    length-frame_message m h,
    ap (read_size unset) (take-frame_message m k h (ground arith)),
    read_size-fixed unset (length m) h,
  )
]

-- A buffer is complete exactly if unframeMessage returns a message instead of throwing.
pub is_complete_message_iff :
    (unset : ℕ) (b : Text)
    → (is_complete_message unset b ≡ true) ↔ ((m : Text) × (unframe_message unset b ≡ message m))
unfolding is_complete_message unframe_message
is_complete_message_iff unset b =
    (λ e. (take (read_size unset (take 8 b)) (drop 8 b), ground arith), λ (m, e). ground arith)

pub incomplete-throws :
    (unset : ℕ) (b : Text)
    → is_complete_message unset b ≡ false
    → (e : FrameError) × (unframe_message unset b ≡ throws e)
unfolding is_complete_message unframe_message
incomplete-throws unset b h = elim (Bool-cases (ltb (length b) 8)) [
  | inl l ↦ (too_short, rw l refl)
  | inr l ↦ (incomplete, ground arith)
]
