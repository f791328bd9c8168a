-- ===== src/Network/Connection/Rounds.antt =====
-- What the loop of a connection does with framed requests.
use cloud_storage_system.Base.{
  ℕ, zero, suc, ◌+◌, ◌<◌, ◌^◌, ◌≡◌, refl, sym, ap, ◌∙◌, true, false, some, List, [], ◌∷◌, ◌++◌,
  arith,
}
use cloud_storage_system.Base.Lists.{length}
use cloud_storage_system.Base.Text.{Text}
use cloud_storage_system.Network.Framing.{
  frame_message, unframe_message, is_complete_message, message,
}
use cloud_storage_system.Network.Framing.Header.{append_nil}
use cloud_storage_system.Network.Framing.RoundTrip.{
  incomplete-throws, unframe_message-frame_message, length-frame_message, is_complete_message_iff,
}
use cloud_storage_system.Network.Connection.{
  wire, Peer, goes_on, escapes, respond, round, crashes, runs_on, process_messages, handle_client,
}

abbrev pub repeat : ℕ → Text → List Text
repeat zero m = []
repeat (suc n) m = m ∷ repeat n m

-- The two frames of a message that fits them, taken off.
pub unframe-wire_outer :
    (unset : ℕ) (m s : Text)
    → 8 + length m < 16 ^ 8
    → unframe_message unset (wire m ++ s) ≡ message (frame_message m)
unfolding wire
unframe-wire_outer unset m s h =
    unframe_message-frame_message unset (frame_message m) s
      (omega (arith, length-frame_message m (omega arith)))

pub unframe-wire_inner :
    (unset : ℕ) (m : Text)
    → 8 + length m < 16 ^ 8
    → unframe_message unset (frame_message m) ≡ message m
unframe-wire_inner unset m h =
    ap (unframe_message unset) (sym (append_nil (frame_message m)))
    ∙ unframe_message-frame_message unset m [] (omega arith)

-- A message that fits its two frames arrives, whatever follows it.
pub round-wire :
    (p : Peer) (k : ℕ) (m s : Text)
    → 8 + length m < 16 ^ 8
    → round p k (wire m ++ s) ≡ respond p k m
unfolding round
round-wire p k m s h =
    rw (unframe-wire_outer p.unset m s h, round) (rw (unframe-wire_inner p.unset m h, round) refl)

pub wire_complete :
    (unset : ℕ) (m s : Text)
    → 8 + length m < 16 ^ 8
    → is_complete_message unset (wire m ++ s) ≡ true
wire_complete unset m s h =
    (is_complete_message_iff unset (wire m ++ s)).1
      (frame_message m, unframe-wire_outer unset m s h)

pub answers :
    (p : Peer) (k : ℕ) (m r : Text)
    → p.answer m ≡ some r
    → p.writes k ≡ true
    → respond p k m ≡ goes_on (wire r)
unfolding respond
answers p k m r a w = rw (a, w, respond) refl

-- Once a request is complete that the handler answers, and while writes succeed, the inner loop
-- answers that same request for ever: every number of rounds writes that many copies of the answer
-- and ends with no fuel left, whatever follows the request in the buffer.
pub process_messages-wire :
    (p : Peer) (n k : ℕ) (m r s : Text)
    → 8 + length m < 16 ^ 8
    → p.answer m ≡ some r
    → ((j : ℕ) → p.writes j ≡ true)
    → process_messages p n k (wire m ++ s) ≡ (repeat n (wire r), runs_on)
unfolding process_messages
process_messages-wire p zero k m r s h a w = refl
process_messages-wire p (suc n) k m r s h a w =
    rw
      (
        wire_complete p.unset m s h,
        round-wire p k m s h,
        answers p k m r a (w k),
        process_messages-wire p n (suc k) m r s h a w,
      )
      refl

frame_escapes :
    (p : Peer) (k : ℕ) (m s : Text)
    → length m < 16 ^ 8
    → is_complete_message p.unset m ≡ false
    → round p k (frame_message m ++ s) ≡ escapes
unfolding round
frame_escapes p k m s h e =
    let (x, t) = incomplete-throws p.unset m e in
    rw (unframe_message-frame_message p.unset m s h, round) (rw (t, round) refl)

crash :
    (p : Peer) (f k : ℕ) (m s : Text)
    → length m < 16 ^ 8
    → is_complete_message p.unset m ≡ false
    → process_messages p (suc f) k (frame_message m ++ s) ≡ ([], crashes)
unfolding process_messages
crash p f k m s h e =
    rw
      (
        (is_complete_message_iff p.unset (frame_message m ++ s)).1
            (m, unframe_message-frame_message p.unset m s h),
        frame_escapes p k m s h e,
      )
      refl

-- A complete message whose content is no frame ends the thread with an exception: nothing is
-- answered, the later chunks are not read.
pub handle_client-crashes :
    (p : Peer) (f k : ℕ) (m s : Text) (chunks : List Text)
    → length m < 16 ^ 8
    → is_complete_message p.unset m ≡ false
    → handle_client p (suc f) k [] ((frame_message m ++ s) ∷ chunks) ≡ ([], crashes)
unfolding handle_client
handle_client-crashes p f k m s chunks h e =
    rw (crash p f k m s h e, handle_client) (ap (λ x. (x.0, crashes)) (crash p f k m s h e))
