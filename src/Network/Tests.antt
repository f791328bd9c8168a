-- ===== src/Network/Tests.antt =====
-- Frames of small messages, and the theorems of this component applied to them.
use cloud_storage_system.Base.{◌≡◌, refl, true, false, none, some, [], ◌∷◌, ◌++◌, arith}
use cloud_storage_system.Base.Int.{pos}
use cloud_storage_system.Base.Lists.{length}
use cloud_storage_system.Base.Text.{Text, text}
use cloud_storage_system.Network.Framing.{
  pad, zeros, hex_digits, hex_digit, framed_size, is_space, read_signed, read_prefixed, read_digits,
  digit_value, frame_message, unframe_message, is_complete_message, read_size, throws, too_short,
  incomplete,
}
use cloud_storage_system.Network.Connection.{
  wire, Peer, round, goes_on, process_messages, handle_client, crashes, runs_on,
}
use cloud_storage_system.Network.Connection.Rounds.{
  repeat, process_messages-wire, handle_client-crashes,
}
use cloud_storage_system.Network.Client.{Client, begin_request, end_request, receive_round}
use cloud_storage_system.Network.Client.Exchange.{exchange}

frame_hello : frame_message (text "hello") ≡ text "00000005hello"
unfolding frame_message pad zeros hex_digits hex_digit
frame_hello = refl

unframe_short : unframe_message 7 (text "0000") ≡ throws too_short
unfolding unframe_message
unframe_short = refl

unframe_partial : unframe_message 7 (text "00000005hel") ≡ throws incomplete
unfolding unframe_message framed_size read_size is_space read_signed read_prefixed read_digits
    digit_value
unframe_partial = refl

-- A header that is no number reads as 0, one with a prefix or a capital is read, white space alone
-- leaves the size unset.
sizes :
    (read_size 7 (text "zzzzzzzz") ≡ 0)
    × (read_size 7 (text "0x00001F") ≡ 31)
    × (read_size 7 (text "        ") ≡ 7)
unfolding read_size is_space read_signed read_prefixed read_digits digit_value
sizes = (refl, refl, refl)

-- A minus sign in the header makes the size wrap around, so that few bytes are complete.
negative_size : is_complete_message 7 (text "-0000001") ≡ true
unfolding is_complete_message framed_size read_size is_space read_signed read_prefixed read_digits
    digit_value
negative_size = refl

-- A server that answers every request with itself.
abbrev echo : Peer
echo = record { answer = λ m. some m; error_json = text "error"; writes = λ k. true; unset = 7 }

process_messages-wire_example :
    process_messages echo 3 0 (wire (text "{}") ++ []) ≡ (repeat 3 (wire (text "{}")), runs_on)
process_messages-wire_example =
    process_messages-wire echo 3 0 (text "{}") (text "{}") [] (omega arith) refl (λ j. refl)

short : is_complete_message 7 (text "abc") ≡ false
unfolding is_complete_message
short = refl

handle_client-crashes_example :
    handle_client echo 3 0 [] ((frame_message (text "abc") ++ []) ∷ wire (text "{}") ∷ [])
    ≡ ([], crashes)
handle_client-crashes_example =
    handle_client-crashes echo 2 0 (text "abc") [] (wire (text "{}") ∷ []) (omega arith) short

abbrev client : Client
client = record {
  connected = true;
  socket = pos 3;
  pending_response = [];
  response_ready = false;
  sent = [];
}

exchange_example :
    let c' = (begin_request (pos (length (wire (text "ab")))) (text "ab") client).0 in
    (end_request c' ≡ none)
    × ((out : Text) × (c'' : Client) × (round echo 0 c'.sent ≡ goes_on out)
        × (receive_round 7 out c' ≡ some c'')
        × (end_request c'' ≡ some (text "ab")))
exchange_example =
    exchange echo 7 (text "ab") (text "ab") client refl (omega arith) refl (omega arith)
      (omega arith) refl refl
