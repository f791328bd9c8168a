-- ===== src/Network/Connection.antt =====
-- TCPServer::handleClient (network/tcp_server.cpp): the loop over what a client sends.
pub mod Rounds
use cloud_storage_system.Base.{
  ℕ, zero, suc, ◌+◌, Bool, true, false, Option, none, some, List, [], ◌∷◌, ◌++◌, if◌then◌else◌,
}
use cloud_storage_system.Base.Lists.{length}
use cloud_storage_system.Base.Text.{Text}
use cloud_storage_system.Network.Framing.{
  frame_message, unframe_message, is_complete_message, message, throws,
}

-- A message is framed twice on its way out, here and in TCPClient::sendMessage.
unfoldable pub wire : Text → Text
wire json = frame_message (frame_message json)

-- What the loop rests on: `answer`, the deserialisation of a request and request_handler_, with no
-- result where one of them throws; `error_json`, the serialised error response; `writes`, whether the
-- write of a given number succeeds; `unset`, the bytes that an unread size_t held.
pub record Peer : Type 0 where
  pub answer : Text → Option Text
  pub error_json : Text
  pub writes : ℕ → Bool
  pub unset : ℕ

-- How one round of the inner loop ends: it writes something and goes on, it leaves the loop, or
-- an exception leaves the thread, outside the try block.
pub data Round : Type 0 where
  goes_on : Text → Round
  breaks : Round
  escapes : Round

unfoldable pub respond : Peer → ℕ → Text → Round
respond p k request_json = elim (p.answer request_json) [
  | none ↦ goes_on (wire p.error_json)
  | some response_json ↦ if p.writes k then goes_on (wire response_json) else breaks
]

unfoldable pub round : Peer → ℕ → Text → Round
round p k buffer = elim (unframe_message p.unset buffer) [
  | throws _ ↦ escapes
  | message framed_message ↦ elim (unframe_message p.unset framed_message) [
    | throws _ ↦ escapes
    | message request_json ↦ respond p k request_json
  ]
]

-- How the inner loop ends: the buffer holds no complete message, a write failed, an exception
-- escaped, or the fuel is used up.
pub data Ending : Type 0 where
  waits : Ending
  stops : Ending
  crashes : Ending
  runs_on : Ending

-- The inner loop, with what it writes. Nothing takes a message out of the buffer.
unfoldable pub process_messages : Peer → ℕ → ℕ → Text → List Text × Ending
process_messages p zero k buffer = ([], runs_on)
process_messages p (suc f) k buffer =
    let rest = process_messages p f (suc k) buffer in
    if is_complete_message p.unset buffer
    then elim (round p k buffer) [
      | goes_on out ↦ (out ∷ rest.0, rest.1)
      | breaks ↦ ([], stops)
      | escapes ↦ ([], crashes)
    ]
    else ([], waits)

-- The outer loop, over the chunks that read() returns until the connection ends.
unfoldable pub handle_client : Peer → ℕ → ℕ → Text → List Text → List Text × Ending
handle_client p f k message_buffer [] = ([], waits)
handle_client p f k message_buffer (chunk ∷ chunks) =
    let buffer = message_buffer ++ chunk in
    let (out, ending) = process_messages p f k buffer in
    let rest = handle_client p f (k + length out) buffer chunks in
    elim ending [
      | waits ↦ (out ++ rest.0, rest.1)
      | stops ↦ (out ++ rest.0, rest.1)
      | crashes ↦ (out, crashes)
      | runs_on ↦ (out, runs_on)
    ]
