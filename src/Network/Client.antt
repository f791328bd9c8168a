-- ===== src/Network/Client.antt =====
-- TCPClient (network/tcp_client.cpp): what it sends, and the loop over what it receives.
pub mod Exchange
use cloud_storage_system.Base.{
  ℕ, zero, suc, Bool, true, false, Option, none, some, List, [], ◌∷◌, ◌++◌, if◌then◌else◌, ltb,
  ◌>>=◌, get_or,
}
use cloud_storage_system.Base.Text.{Text}
use cloud_storage_system.Base.Lists.{take}
use cloud_storage_system.Base.Int.{ℤ, pos, pos_part, ltb_ℤ}
use cloud_storage_system.Network.Connection.{Ending, waits, crashes, runs_on}
use cloud_storage_system.Network.Framing.{
  frame_message, unframe_message, is_complete_message, message, throws,
}

-- The state of a client past its construction; `sent` are the bytes written to the socket.
pub record Client : Type 0 where
  pub connected : Bool
  pub socket : ℤ
  pub pending_response : Text
  pub response_ready : Bool
  pub sent : Text

-- sendMessage; `bytes_written` is what write() returns: how many of the bytes it has taken, or a
-- negative number.
unfoldable pub send_message : ℤ → Text → Client → Client × Bool
send_message bytes_written text c =
    if c.connected
    then (if ltb_ℤ c.socket (pos 0)
        then (c, false)
        else (if ltb_ℤ bytes_written (pos 0) then (record c { connected = false }, false) else (
          record c {
            sent = c.sent ++ take (pos_part bytes_written) (frame_message (frame_message text));
          },
          true,
        )))
    else (c, false)

-- What sendRequest throws.
pub data SendError : Type 0 where
  not_connected : SendError
  failed_to_send : SendError

-- sendRequest up to its wait for the response.
unfoldable pub begin_request : ℤ → Text → Client → Client × Option SendError
begin_request bytes_written request c =
    if c.connected
    then (let (c', ok) = send_message bytes_written request (record c { response_ready = false }) in
        (c', (if ok then none else some failed_to_send)))
    else (c, some not_connected)

-- The rest of sendRequest: no result while it waits.
unfoldable pub end_request : Client → Option Text
end_request c = if c.response_ready then some c.pending_response else none

unfoldable pub send_request_async : ℤ → Text → Client → Client × Bool
send_request_async bytes_written request c =
    if c.connected then send_message bytes_written request c else (c, false)

-- One round of the inner loop of receiveLoop: no result where unframeMessage throws, in a thread
-- without a handler.
unfoldable pub receive_round : ℕ → Text → Client → Option Client
receive_round unset buffer c = elim (unframe_message unset buffer) [
  | throws _ ↦ none
  | message framed_message ↦ elim (unframe_message unset framed_message) [
    | throws _ ↦ none
    | message response_json ↦
        some (record c { pending_response = response_json; response_ready = true })
  ]
]

-- The inner loop of receiveLoop, on fuel. Nothing takes a message out of the buffer.
unfoldable pub receive_messages : ℕ → ℕ → Text → Client → Client × Ending
receive_messages unset zero buffer c = (c, runs_on)
receive_messages unset (suc f) buffer c =
    let received =
      receive_round unset buffer c >>= λ c'. some (receive_messages unset f buffer c') in
    if is_complete_message unset buffer then get_or (c, crashes) received else (c, waits)

-- receiveLoop, over the chunks that read() returns until it returns none, while the client is
-- connected.
unfoldable pub receive_loop : ℕ → ℕ → Text → List Text → Client → Client × Ending
receive_loop unset f message_buffer [] c = (record c { connected = false }, waits)
receive_loop unset f message_buffer (chunk ∷ chunks) c =
    let (c', ending) = receive_messages unset f (message_buffer ++ chunk) c in
    let rest = receive_loop unset f (message_buffer ++ chunk) chunks c' in
    elim ending [ waits ↦ rest | ended ↦ (c', ended) ]
