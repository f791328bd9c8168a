-- ===== src/Network/Threads/Endings.antt =====
-- How the threads of the server and the client end.
use cloud_storage_system.Base.{◌≡◌, refl, true, false, ◌||◌, ◌∷◌, arith}
use cloud_storage_system.Base.Int.{ℤ, pos, ltb_ℤ}
use cloud_storage_system.Base.{ℕ, ◌+◌, ◌<◌, ◌^◌, [], ◌++◌}
use cloud_storage_system.Base.Text.{Text}
use cloud_storage_system.Base.Lists.{length}
use cloud_storage_system.Network.Framing.{is_complete_message}
use cloud_storage_system.Network.Connection.{wire}
use cloud_storage_system.Network.Connection.Rounds.{wire_complete}
use cloud_storage_system.Network.Client.Exchange.{receive-wire}
use cloud_storage_system.Network.Threads.{
  receives, TcpServer, returns, blocks, terminates, has_socket, accept_round, end_client,
  join_clients, clear_clients, stop, Receiving, Dial, connect, disconnect, destroy, end_receiving,
}

has_socket-head : (c : ℤ) (s : TcpServer) → has_socket c (c ∷ s.client_threads) ≡ true
unfolding has_socket
has_socket-head c s = ground arith

-- Once a running server has accepted a connection, on a descriptor that no other connection has, the
-- end of that connection destroys the thread that it runs in, which terminates the process, and a call
-- of stop never returns: it waits for the thread, and holds the mutex that the thread needs to end.
pub connection-terminates :
    (c : ℤ) (s : TcpServer)
    → ltb_ℤ c (pos 0) ≡ false
    → s.running ≡ true
    → s.locked ≡ false
    → has_socket c s.client_threads ≡ false
    → (s' : TcpServer) × (accept_round c s ≡ returns s')
      × (end_client c s' ≡ terminates)
      × (stop s' ≡ blocks)
unfolding accept_round end_client stop join_clients clear_clients
connection-terminates c s valid on free new = (
  record s { client_threads = c ∷ s.client_threads },
  rw (valid, free, new) refl,
  rw (free, has_socket-head c s) refl,
  rw on refl,
)

-- A client without a thread whose connection is made, and then ends on the server's side, can neither
-- connect again, where that would succeed, nor be destroyed: each terminates the process, also after a
-- call of disconnect, which does nothing. Where it is disconnected while the connection stands and
-- nothing was received, disconnect returns, and the client is destroyed as it should be. Once a response
-- has arrived, in the two frames in which the server sends it and with fewer than 2^32 - 8 characters,
-- neither disconnect nor the destructor ever returns: they wait for the thread that stores the response
-- again and again.
pub lost_connection-terminates :
    (unset : ℕ) (r : Receiving) (sys again : Dial) (m s : Text)
    → r.client.connected ≡ false
    → r.receive_thread ≡ false
    → (ltb_ℤ sys.socket (pos 0) || (ltb_ℤ sys.inet_pton (pos 1) || ltb_ℤ sys.connect (pos 0)))
      ≡ false
    → (ltb_ℤ again.socket (pos 0) || (ltb_ℤ again.inet_pton (pos 1) || ltb_ℤ again.connect (pos 0)))
      ≡ false
    → 8 + length m < 16 ^ 8
    → (r' : Receiving) × (connect sys r ≡ returns (r', true))
      × (let lost = end_receiving unset r' in
          (connect again lost ≡ terminates)
          × (destroy unset lost ≡ terminates)
          × (disconnect unset lost ≡ returns lost))
      × ((left : Receiving) × (disconnect unset r' ≡ returns left)
          × (destroy unset left ≡ returns tt))
      × ((answered : Receiving) × (receives unset (wire m ++ s) r' ≡ returns answered)
          × (answered.client.pending_response ≡ m)
          × (disconnect unset answered ≡ blocks)
          × (destroy unset answered ≡ blocks))
unfolding connect end_receiving destroy disconnect receives is_complete_message
lost_connection-terminates unset r sys again m s off none made made_again h =
    let opened : ltb_ℤ sys.socket (pos 0) ≡ false = ground arith in
    let dialled : (ltb_ℤ sys.inet_pton (pos 1) || ltb_ℤ sys.connect (pos 0)) ≡ false =
      ground arith in
    let opened' : ltb_ℤ again.socket (pos 0) ≡ false = ground arith in
    let dialled' : (ltb_ℤ again.inet_pton (pos 1) || ltb_ℤ again.connect (pos 0)) ≡ false =
      ground arith in
    let client = record r.client { connected = true; socket = sys.socket } in
    (
      record { client = client; receive_thread = true; message_buffer = [] },
      rw (off, none, opened, dialled) refl,
      (rw (opened', dialled') refl, refl, refl),
      (_, refl, refl),
      (
        record {
          client = record client { pending_response = m; response_ready = true };
          receive_thread = true;
          message_buffer = wire m ++ s;
        },
        rw (wire_complete unset m s h, receive-wire unset m s client h) refl,
        refl,
        rw (wire_complete unset m s h, disconnect) refl,
        rw (wire_complete unset m s h, destroy) refl,
      ),
    )
