-- ===== src/Network/Threads.antt =====
-- Sockets and threads of TCPServer (network/tcp_server.cpp) and TCPClient (network/tcp_client.cpp):
-- starting and stopping, the table of connections, and the std::thread objects.
pub mod Endings
mod Tests
use cloud_storage_system.Base.{
  Bool, true, false, ◌||◌, ◌&&◌, Option, none, some, List, [], ◌∷◌, ◌++◌, if◌then◌else◌, ℕ,
}
use cloud_storage_system.Base.Int.{ℤ, pos, negsuc, ltb_ℤ}
use cloud_storage_system.Core.Spenders.{eq_ℤ}
use cloud_storage_system.Base.Lists.{length}
use cloud_storage_system.Base.Text.{Text}
use cloud_storage_system.Network.Framing.{is_complete_message}
use cloud_storage_system.Network.Client.{Client, receive_round}

-- A call returns, waits for ever, or calls std::terminate, as the destructor of a std::thread does that
-- was not joined.
pub data Outcome (A : Type 0) : Type 0 where
  returns : A → Outcome A
  blocks : Outcome A
  terminates : Outcome A

-- The members of TCPServer: accept_thread_ holds a thread that was not
-- joined or not, and client_threads_ has a thread for
-- each of its sockets. `locked` is whether connections_mutex_ is held.
pub record TcpServer : Type 0 where
  pub server_socket : ℤ
  pub running : Bool
  pub accept_thread : Bool
  pub client_threads : List ℤ
  pub locked : Bool

abbrev pub new_server : TcpServer
new_server = record {
  server_socket = negsuc 0;
  running = false;
  accept_thread = false;
  client_threads = [];
  locked = false;
}

-- What the system calls of start return.
pub record Listen : Type 0 where
  pub socket : ℤ
  pub set_options : ℤ
  pub bind : ℤ
  pub listen : ℤ

-- start. An accept thread that is there already would be destroyed by the assignment.
unfoldable pub start : Listen → TcpServer → Outcome (TcpServer × Bool)
start sys s =
    let opened = record s { server_socket = sys.socket } in
    if ltb_ℤ sys.socket (pos 0)
    then returns (opened, false)
    else (if ltb_ℤ sys.set_options (pos 0) || (ltb_ℤ sys.bind (pos 0) || ltb_ℤ sys.listen (pos 0))
        then returns (opened, false)
        else (if s.accept_thread
            then terminates
            else returns (record opened { running = true; accept_thread = true }, true)))

-- A round of acceptLoop, with what accept returns. A descriptor that is in the table has a thread.
unfoldable pub has_socket : ℤ → List ℤ → Bool
has_socket client_socket [] = false
has_socket client_socket (c ∷ cs) = eq_ℤ c client_socket || has_socket client_socket cs

unfoldable pub accept_round : ℤ → TcpServer → Outcome TcpServer
accept_round client_socket s =
    if ltb_ℤ client_socket (pos 0)
    then returns s
    else (if s.locked
        then blocks
        else (if has_socket client_socket s.client_threads
            then terminates
            else returns (record s { client_threads = client_socket ∷ s.client_threads })))

-- The end of handleClient: it erases its own entry, and with it its own thread, which is running.
unfoldable pub end_client : ℤ → TcpServer → Outcome TcpServer
end_client client_socket s =
    if s.locked
    then blocks
    else (if has_socket client_socket s.client_threads then terminates else returns s)

-- The loop of stop over the connections: each thread is waited for until it is at its end, which it
-- reaches when end_client returns.
unfoldable pub join_clients : List ℤ → TcpServer → Outcome TcpServer
join_clients [] s = returns s
join_clients (client_socket ∷ sockets) s = elim (end_client client_socket s) [
  | returns s' ↦ join_clients sockets s'
  | blocks ↦ blocks
  | terminates ↦ terminates
]

unfoldable pub clear_clients : Outcome TcpServer → Outcome TcpServer
clear_clients (returns s) = returns (record s { client_threads = []; locked = false })
clear_clients blocks = blocks
clear_clients terminates = terminates

-- stop, whose accept thread ends once its socket is closed. It waits for the clients with the mutex
-- held.
unfoldable pub stop : TcpServer → Outcome TcpServer
stop s =
    if s.running
    then clear_clients (
        join_clients s.client_threads (record s {
          running = false;
          accept_thread = false;
          server_socket = if ltb_ℤ s.server_socket (pos 0) then s.server_socket else negsuc 0;
          locked = true;
        }))
    else returns s

abbrev pub get_connection_count : TcpServer → ℕ
get_connection_count s = length s.client_threads

-- TCPClient, with whether receive_thread_ holds a thread that was not joined, and message_buffer of
-- the receiveLoop that it runs.
pub record Receiving : Type 0 where
  pub client : Client
  pub receive_thread : Bool
  pub message_buffer : Text

abbrev pub new_client : Receiving
new_client = record {
  client = record {
    connected = false;
    socket = negsuc 0;
    pending_response = [];
    response_ready = false;
    sent = [];
  };
  receive_thread = false;
  message_buffer = [];
}

-- What the system calls of connect return.
pub record Dial : Type 0 where
  pub socket : ℤ
  pub inet_pton : ℤ
  pub connect : ℤ

unfoldable pub with_socket : ℤ → Receiving → Receiving
with_socket descriptor r = record r { client = record r.client { socket = descriptor } }

-- connect: the thread of an earlier connection would be destroyed by the assignment.
unfoldable pub connect : Dial → Receiving → Outcome (Receiving × Bool)
connect sys r =
    if r.client.connected
    then returns (r, true)
    else (if ltb_ℤ sys.socket (pos 0)
        then returns (with_socket sys.socket r, false)
        else (if ltb_ℤ sys.inet_pton (pos 1) || ltb_ℤ sys.connect (pos 0)
            then returns (with_socket (negsuc 0) r, false)
            else (if r.receive_thread
                then terminates
                else returns (
                  record {
                    client = record r.client { connected = true; socket = sys.socket };
                    receive_thread = true;
                    message_buffer = [];
                  },
                  true,
                ))))

-- What read hands to receiveLoop. Where the buffer holds a complete message, the inner loop stores it
-- again and again and never reads on. An exception of unframeMessage ends the process.
unfoldable pub receives : ℕ → Text → Receiving → Outcome Receiving
receives unset chunk r =
    let buffer = r.message_buffer ++ chunk in
    let stored : Outcome Receiving = elim (receive_round unset buffer r.client) [
      | none ↦ terminates
      | some c ↦ returns (record r { client = c; message_buffer = buffer })
    ] in
    if is_complete_message unset r.message_buffer
    then returns r
    else (if is_complete_message unset buffer
        then stored
        else returns (record r { message_buffer = buffer }))

-- The end of receiveLoop, when read returns no bytes, which it is not asked where a message is
-- complete.
unfoldable pub end_receiving : ℕ → Receiving → Receiving
end_receiving unset r =
    if is_complete_message unset r.message_buffer
    then r
    else record r { client = record r.client { connected = false } }

-- disconnect, which waits for the thread of a connection that it finds connected. The thread sees the
-- socket closed where it reads, and never where its inner loop has a complete message.
unfoldable pub disconnect : ℕ → Receiving → Outcome Receiving
disconnect unset r =
    if r.client.connected
    then (if r.receive_thread && is_complete_message unset r.message_buffer
        then blocks
        else returns (record r {
          client = record r.client {
            connected = false;
            socket = if ltb_ℤ r.client.socket (pos 0) then r.client.socket else negsuc 0;
          };
          receive_thread = false;
        }))
    else returns r

-- The destructor: disconnect, and the members.
unfoldable pub destroy : ℕ → Receiving → Outcome Unit
destroy unset r = elim (disconnect unset r) [
  | returns r' ↦ if r'.receive_thread then terminates else returns tt
  | blocks ↦ blocks
  | terminates ↦ terminates
]
