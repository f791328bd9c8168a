-- ===== src/Network/Threads/Tests.antt =====
-- A server and a client that start, and the theorems of this component applied to them.
use cloud_storage_system.Base.{◌≡◌, refl, true, false}
use cloud_storage_system.Base.Int.{pos, negsuc}
use cloud_storage_system.Base.{[], ◌++◌, arith}
use cloud_storage_system.Base.Text.{Text, text}
use cloud_storage_system.Network.Connection.{wire}
use cloud_storage_system.Network.Threads.{
  receives, TcpServer, Listen, new_server, start, returns, blocks, terminates, has_socket,
  accept_round, end_client, stop, join_clients, clear_clients, Receiving, Dial, new_client, connect,
  disconnect, destroy, end_receiving, with_socket,
}
use cloud_storage_system.Network.Threads.Endings.{connection-terminates, lost_connection-terminates}

abbrev calls_work : Listen
calls_work = record { socket = pos 3; set_options = pos 0; bind = pos 0; listen = pos 0 }

abbrev bind_fails : Listen
bind_fails = record calls_work { bind = negsuc 0 }

abbrev listening : TcpServer
listening = record new_server { server_socket = pos 3; running = true; accept_thread = true }

start-listening : start calls_work new_server ≡ returns (listening, true)
unfolding start
start-listening = refl

start-bind_fails :
    start bind_fails new_server ≡ returns (record new_server { server_socket = pos 3 }, false)
unfolding start
start-bind_fails = refl

-- A server without connections stops, and can be started again.
stop-listening : stop listening ≡ returns new_server
unfolding stop join_clients clear_clients
stop-listening = refl

connection-terminates_example :
    (s : TcpServer) × (accept_round (pos 5) listening ≡ returns s)
    × (end_client (pos 5) s ≡ terminates)
    × (stop s ≡ blocks)
unfolding has_socket
connection-terminates_example = connection-terminates (pos 5) listening refl refl refl refl

abbrev dial : Dial
dial = record { socket = pos 3; inet_pton = pos 1; connect = pos 0 }

connect-refused :
    connect (record dial { connect = negsuc 0 }) new_client ≡ returns (new_client, false)
unfolding connect with_socket
connect-refused = refl

abbrev answer : Text
answer = text "{}"

lost_connection-terminates_example :
    (r : Receiving) × (connect dial new_client ≡ returns (r, true))
    × (let lost = end_receiving 0 r in
        (connect dial lost ≡ terminates)
        × (destroy 0 lost ≡ terminates)
        × (disconnect 0 lost ≡ returns lost))
    × ((left : Receiving) × (disconnect 0 r ≡ returns left) × (destroy 0 left ≡ returns tt))
    × ((answered : Receiving) × (receives 0 (wire answer ++ []) r ≡ returns answered)
        × (answered.client.pending_response ≡ answer)
        × (disconnect 0 answered ≡ blocks)
        × (destroy 0 answered ≡ blocks))
lost_connection-terminates_example =
    lost_connection-terminates 0 new_client dial dial answer [] refl refl refl refl (omega arith)
