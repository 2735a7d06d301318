-- ===== src/Network/TcpServer/Tests.antt =====
-- A server with one connection, polled when two more come in.
use trading_system.Prelude.{true, false, none, some, List, [], ◌∷◌, update}
use trading_system.Network.TcpSocket.{new_socket}
use trading_system.Network.TcpServer.{TcpServer, Event, Accepted}

abbrev one_client : TcpServer
one_client = record {
  listener_fd = 3;
  all_sockets = update (λ _. none) 5 (some (new_socket 5));
  send_sockets = [];
  recv_sockets = 5 ∷ [];
}

abbrev news : List Event
news =
    record { fd = 5; readable = true; writable = true; failed = false }
    ∷ record { fd = 3; readable = true; writable = false; failed = false }
    ∷ []

abbrev arrivals : List Accepted
arrivals =
    record { fd = 6; configured = true; added = true }
    ∷ record { fd = 7; configured = true; added = true }
    ∷ []
