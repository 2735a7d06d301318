-- ===== src/Network/TcpServer/Polling.antt =====
-- What a poll leaves watched: every socket that has something to say, and every new connection.
use trading_system.Prelude.{ℕ, ◌≡◌, true, false, ◌&&◌, ◌||◌, List, [], ◌∷◌, some, ◌==◌}
use trading_system.Network.TcpSocket.{TcpSocket}
use trading_system.Network.TcpServer.{
  TcpServer, contains, insert, Event, on_events, Accepted, emplace,
}
use trading_system.Network.TcpServer.Watching.{Grows}

-- The socket of an event that is not the listener's new connection is read from if the event says that
-- it can be read or has failed.
abbrev pub IsHeard : ℕ → TcpServer → Event → Type 0
IsHeard listener u e =
    (e.readable && e.fd == listener) ≡ false
    → (e.readable || e.failed) ≡ true
    → contains u.recv_sockets e.fd ≡ true

abbrev pub AllHeard : ℕ → TcpServer → List Event → Type 0
AllHeard listener u [] = Unit {0}
AllHeard listener u (e ∷ es) = IsHeard listener u e × AllHeard listener u es

-- `accept` gave a socket that could be set up.
abbrev pub AllUsable : List Accepted → Type 0
AllUsable [] = Unit {0}
AllUsable (a ∷ rest) = (a.configured ≡ true) × (a.added ≡ true) × AllUsable rest

abbrev pub AllConnected : TcpServer → List Accepted → Type 0
AllConnected u [] = Unit {0}
AllConnected u (a ∷ rest) =
    ((contains u.recv_sockets a.fd ≡ true) × ((s : TcpSocket) × (u.all_sockets a.fd ≡ some s)))
    × AllConnected u rest

pub record Polled (t : TcpServer) (events : List Event) (accepted : List Accepted) (u : TcpServer)
    : Type 0 where
  pub grows : Grows t u
  pub heard : AllHeard t.listener_fd u events
  pub connected : (on_events t events).0 ≡ true → AllConnected u accepted

-- The server with the connection.
abbrev connected : TcpServer → ℕ → TcpServer
connected t fd = record t {
  all_sockets = emplace t.all_sockets fd;
  recv_sockets = insert t.recv_sockets fd;
}
