-- ===== src/Network/TcpServer.antt =====
-- src/network/tcp_server.cpp and include/networking/tcp_server.hpp: the connections of the exchange.
-- What `epoll_wait` and `accept` return is an argument.
pub mod Watching
pub mod Polling
mod Tests
use trading_system.Prelude.{
  ℕ, ◌+◌, min, Bool, true, false, ◌&&◌, ◌||◌, List, [], ◌∷◌, ◌++◌, Option, none, some, Result, ok,
  err, ◌>>=◌, ◌>>◌, require, out_of_range, assert_failed, ◌==◌, if◌then◌else◌, update, length,
}
use trading_system.Network.TcpSocket.{TcpSocket, new_socket, Kernel}
use trading_system.Network.TcpSocket

-- A set is the list of its members in the order in which it is gone through.
pub record TcpServer : Type 0 where
  pub listener_fd : ℕ
  pub all_sockets : ℕ → Option TcpSocket
  pub send_sockets : List ℕ
  pub recv_sockets : List ℕ

-- After `listen`.
unfoldable pub new_server : ℕ → TcpServer
new_server fd = record {
  listener_fd = fd;
  all_sockets = λ _. none;
  send_sockets = [];
  recv_sockets = [];
}

abbrev pub contains : List ℕ → ℕ → Bool
contains [] fd = false
contains (x ∷ xs) fd = x == fd || contains xs fd

unfoldable pub insert : List ℕ → ℕ → List ℕ
insert xs fd = if contains xs fd then xs else xs ++ (fd ∷ [])

-- One entry of `events_`, with the bits that are tested.
pub record Event : Type 0 where
  pub fd : ℕ
  pub readable : Bool
  pub writable : Bool
  pub failed : Bool

abbrev pub watch_recv : TcpServer → Bool → ℕ → TcpServer
watch_recv t b fd = if b then record t { recv_sockets = insert t.recv_sockets fd } else t

abbrev pub watch_send : TcpServer → Bool → ℕ → TcpServer
watch_send t b fd = if b then record t { send_sockets = insert t.send_sockets fd } else t

-- The body of the loop over the events: whether there is a new connection, and the server.
unfoldable pub on_event : TcpServer → Event → Bool × TcpServer
on_event t e = if e.readable && e.fd == t.listener_fd then (true, t) else (
  false,
  watch_recv (watch_send (watch_recv t e.readable e.fd) e.writable e.fd) e.failed e.fd,
)

unfoldable pub on_events : TcpServer → List Event → Bool × TcpServer
unfolding on_event
on_events t [] = (false, t)
on_events t (e ∷ es) =
    let (new, t1) = on_event t e in let (newer, t2) = on_events t1 es in (new || newer, t2)

-- What `accept` returned, whether the socket could be configured, and whether it could be added to
-- the epoll list.
pub record Accepted : Type 0 where
  pub fd : ℕ
  pub configured : Bool
  pub added : Bool

-- `emplace` leaves an entry that is there.
unfoldable pub emplace : (ℕ → Option TcpSocket) → ℕ → ℕ → Option TcpSocket
emplace sockets fd = elim (sockets fd) [
  | none ↦ update sockets fd (some (new_socket fd))
  | some _ ↦ sockets
]

unfoldable pub accept_one : TcpServer → Accepted → Result TcpServer
accept_one t a = do
  require a.configured assert_failed
  let t1 = record t { all_sockets = emplace t.all_sockets a.fd }
  require a.added assert_failed
  ok (record t1 { recv_sockets = insert t1.recv_sockets a.fd })

-- Up to the first -1 that `accept` returns.
unfoldable pub accept_all : TcpServer → List Accepted → Result TcpServer
accept_all t [] = ok t
accept_all t (a ∷ rest) = accept_one t a >>= λ t1. accept_all t1 rest

abbrev pub events_size : ℕ
events_size = 1024

-- How many events `epoll_wait` may return.
abbrev pub max_events : TcpServer → ℕ
max_events t = min events_size (length t.send_sockets + length t.recv_sockets + 1)

-- `none` is a failed `epoll_wait`: its -1 is read as a count that no array has.
unfoldable pub poll : TcpServer → Option (List Event) → List Accepted → Result TcpServer
unfolding on_events accept_all
poll t none accepted = err out_of_range
poll t (some events) accepted =
    let (new, t1) = on_events t events in if new then accept_all t1 accepted else ok t1

-- What a pass over sockets leaves: the owner of the callbacks, the server, what went out on which
-- socket, and whether anything came in.
pub record Swept (W : Type 0) : Type 0 where
  pub world : W
  pub server : TcpServer
  pub wires : List (ℕ × List ℕ)
  pub received : Bool

module _ {W : Type 0} (recv_callback : W → TcpSocket → ℕ → Result (W × TcpSocket)) where
  -- `sendAndRecv` of each socket of a set that is known.
  unfoldable pub sweep : W → TcpServer → List ℕ → (ℕ → Kernel) → Result (Swept W)
  sweep w t [] k = ok (record { world = w; server = t; wires = []; received = false })
  sweep w t (fd ∷ fds) k = elim (t.all_sockets fd) [
    | none ↦ sweep w t fds k
    | some s ↦ do
      x ← TcpSocket.send_and_recv recv_callback w s (k fd)
      let t1 = record t { all_sockets = update t.all_sockets fd (some x.socket) }
      y ← sweep x.world t1 fds k
      ok (record y { wires = (fd, x.wire) ∷ y.wires; received = x.received || y.received })
  ]

  -- `first` and `second` are the kernel at the two passes.
  unfoldable pub send_and_recv :
      (W → W) → W → TcpServer → (ℕ → Kernel) → (ℕ → Kernel) → Result (Swept W)
  unfolding sweep
  send_and_recv recv_finished_callback w t first second = do
    x ← sweep w t t.recv_sockets first
    let w1 = if x.received then recv_finished_callback x.world else x.world
    y ← sweep w1 x.server x.server.send_sockets second
    ok (record y { wires = x.wires ++ y.wires; received = x.received || y.received })
