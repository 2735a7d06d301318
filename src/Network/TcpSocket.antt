-- ===== src/Network/TcpSocket.antt =====
-- src/network/tcp_socket.cpp and include/networking/tcp_socket.hpp: a connection with a buffer in each
-- direction. A buffer is the list of its bytes below the next valid index.
pub mod Sending
mod Tests
use trading_system.Prelude.{
  ℕ, ◌+◌, ◌-◌, ◌*◌, Bool, true, false, not, List, [], ◌∷◌, ◌++◌, Result, ok, ◌>>=◌, ◌>>◌, require,
  out_of_range, leb, length, take,
}

abbrev pub tcp_buffer_size : ℕ
tcp_buffer_size = 8 * 1024 * 1024

pub record TcpSocket : Type 0 where
  pub fd : ℕ
  pub send_buffer : List ℕ
  pub recv_buffer : List ℕ

abbrev pub new_socket : ℕ → TcpSocket
new_socket fd = record { fd = fd; send_buffer = []; recv_buffer = [] }

-- `memcpy` to the end of the buffer, without a bounds check.
unfoldable pub send : TcpSocket → List ℕ → Result TcpSocket
send s bytes = do
  require (leb (length s.send_buffer + length bytes) tcp_buffer_size) out_of_range
  ok (record s { send_buffer = s.send_buffer ++ bytes })

-- What the kernel does at a call of `sendAndRecv`: the bytes that wait for `recvmsg`, none if it fails,
-- their time, and how many bytes `::send` takes, zero if it fails.
pub record Kernel : Type 0 where
  pub arrived : List ℕ
  pub time : ℕ
  pub accepts : ℕ

-- `recvmsg` reads what there is room for.
unfoldable pub read : TcpSocket → Kernel → List ℕ
read s k = take (tcp_buffer_size - length s.recv_buffer) k.arrived

abbrev pub is_nonempty : List ℕ → Bool
is_nonempty [] = false
is_nonempty (b ∷ bs) = true

-- What a call of `sendAndRecv` leaves: the state of the callback's owner, the socket, the bytes that
-- the kernel took, and what it returns.
pub record Exchanged (W : Type 0) : Type 0 where
  pub world : W
  pub socket : TcpSocket
  pub wire : List ℕ
  pub received : Bool

module _ {W : Type 0} (recv_callback : W → TcpSocket → ℕ → Result (W × TcpSocket)) where
  unfoldable pub receive : W → TcpSocket → Kernel → List ℕ → Result (W × TcpSocket)
  receive w s k [] = ok (w, s)
  receive w s k (b ∷ bs) =
      recv_callback w (record s { recv_buffer = s.recv_buffer ++ (b ∷ bs) }) k.time

  -- The buffer counts as sent, however many bytes the kernel took.
  unfoldable pub send_and_recv : W → TcpSocket → Kernel → Result (Exchanged W)
  unfolding read receive
  send_and_recv w s k = do
    (w1, s1) ← receive w s k (read s k)
    ok (record {
      world = w1;
      socket = record s1 { send_buffer = [] };
      wire = take k.accepts s1.send_buffer;
      received = is_nonempty (read s k);
    })
