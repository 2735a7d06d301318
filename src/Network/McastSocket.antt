-- ===== src/Network/McastSocket.antt =====
-- src/network/mcast_socket.cpp and include/networking/mcast_socket.hpp: a socket of a multicast stream,
-- with a buffer in each direction. `join` is the kernel's alone.
use trading_system.Prelude.{
  ℕ, ◌+◌, ◌-◌, ◌*◌, Bool, List, [], ◌∷◌, ◌++◌, Option, none, some, Result, ok, err, ◌>>=◌, ◌>>◌,
  require, null_pointer, assert_failed, leb, length, take,
}
use trading_system.Network.TcpSocket.{Kernel, is_nonempty}

abbrev pub mcast_buffer_size : ℕ
mcast_buffer_size = 8 * 1024 * 1024

-- A descriptor of -1 is `none`.
pub record McastSocket : Type 0 where
  pub socket_fd : Option ℕ
  pub outbound_data : List ℕ
  pub inbound_data : List ℕ

abbrev pub new_socket : McastSocket
new_socket = record { socket_fd = none; outbound_data = []; inbound_data = [] }

-- `init`, for the descriptor that `createSocket` returns.
unfoldable pub init : McastSocket → Option ℕ → McastSocket
init s fd = record s { socket_fd = fd }

-- The buffers stay as they are.
unfoldable pub leave : McastSocket → McastSocket
leave s = record s { socket_fd = none }

unfoldable pub send : McastSocket → List ℕ → Result McastSocket
send s bytes = do
  require (leb (length s.outbound_data + length bytes) mcast_buffer_size) assert_failed
  ok (record s { outbound_data = s.outbound_data ++ bytes })

unfoldable pub read : McastSocket → Kernel → List ℕ
read s k = take (mcast_buffer_size - length s.inbound_data) k.arrived

pub record Exchanged (W : Type 0) : Type 0 where
  pub world : W
  pub socket : McastSocket
  pub wire : List ℕ
  pub received : Bool

module _ {W : Type 0} (recv_callback : Option (W → McastSocket → Result (W × McastSocket))) where
  -- The callback is called without a test whether it is set.
  unfoldable pub receive : W → McastSocket → List ℕ → Result (W × McastSocket)
  receive w s [] = ok (w, s)
  receive w s (b ∷ bs) = elim recv_callback [
    | none ↦ err null_pointer
    | some f ↦ f w (record s { inbound_data = s.inbound_data ++ (b ∷ bs) })
  ]

  -- The buffer counts as sent, however many bytes the kernel took.
  unfoldable pub send_and_recv : W → McastSocket → Kernel → Result (Exchanged W)
  unfolding read receive
  send_and_recv w s k = do
    (w1, s1) ← receive w s (read s k)
    ok (record {
      world = w1;
      socket = record s1 { outbound_data = [] };
      wire = take k.accepts s1.outbound_data;
      received = is_nonempty (read s k);
    })
