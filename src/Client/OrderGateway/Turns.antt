-- ===== src/Client/OrderGateway/Turns.antt =====
-- src/client/order_gateway.cpp: the loop of `run` over the gateway's socket. The bytes of what is sent
-- are the parameters `encode_number` and `encode_request`, the layout of the two packed values.
pub mod Requests
mod Tests
use trading_system.Prelude.{
  ℕ, zero, suc, List, Option, none, some, Result, ok, err, ◌>>=◌, out_of_fuel,
}
use trading_system.Messages.{MeClientRequest, OgClientRequest, OgClientResponse}
use trading_system.SpscQueue.{SpscQueue, get_next_read, update_next_read}
use trading_system.Network.TcpSocket.{TcpSocket, Kernel, send, send_and_recv}
use trading_system.Client.OrderGateway.{OrderGateway, send_request, recv_callback}

-- The gateway, `outgoing_requests_` and `tcp_socket_`.
pub record Turning : Type 0 where
  pub gateway : OrderGateway
  pub outgoing_requests : SpscQueue MeClientRequest
  pub tcp_socket : TcpSocket

-- `recv_callback_` of the socket.
unfoldable pub socket_callback :
    (List ℕ → OgClientResponse) → OrderGateway → TcpSocket → ℕ → Result (OrderGateway × TcpSocket)
socket_callback decode g s time =
    let (g1, rest) = recv_callback decode g s.recv_buffer in
    ok (g1, record s { recv_buffer = rest })

module _ (encode_number : ℕ → List ℕ) (encode_request : MeClientRequest → List ℕ) where
  -- The two calls of `send` for one request.
  unfoldable pub write_request : TcpSocket → OgClientRequest → Result TcpSocket
  write_request s r = do
    s1 ← send s (encode_number r.seq_num)
    send s1 (encode_request r.me_client_request)

  -- The loop over the requests that wait, for a trade engine that waits meanwhile.
  unfoldable pub send_waiting : ℕ → Turning → Result Turning
  unfolding write_request
  send_waiting zero v = elim (get_next_read v.outgoing_requests) [
    | none ↦ ok v
    | some r ↦ err out_of_fuel
  ]
  send_waiting (suc fuel) v = elim (get_next_read v.outgoing_requests) [
    | none ↦ ok v
    | some r ↦ do
      s ← write_request v.tcp_socket (send_request v.gateway r).0
      q ← update_next_read v.outgoing_requests
      send_waiting fuel
          (record { gateway = (send_request v.gateway r).1; outgoing_requests = q; tcp_socket = s })
  ]

  -- One round of `run`, for what the kernel does, and the bytes that reach the wire.
  unfoldable pub run_round :
      (List ℕ → OgClientResponse) → Turning → Kernel → Result (Turning × List ℕ)
  unfolding send_waiting socket_callback
  run_round decode v k = do
    x ← send_and_recv (socket_callback decode) v.gateway v.tcp_socket k
    v1 ←
        send_waiting v.outgoing_requests.num_elements
          (record v { gateway = x.world; tcp_socket = x.socket })
    ok (v1, x.wire)
