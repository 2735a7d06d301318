-- ===== src/Exchange/OrderServer/Serving.antt =====
-- src/exchange/order_server.cpp: the server over its connections. The bytes of what is sent are the
-- parameters `encode_number` and `encode_response`, the layout of the two packed values.
pub mod Replies
mod Tests
use trading_system.Prelude.{
  ℕ, zero, suc, List, [], ◌∷◌, Option, none, some, Result, ok, err, ◌>>=◌, deref, out_of_fuel,
  update,
}
use trading_system.Messages.{OgClientRequest, MeClientResponse, OgClientResponse}
use trading_system.SpscQueue.{SpscQueue, get_next_read, update_next_read}
use trading_system.Network.TcpSocket.{TcpSocket, Kernel, send}
use trading_system.Network.TcpServer.{TcpServer, Event, Accepted, Swept, poll, send_and_recv}
use trading_system.Exchange.FifoSequencer.{RecvTimeClientRequest}
use trading_system.Exchange.OrderServer.{
  OrderServer, recv_callbacks, recv_finished_callbacks, send_response,
}

-- `recv_callback_` of a socket that the server accepted.
unfoldable pub server_callback :
    (List ℕ → OgClientRequest) → OrderServer → TcpSocket → ℕ → Result (OrderServer × TcpSocket)
server_callback decode o s time = recv_callbacks decode o s.fd time s.recv_buffer >>= λ p.
    ok (p.0, record s { recv_buffer = p.1 })

-- The server, its connections, and `outgoing_messages_`.
pub record Serving : Type 0 where
  pub server : OrderServer
  pub connections : TcpServer
  pub outgoing_messages : SpscQueue MeClientResponse

module _ (encode_number : ℕ → List ℕ) (encode_response : MeClientResponse → List ℕ) where
  -- The two calls of `send` for one response.
  unfoldable pub write_response : TcpServer → ℕ → OgClientResponse → Result TcpServer
  write_response t fd r = do
    s ← deref (t.all_sockets fd)
    s1 ← send s (encode_number r.seq_num)
    s2 ← send s1 (encode_response r.me_client_response)
    ok (record t { all_sockets = update t.all_sockets fd (some s2) })

  -- The loop over the responses that wait, for a matching engine that waits meanwhile.
  unfoldable pub reply_all : ℕ → Serving → Result Serving
  unfolding write_response
  reply_all zero v = elim (get_next_read v.outgoing_messages) [
    | none ↦ ok v
    | some r ↦ err out_of_fuel
  ]
  reply_all (suc fuel) v = elim (get_next_read v.outgoing_messages) [
    | none ↦ ok v
    | some r ↦ do
      (sent, o) ← send_response v.server r
      t ← write_response v.connections sent.0 sent.1
      q ← update_next_read v.outgoing_messages
      reply_all fuel (record { server = o; connections = t; outgoing_messages = q })
  ]

  -- One round of `run`, for what the kernel does at its calls.
  unfoldable pub run_round :
      (List RecvTimeClientRequest → List RecvTimeClientRequest)
      → (List ℕ → OgClientRequest)
      → Serving
      → Option (List Event)
      → List Accepted
      → (ℕ → Kernel)
      → (ℕ → Kernel)
      → Result Serving
  unfolding reply_all server_callback
  run_round sort decode v events accepted first second = do
    t ← poll v.connections events accepted
    x ←
        send_and_recv (server_callback decode) (recv_finished_callbacks sort) v.server t first
          second
    reply_all v.outgoing_messages.num_elements (record {
      server = x.world;
      connections = x.server;
      outgoing_messages = v.outgoing_messages;
    })
