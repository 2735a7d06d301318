-- ===== src/Exchange/OrderServer.antt =====
-- include/exchange/order_server.hpp and src/exchange/order_server.cpp: sequence numbers in both
-- directions. A socket is a number. The bytes of a request are read by the parameter `decode`,
-- which stands for the layout that the compiler gives the packed struct.
pub mod Framing
pub mod Chunks
pub mod Serving
mod Tests
use trading_system.Prelude.{
  ℕ, zero, suc, ◌+◌, ◌-◌, Bool, true, false, not, ◌||◌, List, [], ◌∷◌, ◌++◌, Option, none, some,
  Result, ok, err, ◌>>=◌, ◌>>◌, require, out_of_range, out_of_fuel, assert_failed, ltb, leb, ◌==◌,
  if◌then◌else◌, length, take, drop, update,
}
use trading_system.Types.{me_max_num_clients}
use trading_system.Messages.{MeClientRequest, OgClientRequest, MeClientResponse, OgClientResponse}
use trading_system.SpscQueue.{SpscQueue, get_next_read, update_next_read}
use trading_system.Exchange.FifoSequencer.{
  FifoSequencer, RecvTimeClientRequest, add_client_request, sequence_and_publish,
}

pub record OrderServer : Type 0 where
  pub cid_to_socket : ℕ → Option ℕ
  pub cid_next_outgoing_seq_num : ℕ → ℕ
  pub cid_next_exp_seq_num : ℕ → ℕ
  pub fifo_sequencer : FifoSequencer

-- The constructor's `fill`s.
unfoldable pub new_server : FifoSequencer → OrderServer
new_server f = record {
  cid_to_socket = λ _. none;
  cid_next_outgoing_seq_num = λ _. 1;
  cid_next_exp_seq_num = λ _. 1;
  fifo_sequencer = f;
}

-- `savedSocket != socket`, for a saved socket that is not null.
abbrev pub other_socket : Option ℕ → ℕ → Bool
other_socket none s = false
other_socket (some s') s = not (s' == s)

-- The first request of a client binds its socket.
abbrev pub bind_socket : OrderServer → ℕ → ℕ → OrderServer
bind_socket o client socket = elim (o.cid_to_socket client) [
  | none ↦ record o { cid_to_socket = update o.cid_to_socket client (some socket) }
  | some _ ↦ o
]

-- `++expected_seq_num`, and the request goes to the sequencer.
unfoldable pub accept_request : OrderServer → ℕ → OgClientRequest → Result OrderServer
accept_request o rx_time r = do
  let client = r.me_client_request.client_id
  let o1 = record o {
    cid_next_exp_seq_num = update o.cid_next_exp_seq_num client (o.cid_next_exp_seq_num client + 1);
  }
  f ← add_client_request o1.fifo_sequencer rx_time r.me_client_request
  ok (record o1 { fifo_sequencer = f })

-- The checks on a client within the arrays.
unfoldable pub check_request : OrderServer → ℕ → ℕ → OgClientRequest → Result OrderServer
unfolding accept_request
check_request o socket rx_time r =
    if other_socket (o.cid_to_socket r.me_client_request.client_id) socket
    then ok o
    else (if not (o.cid_next_exp_seq_num r.me_client_request.client_id == r.seq_num)
        then ok (bind_socket o r.me_client_request.client_id socket)
        else accept_request (bind_socket o r.me_client_request.client_id socket) rx_time r)

-- The body of the loop of `recvCallbacks`: a request on another socket or with another sequence
-- number is dropped. The arrays are indexed without a bounds check.
unfoldable pub recv_request : OrderServer → ℕ → ℕ → OgClientRequest → Result OrderServer
unfolding check_request
recv_request o socket rx_time r = do
  require (ltb r.me_client_request.client_id me_max_num_clients) out_of_range
  check_request o socket rx_time r

-- The requests of one callback, in the order in which they stand in the buffer.
unfoldable pub recv_requests : OrderServer → ℕ → ℕ → List OgClientRequest → Result OrderServer
recv_requests o socket rx_time [] = ok o
recv_requests o socket rx_time (r ∷ rs) =
    recv_request o socket rx_time r >>= λ o1. recv_requests o1 socket rx_time rs

-- `sizeof(OGClientResquest)`: the struct is packed.
abbrev pub request_size : ℕ
request_size = 38

module _ (decode : List ℕ → OgClientRequest) where
  -- The whole requests in a buffer, and the bytes behind them, which `memmove` brings to the front.
  unfoldable pub split_requests : ℕ → List ℕ → List OgClientRequest × List ℕ
  split_requests zero bytes = ([], bytes)
  split_requests (suc fuel) bytes =
      let (rs, rest) = split_requests fuel (drop request_size bytes) in
      if leb request_size (length bytes)
      then (decode (take request_size bytes) ∷ rs, rest)
      else ([], bytes)

  -- The server and the buffer after the callback.
  unfoldable pub recv_callbacks : OrderServer → ℕ → ℕ → List ℕ → Result (OrderServer × List ℕ)
  recv_callbacks o socket rx_time bytes = do
    let (rs, rest) = split_requests (length bytes) bytes
    o1 ← recv_requests o socket rx_time rs
    ok (o1, rest)

-- `recvFinishedCallbacks`.
unfoldable pub recv_finished_callbacks :
    (List RecvTimeClientRequest → List RecvTimeClientRequest) → OrderServer → OrderServer
recv_finished_callbacks sort o = record o {
  fifo_sequencer = sequence_and_publish sort o.fifo_sequencer;
}

-- One response in the loop of `run`: the socket, and what is sent on it.
unfoldable pub send_response :
    OrderServer → MeClientResponse → Result ((ℕ × OgClientResponse) × OrderServer)
send_response o r = do
  require (ltb r.client_id me_max_num_clients) out_of_range
  elim (o.cid_to_socket r.client_id) [
    | none ↦ err assert_failed
    | some socket ↦ ok (
      (
        socket,
        record { seq_num = o.cid_next_outgoing_seq_num r.client_id; me_client_response = r },
      ),
      record o {
        cid_next_outgoing_seq_num =
            update o.cid_next_outgoing_seq_num r.client_id
              (o.cid_next_outgoing_seq_num r.client_id + 1);
      },
    )
  ]

-- The responses that wait in the queue, in order.
unfoldable pub send_responses :
    OrderServer → List MeClientResponse → Result (List (ℕ × OgClientResponse) × OrderServer)
send_responses o [] = ok ([], o)
send_responses o (r ∷ rs) = do
  (sent, o1) ← send_response o r
  (later, o2) ← send_responses o1 rs
  ok (sent ∷ later, o2)
