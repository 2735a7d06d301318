-- ===== src/Client/OrderGateway.antt =====
-- src/client/order_gateway.cpp: requests out and responses in, with a sequence number each. The bytes
-- of a response are read by the parameter `decode`, the layout of the packed struct.
pub mod Turns
use trading_system.Prelude.{
  ℕ, zero, suc, ◌+◌, ◌-◌, ◌*◌, List, [], ◌∷◌, not, leb, ◌==◌, if◌then◌else◌, length, take, drop,
}
use trading_system.Messages.{MeClientRequest, OgClientRequest, MeClientResponse, OgClientResponse}
use trading_system.SpscQueue.{SpscQueue, push}

pub record OrderGateway : Type 0 where
  pub client_id : ℕ
  pub next_outgoing_seq_num : ℕ
  pub next_incoming_seq_num : ℕ
  pub incoming_responses : SpscQueue MeClientResponse

-- One request in the loop of `run`: what is sent, and the gateway.
unfoldable pub send_request : OrderGateway → MeClientRequest → OgClientRequest × OrderGateway
send_request g r = (
  record { seq_num = g.next_outgoing_seq_num; me_client_request = r },
  record g { next_outgoing_seq_num = g.next_outgoing_seq_num + 1 },
)

unfoldable pub send_requests :
    OrderGateway → List MeClientRequest → List OgClientRequest × OrderGateway
send_requests g [] = ([], g)
send_requests g (r ∷ rs) =
    let (sent, g1) = send_request g r in let (later, g2) = send_requests g1 rs in (sent ∷ later, g2)

-- The body of the loop of `recvCallback`: a response for another client or with another sequence
-- number is dropped.
unfoldable pub recv_response : OrderGateway → OgClientResponse → OrderGateway
recv_response g r =
    if not (r.me_client_response.client_id == g.client_id)
    then g
    else (if not (r.seq_num == g.next_incoming_seq_num) then g else record g {
      next_incoming_seq_num = g.next_incoming_seq_num + 1;
      incoming_responses = push g.incoming_responses r.me_client_response;
    })

unfoldable pub recv_responses : OrderGateway → List OgClientResponse → OrderGateway
recv_responses g [] = g
recv_responses g (r ∷ rs) = recv_responses (recv_response g r) rs

-- `sizeof(OGClientResponse)`: the struct is packed.
abbrev pub response_size : ℕ
response_size = 50

-- The number of whole responses in a buffer of `n` bytes.
unfoldable pub whole : ℕ → ℕ → ℕ
whole zero n = 0
whole (suc fuel) n =
    let more = whole fuel (n - response_size) in if leb response_size n then suc more else 0

module _ (decode : List ℕ → OgClientResponse) where
  unfoldable pub read_responses : ℕ → List ℕ → List OgClientResponse
  read_responses zero bytes = []
  read_responses (suc k) bytes =
      decode (take response_size bytes) ∷ read_responses k (drop response_size bytes)

  -- The gateway and the buffer after the callback. The `memmove` starts at the second byte of the
  -- buffer, whatever was read.
  unfoldable pub recv_callback : OrderGateway → List ℕ → OrderGateway × List ℕ
  unfolding whole read_responses
  recv_callback g bytes =
      let k = whole (length bytes) (length bytes) in
      if leb response_size (length bytes)
      then (
        recv_responses g (read_responses k bytes),
        take (length bytes - k * response_size) (drop 1 bytes),
      )
      else (g, bytes)
