-- ===== src/System/Delivery.antt =====
-- The order server and a client's order gateway, joined by a stream that loses nothing: what one side
-- sends with its sequence numbers, the other side accepts in full and in order.
pub mod Bytes
use trading_system.Prelude.{
  ℕ, ◌+◌, ◌<◌, ◌≡◌, refl, sym, ap, ◌∙◌, true, some, List, [], ◌∷◌, ok, arith, ltb, lt→ltb, update,
}
use trading_system.Types.{me_max_num_clients}
use trading_system.Messages.{MeClientResponse, OgClientResponse}
use trading_system.SpscQueue.{push}
use trading_system.Exchange.MatchingEngine.{push_all}
use trading_system.Exchange.OrderServer.{OrderServer, send_response, send_responses}
use trading_system.Client.OrderGateway.{OrderGateway, recv_response, recv_responses}

-- Every response is for client `c`.
abbrev pub AllFor : ℕ → List MeClientResponse → Type 0
AllFor c [] = Unit {0}
AllFor c (r ∷ rs) = (r.client_id ≡ c) × AllFor c rs

-- The messages without the sockets on which they go out.
abbrev pub on_wire : List (ℕ × OgClientResponse) → List OgClientResponse
on_wire [] = []
on_wire ((s, m) ∷ ms) = m ∷ on_wire ms

-- Every message goes out on socket `f`.
abbrev pub AllOn : ℕ → List (ℕ × OgClientResponse) → Type 0
AllOn f [] = Unit {0}
AllOn f ((s, m) ∷ ms) = (s ≡ f) × AllOn f ms

-- The server expects to number its next response as the gateway expects it, on an open connection.
pub record Connected (o : OrderServer) (g : OrderGateway) : Type 0 where
  pub in_table : g.client_id < me_max_num_clients
  pub socket : ℕ
  pub bound : o.cid_to_socket g.client_id ≡ some socket
  pub in_step : o.cid_next_outgoing_seq_num g.client_id ≡ g.next_incoming_seq_num

-- The responses under the numbers from `n` on.
abbrev pub answers : ℕ → List MeClientResponse → List OgClientResponse
answers n [] = []
answers n (r ∷ rs) = record { seq_num = n; me_client_response = r } ∷ answers (n + 1) rs

-- What delivery comes to: every response reaches the queue of the trade engine, in order, and the two
-- sides are in step again.
pub record Delivered (o : OrderServer) (g : OrderGateway) (rs : List MeClientResponse)
    : Type 0 where
  pub sent : List (ℕ × OgClientResponse)
  pub server : OrderServer
  pub sends : send_responses o rs ≡ ok (sent, server)
  pub addressed : (f : ℕ) → o.cid_to_socket g.client_id ≡ some f → AllOn f sent
  pub numbered : on_wire sent ≡ answers (o.cid_next_outgoing_seq_num g.client_id) rs
  pub received :
      (recv_responses g (on_wire sent)).incoming_responses ≡ push_all g.incoming_responses rs
  pub connected : Connected server (recv_responses g (on_wire sent))

-- The response as it goes out.
abbrev pub response_message : OrderServer → MeClientResponse → OgClientResponse
response_message o r = record {
  seq_num = o.cid_next_outgoing_seq_num r.client_id;
  me_client_response = r;
}

-- The server after a response, and the gateway.
abbrev pub server_after : OrderServer → MeClientResponse → OrderServer
server_after o r = record o {
  cid_next_outgoing_seq_num =
      update o.cid_next_outgoing_seq_num r.client_id (o.cid_next_outgoing_seq_num r.client_id + 1);
}

abbrev pub gateway_after : OrderGateway → MeClientResponse → OrderGateway
gateway_after g r = record g {
  next_incoming_seq_num = g.next_incoming_seq_num + 1;
  incoming_responses = push g.incoming_responses r;
}

send_response-ok :
    (o : OrderServer) (g : OrderGateway) (r : MeClientResponse)
    → (c : Connected o g) → r.client_id ≡ g.client_id
    → send_response o r ≡ ok ((c.socket, response_message o r), server_after o r)
unfolding send_response
send_response-ok o g r c mine =
    let inside : ltb r.client_id me_max_num_clients ≡ true =
      lt→ltb r.client_id me_max_num_clients (omega (arith, mine, c.in_table)) in
    let bound : o.cid_to_socket r.client_id ≡ some c.socket = ap o.cid_to_socket mine ∙ c.bound in
    rw (inside, bound, send_response) refl

recv_response-ok :
    (o : OrderServer) (g : OrderGateway) (r : MeClientResponse)
    → Connected o g
    → r.client_id ≡ g.client_id
    → recv_response g (response_message o r) ≡ gateway_after g r
unfolding recv_response
recv_response-ok o g r c mine = ground (arith, c.in_step)

Connected-after :
    (o : OrderServer) (g : OrderGateway) (r : MeClientResponse)
    → Connected o g
    → r.client_id ≡ g.client_id
    → Connected (server_after o r) (gateway_after g r)
Connected-after o g r c mine = record {
  in_table = c.in_table;
  socket = c.socket;
  bound = c.bound;
  in_step = ground (arith, c.in_step);
}

some-injective : {m n : ℕ} → some m ≡ some n → m ≡ n
some-injective e = cc

deliver_one :
    (o : OrderServer) (g : OrderGateway) (r : MeClientResponse) (rs : List MeClientResponse)
    → Connected o g
    → r.client_id ≡ g.client_id
    → Delivered (server_after o r) (gateway_after g r) rs
    → Delivered o g (r ∷ rs)
unfolding send_responses recv_responses push_all
deliver_one o g r rs c mine later = record {
  sent = (c.socket, response_message o r) ∷ later.sent;
  server = later.server;
  sends = rw (send_response-ok o g r c mine, later.sends) refl;
  addressed = λ f bound. (some-injective (sym c.bound ∙ bound), later.addressed f bound);
  numbered =
      let here : o.cid_next_outgoing_seq_num r.client_id ≡ o.cid_next_outgoing_seq_num g.client_id =
        ap o.cid_next_outgoing_seq_num mine in
      let next : (server_after o r).cid_next_outgoing_seq_num g.client_id
          ≡ o.cid_next_outgoing_seq_num g.client_id + 1 =
        ground (arith, mine) in
      ap (λ n. record { seq_num = n; me_client_response = r } ∷ on_wire later.sent) here
      ∙ ap
          (λ ms.
            record { seq_num = o.cid_next_outgoing_seq_num g.client_id; me_client_response = r }
            ∷ ms)
          (later.numbered ∙ ap (λ n. answers n rs) next);
  received = rw (recv_response-ok o g r c mine, recv_responses, push_all) later.received;
  connected = rw (recv_response-ok o g r c mine, recv_responses) later.connected;
}

-- On an open connection on which the server numbers as the gateway expects, every list of responses
-- for the client is sent without a failure, accepted in full and in order, and the two sides are in
-- step again.
pub responses-Delivered :
    (rs : List MeClientResponse) (o : OrderServer) (g : OrderGateway)
    → Connected o g
    → AllFor g.client_id rs
    → Delivered o g rs
unfolding send_responses recv_responses push_all
responses-Delivered [] o g c all = record {
  sent = [];
  server = o;
  sends = refl;
  addressed = λ f bound. tt;
  numbered = refl;
  received = refl;
  connected = c;
}
responses-Delivered (r ∷ rs) o g c (mine, all) = deliver_one o g r rs c mine (
    responses-Delivered rs (server_after o r) (gateway_after g r) (Connected-after o g r c mine)
      all)
