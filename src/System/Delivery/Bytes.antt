-- ===== src/System/Delivery/Bytes.antt =====
-- The responses of the order server as the bytes that src/client/order_gateway.cpp reads.
use trading_system.Prelude.{
  ℕ, zero, suc, ◌-◌, ◌*◌, ◌≤◌, ◌≡◌, refl, sym, ap, ◌∙◌, true, some, List, [], ◌∷◌, ◌++◌, ok, arith,
  leb, length, length-append, take-append, drop-append,
}
use mathlib.Core.Path.{subst}
use trading_system.Messages.{MeClientResponse, OgClientResponse}
use trading_system.Exchange.MatchingEngine.{push_all}
use trading_system.Exchange.OrderServer.{OrderServer, send_responses}
use trading_system.Client.OrderGateway.{
  OrderGateway, recv_responses, response_size, whole, read_responses, recv_callback,
}
use trading_system.System.Delivery.{AllFor, AllOn, answers, on_wire, Connected, responses-Delivered}

-- The bytes of the messages, one behind the other.
abbrev pub bytes_of : (OgClientResponse → List ℕ) → List OgClientResponse → List ℕ
bytes_of encode [] = []
bytes_of encode (m ∷ ms) = encode m ++ bytes_of encode ms

-- What the layout of the packed struct gives for a message: its bytes are as many as the struct has,
-- and are read back as the message.
pub record IsLayout (encode : OgClientResponse → List ℕ) (decode : List ℕ → OgClientResponse)
    (m : OgClientResponse) : Type 0 where
  pub size : length (encode m) ≡ response_size
  pub round : decode (encode m) ≡ m

abbrev pub AreLaid :
    (OgClientResponse → List ℕ) → (List ℕ → OgClientResponse) → List OgClientResponse → Type 0
AreLaid encode decode [] = Unit {0}
AreLaid encode decode (m ∷ ms) = IsLayout encode decode m × AreLaid encode decode ms

module _ (encode : OgClientResponse → List ℕ) (decode : List ℕ → OgClientResponse) where
  length-bytes_of :
      (ms : List OgClientResponse)
      → AreLaid encode decode ms
      → length (bytes_of encode ms) ≡ length ms * response_size
  length-bytes_of [] w = refl
  length-bytes_of (m ∷ ms) (layout, w) =
      let rest = length-bytes_of ms w in
      let both = length-append (encode m) (bytes_of encode ms) in
      let size = layout.size in omega (arith, rest, both, size)

  whole-exact : (k fuel : ℕ) → k ≤ fuel → whole fuel (k * response_size) ≡ k
  unfolding whole
  whole-exact k zero h = omega (arith, h)
  whole-exact zero (suc fuel) h = ground arith
  whole-exact (suc k) (suc fuel) h =
      let here : leb response_size (suc k * response_size) ≡ true = ground arith in
      let less : suc k * response_size - response_size ≡ k * response_size = omega arith in
      rw (here, less) (ap suc (whole-exact k fuel (omega (arith, h))))

  read_responses-bytes_of :
      (ms : List OgClientResponse)
      → AreLaid encode decode ms
      → read_responses decode (length ms) (bytes_of encode ms) ≡ ms
  unfolding read_responses
  read_responses-bytes_of [] w = refl
  read_responses-bytes_of (m ∷ ms) (layout, w) =
      rw
        (
          take-append (encode m) (bytes_of encode ms) response_size layout.size,
          drop-append (encode m) (bytes_of encode ms) response_size layout.size,
          layout.round,
          read_responses-bytes_of ms w,
        )
        refl

  -- Whole messages are handled as the messages that they are, and no byte is left.
  recv_callback-bytes_of :
      (g : OrderGateway) (ms : List OgClientResponse)
      → AreLaid encode decode ms
      → recv_callback decode g (bytes_of encode ms) ≡ (recv_responses g ms, [])
  unfolding recv_callback recv_responses
  recv_callback-bytes_of g [] w = ground arith
  recv_callback-bytes_of g (m ∷ ms) w =
      let bytes = bytes_of encode (m ∷ ms) in
      let count = length (m ∷ ms) in
      let long : length bytes ≡ count * response_size = length-bytes_of (m ∷ ms) w in
      let fits : leb response_size (length bytes) ≡ true = ground (arith, long) in
      let all : whole (length bytes) (length bytes) ≡ count =
        ap (λ n. whole (length bytes) n) long
        ∙ whole-exact count (length bytes) (omega (arith, long)) in
      let none_left : length bytes - count * response_size ≡ 0 = omega (arith, long) in
      rw (recv_callback, fits, all, none_left, read_responses-bytes_of (m ∷ ms) w) refl

  -- What the gateway makes of the responses when their bytes have come in one piece.
  pub record Read (o : OrderServer) (g : OrderGateway) (rs : List MeClientResponse) : Type 0 where
    pub sent : List (ℕ × OgClientResponse)
    pub server : OrderServer
    pub gateway : OrderGateway
    pub sends : send_responses o rs ≡ ok (sent, server)
    pub addressed : (f : ℕ) → o.cid_to_socket g.client_id ≡ some f → AllOn f sent
    pub numbered : on_wire sent ≡ answers (o.cid_next_outgoing_seq_num g.client_id) rs
    pub reads : recv_callback decode g (bytes_of encode (on_wire sent)) ≡ (gateway, [])
    pub received : gateway.incoming_responses ≡ push_all g.incoming_responses rs
    pub connected : Connected server gateway

  -- On an open connection on which the server numbers as the gateway expects, every list of responses
  -- for the client is numbered and handed to its socket without a failure. If the bytes of all of them
  -- are in the gateway's buffer at one callback, and nothing else is, the callback pushes every
  -- response to the queue of the trade engine, in order, and leaves no byte, and the two sides are in
  -- step again. `encode` and `decode` are the layout of the packed struct, for the responses under
  -- their numbers. The room in the send buffer of the server is left aside.
  pub responses-Read :
      (rs : List MeClientResponse) (o : OrderServer) (g : OrderGateway)
      → Connected o g
      → AllFor g.client_id rs
      → AreLaid encode decode (answers (o.cid_next_outgoing_seq_num g.client_id) rs)
      → Read o g rs
  responses-Read rs o g c all laid =
      let d = responses-Delivered rs o g c all in
      record {
        sent = d.sent;
        server = d.server;
        gateway = recv_responses g (on_wire d.sent);
        sends = d.sends;
        addressed = d.addressed;
        numbered = d.numbered;
        reads =
            recv_callback-bytes_of g (on_wire d.sent)
              (subst (AreLaid encode decode) (sym d.numbered) laid);
        received = d.received;
        connected = d.connected;
      }
