-- ===== src/Client/OrderGateway/Turns/Requests.antt =====
-- Where the bytes of the requests go.
use mathlib.Core.List.{append_assoc, append-nil}
use trading_system.Prelude.{
  ℕ, zero, suc, ◌+◌, ◌≤◌, ◌<◌, ◌≡◌, refl, sym, ap, ◌∙◌, List, [], ◌∷◌, ◌++◌, ok, arith, length,
  length-append, Returns, gives, Returns-mono,
}
use trading_system.Messages.{MeClientRequest, OgClientRequest}
use trading_system.SpscQueue.{SpscQueue}
use trading_system.SpscQueue.Refine.{IsValid, contents}
use trading_system.SpscQueue.Waiting.{none-waiting, next-waiting}
use trading_system.Network.TcpSocket.{TcpSocket, tcp_buffer_size}
use trading_system.Network.TcpSocket.Sending.{send-ok}
use trading_system.Client.OrderGateway.{send_request}
use trading_system.Client.OrderGateway.Turns.{Turning, write_request, send_waiting}

module _ (encode_number : ℕ → List ℕ) (encode_request : MeClientRequest → List ℕ) where
  -- The bytes of requests numbered from `n` on.
  abbrev pub frames : ℕ → List MeClientRequest → List ℕ
  frames n [] = []
  frames n (r ∷ rs) = (encode_number n ++ encode_request r) ++ frames (n + 1) rs

  pub record Sent (v : Turning) (rs : List MeClientRequest) (w : Turning) : Type 0 where
    pub buffered : w.tcp_socket ≡ record (v.tcp_socket) {
      send_buffer = v.tcp_socket.send_buffer ++ frames v.gateway.next_outgoing_seq_num rs;
    }
    pub emptied : contents w.outgoing_requests ≡ []
    pub number :
        w.gateway
        ≡ record (v.gateway) { next_outgoing_seq_num = v.gateway.next_outgoing_seq_num + length rs }

  -- The socket with a request in its buffer.
  abbrev filled : TcpSocket → ℕ → MeClientRequest → TcpSocket
  filled s n r = record s { send_buffer = s.send_buffer ++ (encode_number n ++ encode_request r) }

  write_request-ok :
      (s : TcpSocket) (r : OgClientRequest)
      → length s.send_buffer
          + length (encode_number r.seq_num ++ encode_request r.me_client_request)
        ≤ tcp_buffer_size
      → write_request encode_number encode_request s r ≡ ok (filled s r.seq_num r.me_client_request)
  unfolding write_request
  write_request-ok s r fits =
      let number = encode_number r.seq_num in
      let body = encode_request r.me_client_request in
      let both = length-append number body in
      let first : TcpSocket = record s { send_buffer = s.send_buffer ++ number } in
      rw
        (
          send-ok s number (omega (arith, fits, both)),
          send-ok first body (omega (arith, fits, both, length-append s.send_buffer number)),
          append_assoc s.send_buffer number body,
        )
        refl

  -- The state after the first request.
  abbrev after_one : Turning → MeClientRequest → SpscQueue MeClientRequest → Turning
  after_one v r q = record {
    gateway = record (v.gateway) { next_outgoing_seq_num = v.gateway.next_outgoing_seq_num + 1 };
    outgoing_requests = q;
    tcp_socket = filled v.tcp_socket v.gateway.next_outgoing_seq_num r;
  }

  Sent-later :
      (v w : Turning) (r : MeClientRequest) (rs : List MeClientRequest)
      (q : SpscQueue MeClientRequest)
      → Sent (after_one v r q) rs w
      → Sent v (r ∷ rs) w
  Sent-later v w r rs q h =
      let n = v.gateway.next_outgoing_seq_num in
      let sum : n + 1 + length rs ≡ n + length (r ∷ rs) = omega arith in
      record {
        buffered =
            h.buffered
            ∙ ap (λ b. record (v.tcp_socket) { send_buffer = b })
                (append_assoc v.tcp_socket.send_buffer (encode_number n ++ encode_request r)
                  (frames (n + 1) rs));
        emptied = h.emptied;
        number = h.number ∙ ap (λ m. record (v.gateway) { next_outgoing_seq_num = m }) sum;
      }

  done-Sent : (v : Turning) → contents v.outgoing_requests ≡ [] → Sent v [] v
  done-Sent v e = record {
    buffered =
        ap (λ b. record (v.tcp_socket) { send_buffer = b })
          (sym (append-nil v.tcp_socket.send_buffer));
    emptied = e;
    number =
        let same : v.gateway.next_outgoing_seq_num ≡ v.gateway.next_outgoing_seq_num + 0 =
          omega arith in
        ap (λ m. record (v.gateway) { next_outgoing_seq_num = m }) same;
  }

  -- When the queue is valid and not full, and the bytes of the requests that wait fit the buffer of the
  -- socket, the loop over them returns:
  -- each is appended to the buffer, in order, behind its number, the numbers being consecutive; none is
  -- left waiting, and nothing else of the gateway and of the socket changes.
  pub send_waiting-Sent :
      (rs : List MeClientRequest) (v : Turning) (fuel : ℕ)
      → IsValid v.outgoing_requests
      → v.outgoing_requests.num_elements < v.outgoing_requests.capacity
      → contents v.outgoing_requests ≡ rs
      → length rs ≤ fuel
      → length v.tcp_socket.send_buffer + length (frames v.gateway.next_outgoing_seq_num rs)
        ≤ tcp_buffer_size
      → Returns (Sent v rs) (send_waiting encode_number encode_request fuel v)
  unfolding send_waiting send_request
  send_waiting-Sent [] v zero valid space e enough fits =
      rw (send_waiting, none-waiting v.outgoing_requests valid e) (gives (done-Sent v e))
  send_waiting-Sent [] v (suc fuel) valid space e enough fits =
      rw (send_waiting, none-waiting v.outgoing_requests valid e) (gives (done-Sent v e))
  send_waiting-Sent (r ∷ rs) v zero valid space e enough fits = absurd (omega arith)
  send_waiting-Sent (r ∷ rs) v (suc fuel) valid space e enough fits =
      let s = v.tcp_socket in
      let n = v.gateway.next_outgoing_seq_num in
      let frame = encode_number n ++ encode_request r in
      let (q, seen, released, wq, tail, room) =
        next-waiting v.outgoing_requests r rs valid space e in
      let whole = length-append frame (frames (n + 1) rs) in
      let longer = length-append s.send_buffer frame in
      rw
        (
          send_waiting,
          seen,
          write_request-ok s (send_request v.gateway r).0 (omega (arith, fits, whole)),
          released,
        )
        (Returns-mono
          (send_waiting-Sent rs (after_one v r q) fuel wq room tail (omega arith)
            (omega (arith, fits, whole, longer)))
          (λ w. Sent-later v w r rs q))
