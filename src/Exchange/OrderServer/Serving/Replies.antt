-- ===== src/Exchange/OrderServer/Serving/Replies.antt =====
-- Where the bytes of the responses go.
use mathlib.Core.List.{append_assoc, append-nil}
use trading_system.Prelude.{
  ℕ, zero, suc, ◌+◌, ◌≤◌, ◌<◌, ◌≡◌, ◌≢◌, refl, sym, ap, ◌∙◌, List, [], ◌∷◌, ◌++◌, some, true, ok,
  arith, ltb, lt→ltb, length, length-append, update, update_self, update_ne, Returns, gives,
  Returns-mono,
}
use trading_system.Types.{me_max_num_clients}
use trading_system.Messages.{MeClientResponse, OgClientResponse}
use trading_system.SpscQueue.{SpscQueue}
use trading_system.SpscQueue.Refine.{IsValid, contents}
use trading_system.SpscQueue.Waiting.{none-waiting, next-waiting}
use trading_system.Network.TcpSocket.{TcpSocket, tcp_buffer_size}
use trading_system.Network.TcpSocket.Sending.{send-ok}
use trading_system.Network.TcpServer.{TcpServer}
use trading_system.Exchange.OrderServer.{send_response}
use trading_system.Exchange.OrderServer.Serving.{Serving, write_response, reply_all}

-- Every response is for client `c`.
abbrev pub AllTo : ℕ → List MeClientResponse → Type 0
AllTo c [] = Unit {0}
AllTo c (r ∷ rs) = (r.client_id ≡ c) × AllTo c rs

-- Client `c` is known on the connection `fd`, whose socket is `s`, and the queue of responses is valid and
-- not full.
pub record Connected (v : Serving) (c fd : ℕ) (s : TcpSocket) : Type 0 where
  pub in_table : c < me_max_num_clients
  pub bound : v.server.cid_to_socket c ≡ some fd
  pub there : v.connections.all_sockets fd ≡ some s
  pub queue : IsValid v.outgoing_messages
  pub not_full : v.outgoing_messages.num_elements < v.outgoing_messages.capacity

module _ (encode_number : ℕ → List ℕ) (encode_response : MeClientResponse → List ℕ) where
  -- The bytes of responses numbered from `n` on.
  abbrev pub frames : ℕ → List MeClientResponse → List ℕ
  frames n [] = []
  frames n (r ∷ rs) = (encode_number n ++ encode_response r) ++ frames (n + 1) rs

  pub record Replied (v : Serving) (c fd : ℕ) (s : TcpSocket) (rs : List MeClientResponse)
      (w : Serving) : Type 0 where
    pub buffered :
        w.connections.all_sockets fd
        ≡ some (record s {
          send_buffer = s.send_buffer ++ frames (v.server.cid_next_outgoing_seq_num c) rs;
        })
    pub emptied : contents w.outgoing_messages ≡ []
    pub number :
        w.server.cid_next_outgoing_seq_num c ≡ v.server.cid_next_outgoing_seq_num c + length rs
    pub others :
        (other : ℕ) → other ≢ fd → w.connections.all_sockets other ≡ v.connections.all_sockets other

  write_response-ok :
      (t : TcpServer) (fd : ℕ) (s : TcpSocket) (r : OgClientResponse)
      → t.all_sockets fd ≡ some s
      → length s.send_buffer
          + length (encode_number r.seq_num ++ encode_response r.me_client_response)
        ≤ tcp_buffer_size
      → write_response encode_number encode_response t fd r
        ≡ ok (record t {
          all_sockets = update t.all_sockets fd (
              some (record s {
                send_buffer =
                    s.send_buffer
                    ++ (encode_number r.seq_num ++ encode_response r.me_client_response);
              }));
        })
  unfolding write_response
  write_response-ok t fd s r there fits =
      let number = encode_number r.seq_num in
      let body = encode_response r.me_client_response in
      let both = length-append number body in
      let first : TcpSocket = record s { send_buffer = s.send_buffer ++ number } in
      rw
        (
          write_response,
          there,
          send-ok s number (omega (arith, fits, both)),
          send-ok first body (omega (arith, fits, both, length-append s.send_buffer number)),
          append_assoc s.send_buffer number body,
        )
        refl

  -- The socket with the first response in its buffer.
  abbrev filled : Serving → ℕ → TcpSocket → MeClientResponse → TcpSocket
  filled v c s r = record s {
    send_buffer =
        s.send_buffer
        ++ (encode_number (v.server.cid_next_outgoing_seq_num c) ++ encode_response r);
  }

  -- The state after the first response.
  abbrev after_one :
      Serving → ℕ → ℕ → TcpSocket → MeClientResponse → SpscQueue MeClientResponse → Serving
  after_one v c fd s r q = record {
    server = record (v.server) {
      cid_next_outgoing_seq_num =
          update v.server.cid_next_outgoing_seq_num c (v.server.cid_next_outgoing_seq_num c + 1);
    };
    connections = record (v.connections) {
      all_sockets = update v.connections.all_sockets fd (some (filled v c s r));
    };
    outgoing_messages = q;
  }

  Replied-later :
      (v w : Serving) (c fd : ℕ) (s : TcpSocket) (r : MeClientResponse) (rs : List MeClientResponse)
      (q : SpscQueue MeClientResponse)
      → Replied (after_one v c fd s r q) c fd (filled v c s r) rs w
      → Replied v c fd s (r ∷ rs) w
  Replied-later v w c fd s r rs q h =
      let next = v.server.cid_next_outgoing_seq_num c in
      let mine = update_self v.server.cid_next_outgoing_seq_num c (next + 1) in
      record {
        buffered =
            h.buffered
            ∙ ap
                (λ n. some (record s { send_buffer = (filled v c s r).send_buffer ++ frames n rs }))
                mine
            ∙ ap (λ b. some (record s { send_buffer = b }))
                (append_assoc s.send_buffer (encode_number next ++ encode_response r)
                  (frames (next + 1) rs));
        emptied = h.emptied;
        number = omega (arith, h.number, mine);
        others = λ other ne.
            h.others other ne
            ∙ update_ne v.connections.all_sockets fd other (some (filled v c s r)) ne;
      }

  done-Replied :
      (v : Serving) (c fd : ℕ) (s : TcpSocket)
      → Connected v c fd s
      → contents v.outgoing_messages ≡ []
      → Replied v c fd s [] v
  done-Replied v c fd s k e = record {
    buffered =
        k.there ∙ ap (λ b. some (record s { send_buffer = b })) (sym (append-nil s.send_buffer));
    emptied = e;
    number = omega arith;
    others = λ other ne. refl;
  }

  send_response-answered :
      (v : Serving) (c fd : ℕ) (s : TcpSocket) (r : MeClientResponse)
      (q : SpscQueue MeClientResponse)
      → Connected v c fd s
      → r.client_id ≡ c
      → send_response v.server r
        ≡ ok (
          (fd, record { seq_num = v.server.cid_next_outgoing_seq_num c; me_client_response = r }),
          (after_one v c fd s r q).server,
        )
  unfolding send_response
  send_response-answered v c fd s r q k mine =
      let inside : ltb r.client_id me_max_num_clients ≡ true =
        lt→ltb r.client_id me_max_num_clients (omega (arith, mine, k.in_table)) in
      let bound : v.server.cid_to_socket r.client_id ≡ some fd =
        ap v.server.cid_to_socket mine ∙ k.bound in
      let numbers = v.server.cid_next_outgoing_seq_num in
      rw (send_response, inside, bound)
        (ap
          (λ i. ok (
            (fd, record { seq_num = numbers i; me_client_response = r }),
            record (v.server) { cid_next_outgoing_seq_num = update numbers i (numbers i + 1) },
          ))
          mine)

  -- When the queue is valid and not full, all responses that wait are for one client with an open
  -- connection, and their bytes fit the buffer of its socket, the loop over them returns: each goes to that socket, in order, behind its
  -- number, the numbers being consecutive; none is left waiting, and no other socket is touched.
  pub reply_all-Replied :
      (rs : List MeClientResponse) (v : Serving) (c fd : ℕ) (s : TcpSocket) (fuel : ℕ)
      → AllTo c rs
      → Connected v c fd s
      → contents v.outgoing_messages ≡ rs
      → length rs ≤ fuel
      → length s.send_buffer + length (frames (v.server.cid_next_outgoing_seq_num c) rs)
        ≤ tcp_buffer_size
      → Returns (Replied v c fd s rs) (reply_all encode_number encode_response fuel v)
  unfolding reply_all
  reply_all-Replied [] v c fd s zero all k e enough fits =
      rw (reply_all, none-waiting v.outgoing_messages k.queue e) (gives (done-Replied v c fd s k e))
  reply_all-Replied [] v c fd s (suc fuel) all k e enough fits =
      rw (reply_all, none-waiting v.outgoing_messages k.queue e) (gives (done-Replied v c fd s k e))
  reply_all-Replied (r ∷ rs) v c fd s zero all k e enough fits = absurd (omega arith)
  reply_all-Replied (r ∷ rs) v c fd s (suc fuel) (mine, all) k e enough fits =
      let next = v.server.cid_next_outgoing_seq_num c in
      let frame = encode_number next ++ encode_response r in
      let (q, seen, released, wq, tail, room) =
        next-waiting v.outgoing_messages r rs k.queue k.not_full e in
      let number = update_self v.server.cid_next_outgoing_seq_num c (next + 1) in
      let whole = length-append frame (frames (next + 1) rs) in
      let longer = length-append s.send_buffer frame in
      let later : Connected (after_one v c fd s r q) c fd (filled v c s r) = record {
        in_table = k.in_table;
        bound = k.bound;
        there = update_self v.connections.all_sockets fd (some (filled v c s r));
        queue = wq;
        not_full = room;
      } in
      let left : length (filled v c s r).send_buffer
            + length (frames ((after_one v c fd s r q).server.cid_next_outgoing_seq_num c) rs)
          ≤ tcp_buffer_size =
        rw number (omega (arith, fits, whole, longer)) in
      rw
        (
          reply_all,
          seen,
          send_response-answered v c fd s r q k mine,
          write_response-ok v.connections fd s (record { seq_num = next; me_client_response = r })
              k.there (omega (arith, fits, whole)),
          released,
        )
        (Returns-mono
          (reply_all-Replied rs (after_one v c fd s r q) c fd (filled v c s r) fuel all later tail
            (omega arith) left)
          (λ w. Replied-later v w c fd s r rs q))
