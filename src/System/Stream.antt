-- ===== src/System/Stream.antt =====
-- The order server's callback on a TCP socket: requests arrive in whatever pieces the network makes.
use mathlib.Core.List.{append_assoc, append-nil}
use trading_system.Prelude.{
  ℕ, zero, suc, ◌≤◌, ◌<◌, ◌≡◌, refl, sym, ap, ◌∙◌, inl, inr, List, [], ◌∷◌, ◌++◌, Result,
  Result-cases, ok, ◌>>=◌, arith, length, length-append, take, Allows-ok,
}
use trading_system.Messages.{OgClientRequest}
use trading_system.Network.TcpSocket.{
  TcpSocket, Kernel, Exchanged, tcp_buffer_size, is_nonempty, read, receive, send_and_recv,
}
use trading_system.Exchange.OrderServer.{OrderServer, request_size, recv_callbacks}
use trading_system.Exchange.OrderServer.Serving.{server_callback}
use trading_system.Exchange.OrderServer.Chunks.{
  recv_callbacks-append, recv_callbacks-short, recv_callbacks-left,
}

take-all : (n : ℕ) (xs : List ℕ) → length xs ≤ n → take n xs ≡ xs
take-all zero [] h = refl
take-all (suc n) [] h = refl
take-all zero (x ∷ xs) h = absurd (omega arith)
take-all (suc n) (x ∷ xs) h = ap (λ t. x ∷ t) (take-all n xs (omega arith))

-- The bytes that come in, over all turns.
abbrev pub arriving : List Kernel → List ℕ
arriving [] = []
arriving (k ∷ ks) = k.arrived ++ arriving ks

abbrev pub AllAt : ℕ → List Kernel → Type 0
AllAt t [] = Unit {0}
AllAt t (k ∷ ks) = (k.time ≡ t) × AllAt t ks

module _ (decode : List ℕ → OgClientRequest) where
  -- One call of `sendAndRecv` after the other.
  unfoldable pub recv_turns : OrderServer → TcpSocket → List Kernel → Result (OrderServer × List ℕ)
  recv_turns o s [] = ok (o, s.recv_buffer)
  recv_turns o s (k ∷ ks) =
      send_and_recv (server_callback decode) o s k >>= λ x. recv_turns x.world x.socket ks

  -- What a turn leaves, once the callback has returned `p`.
  abbrev exchanged : TcpSocket → Kernel → OrderServer × List ℕ → Exchanged OrderServer
  exchanged s k p = record {
    world = p.0;
    socket = record s { send_buffer = []; recv_buffer = p.1 };
    wire = take k.accepts s.send_buffer;
    received = is_nonempty k.arrived;
  }

  -- What arrives goes to the server, behind what was left over.
  turn-received :
      (o : OrderServer) (s : TcpSocket) (k : Kernel)
      → length s.recv_buffer < request_size
      → length (s.recv_buffer ++ k.arrived) ≤ tcp_buffer_size
      → send_and_recv (server_callback decode) o s k ≡ (
          recv_callbacks decode o s.fd k.time (s.recv_buffer ++ k.arrived) >>= λ p.
          ok (exchanged s k p))
  unfolding send_and_recv read receive server_callback
  turn-received o s k short fits = by_arrived k.arrived refl
    where
      all_read : read s k ≡ k.arrived
      all_read = take-all _ _ (omega (arith, fits, length-append s.recv_buffer k.arrived))

      by_arrived :
          (bs : List ℕ)
          → k.arrived ≡ bs
          → send_and_recv (server_callback decode) o s k ≡ (
              recv_callbacks decode o s.fd k.time (s.recv_buffer ++ k.arrived) >>= λ p.
              ok (exchanged s k p))
      by_arrived [] e =
          rw
            (
              send_and_recv,
              all_read,
              e,
              append-nil,
              recv_callbacks-short decode o s.fd k.time s.recv_buffer short,
            )
            refl
      by_arrived (b ∷ bs) e =
          elim (Result-cases (recv_callbacks decode o s.fd k.time (s.recv_buffer ++ (b ∷ bs)))) [
            | inl (p, h) ↦ rw (send_and_recv, all_read, e, h) refl
            | inr (x, h) ↦ rw (send_and_recv, all_read, e, h) refl
          ]

  -- Requests that arrive on a connection in any number of pieces, all read at one time and in all no
  -- more than the buffer holds, are handled as if they had arrived in one: the server ends in the
  -- same state or fails alike, and the same bytes are left in the buffer.
  pub recv_turns-whole :
      (o : OrderServer) (s : TcpSocket) (t : ℕ) (ks : List Kernel)
      → AllAt t ks
      → length s.recv_buffer < request_size
      → length (s.recv_buffer ++ arriving ks) ≤ tcp_buffer_size
      → recv_turns o s ks ≡ recv_callbacks decode o s.fd t (s.recv_buffer ++ arriving ks)
  unfolding recv_turns
  recv_turns-whole o s t [] at short fits = sym (
      ap (recv_callbacks decode o s.fd t) (append-nil s.recv_buffer)
      ∙ recv_callbacks-short decode o s.fd t s.recv_buffer short)
  recv_turns-whole o s t (k ∷ ks) (now, at) short fits =
      let bytes = s.recv_buffer ++ k.arrived in
      let cut = append_assoc s.recv_buffer k.arrived (arriving ks) in
      let fewer = length-append bytes (arriving ks) in
      let total : length (bytes ++ arriving ks) ≤ tcp_buffer_size = rw cut fits in
      elim (Result-cases (recv_callbacks decode o s.fd t bytes)) [
        | inl (p, e) ↦
            let (left_short, left_few) = Allows-ok (recv_callbacks-left decode o s.fd t bytes) e in
            let ih =
              recv_turns-whole p.0 (record s { send_buffer = []; recv_buffer = p.1 }) t ks at
                left_short
                (omega (arith, total, fewer, left_few, length-append p.1 (arriving ks))) in
            rw
              (
                turn-received o s k short (omega (arith, total, fewer)),
                now,
                e,
                ih,
                sym cut,
                recv_callbacks-append decode o s.fd t bytes (arriving ks),
                e,
              )
              refl
        | inr (x, e) ↦
            rw
              (
                turn-received o s k short (omega (arith, total, fewer)),
                now,
                e,
                sym cut,
                recv_callbacks-append decode o s.fd t bytes (arriving ks),
                e,
              )
              refl
      ]
