-- ===== src/Network/TcpSocket/Sending.antt =====
-- From the calls of `send` to the wire.
use mathlib.Core.List.{flatten, append-nil, append_assoc}
use trading_system.Prelude.{
  ℕ, zero, suc, ◌+◌, ◌-◌, ◌≤◌, ◌≡◌, refl, sym, ap, ◌∙◌, List, [], ◌∷◌, ◌++◌, Result, ok, ◌>>=◌,
  arith, length, length-append, take, drop, take-append-drop, length-drop, Returns, gives,
}
use trading_system.Network.TcpSocket.{
  TcpSocket, send, tcp_buffer_size, Kernel, Exchanged, receive, read, send_and_recv,
}

-- The calls of one turn, in order.
unfoldable pub send_all : TcpSocket → List (List ℕ) → Result TcpSocket
send_all s [] = ok s
send_all s (m ∷ ms) = send s m >>= λ s1. send_all s1 ms

pub send-ok :
    (s : TcpSocket) (m : List ℕ)
    → length s.send_buffer + length m ≤ tcp_buffer_size
    → send s m ≡ ok (record s { send_buffer = s.send_buffer ++ m })
unfolding send
send-ok s m h = ground arith

pub send_all-ok :
    (s : TcpSocket) (ms : List (List ℕ))
    → length s.send_buffer + length (flatten ms) ≤ tcp_buffer_size
    → send_all s ms ≡ ok (record s { send_buffer = s.send_buffer ++ flatten ms })
unfolding send_all flatten
send_all-ok s [] h = ap (λ b. ok (record s { send_buffer = b })) (sym (append-nil s.send_buffer))
send_all-ok s (m ∷ ms) h =
    let s1 : TcpSocket = record s { send_buffer = s.send_buffer ++ m } in
    let whole = length-append m (flatten ms) in
    let longer = length-append s.send_buffer m in
    rw (send-ok s m (omega (arith, h, whole))) (
      send_all-ok s1 ms (omega (arith, h, whole, longer))
      ∙ ap (λ b. ok (record s { send_buffer = b })) (append_assoc s.send_buffer m (flatten ms)))

take-nil : (n : ℕ) → take {A = ℕ} n [] ≡ []
take-nil zero = refl
take-nil (suc n) = refl

-- What reached the wire in a turn in which nothing came in, and what did not.
pub record Went (messages : List (List ℕ)) (k : Kernel) {W : Type 0} (w : W) (x : Exchanged W)
    : Type 0 where
  pub lost : List ℕ
  pub same_world : x.world ≡ w
  pub in_order : x.wire ++ lost ≡ flatten messages
  pub at_most : length lost ≡ length (flatten messages) - k.accepts
  pub emptied : x.socket.send_buffer ≡ []

module _ {W : Type 0} (recv_callback : W → TcpSocket → ℕ → Result (W × TcpSocket)) where
  -- Messages that fit the buffer of a socket that had none to send go out in order in a turn in which
  -- nothing comes in, as far as the kernel takes them: the bytes beyond are dropped, not kept for
  -- later.
  pub send_and_recv-Went :
      (w : W) (s : TcpSocket) (ms : List (List ℕ)) (k : Kernel)
      → s.send_buffer ≡ []
      → length (flatten ms) ≤ tcp_buffer_size
      → k.arrived ≡ []
      → Returns (Went ms k w) (send_all s ms >>= λ s1. send_and_recv recv_callback w s1 k)
  unfolding send_and_recv receive read
  send_and_recv-Went w s ms k empty fits quiet =
      let filled : send_all s ms ≡ ok (record s { send_buffer = flatten ms }) =
        send_all-ok s ms (rw empty (omega (arith, fits)))
        ∙ ap (λ b. ok (record s { send_buffer = b ++ flatten ms })) empty in
      let nothing : (n : ℕ) → take n k.arrived ≡ [] = λ n. rw (quiet, take-nil) refl in
      rw (filled, nothing)
        (gives (record {
          lost = drop k.accepts (flatten ms);
          same_world = refl;
          in_order = take-append-drop k.accepts (flatten ms);
          at_most = length-drop k.accepts (flatten ms);
          emptied = refl;
        }))
