-- ===== src/System/Requests.antt =====
-- A client's order gateway and the order server, joined by a stream that loses nothing: requests.
use mathlib.Core.List.{append-nil, append_assoc}
use trading_system.Prelude.{
  ℕ, ◌+◌, ◌≤◌, ◌<◌, ◌≡◌, refl, sym, ap, ◌∙◌, ◌⊎◌, inl, inr, true, Option, none, some, List, [], ◌∷◌,
  ◌++◌, map, ok, arith, ltb, lt→ltb, ◌==◌, length, length-append, update,
}
use trading_system.Types.{me_max_num_clients}
use trading_system.Messages.{MeClientRequest}
use trading_system.Exchange.FifoSequencer.{
  RecvTimeClientRequest, max_pending_requests, add_client_request,
}
use trading_system.Exchange.OrderServer.{
  OrderServer, recv_request, recv_requests, check_request, accept_request, bind_socket,
}
use trading_system.Client.OrderGateway.{OrderGateway, send_request, send_requests}

-- Every request is from client `c`.
abbrev pub AllFrom : ℕ → List MeClientRequest → Type 0
AllFrom c [] = Unit {0}
AllFrom c (r ∷ rs) = (r.client_id ≡ c) × AllFrom c rs

-- The server expects the number that the gateway gives next, on this socket.
pub record Expecting (o : OrderServer) (g : OrderGateway) (c socket : ℕ) : Type 0 where
  pub in_table : c < me_max_num_clients
  pub open_or_new : (o.cid_to_socket c ≡ none) ⊎ (o.cid_to_socket c ≡ some socket)
  pub in_step : o.cid_next_exp_seq_num c ≡ g.next_outgoing_seq_num

abbrev pub stamped : ℕ → MeClientRequest → RecvTimeClientRequest
stamped time r = record { recv_time = time; request = r }

pub record Received (o : OrderServer) (g : OrderGateway) (c socket time : ℕ)
    (rs : List MeClientRequest) : Type 0 where
  pub server : OrderServer
  pub receives : recv_requests o socket time (send_requests g rs).0 ≡ ok server
  pub pending :
      server.fifo_sequencer.pending_client_requests
      ≡ o.fifo_sequencer.pending_client_requests ++ map (stamped time) rs
  pub expecting : Expecting server (send_requests g rs).1 c socket

-- The socket of client `c` is noted.
abbrev pub bound : OrderServer → ℕ → ℕ → OrderServer
bound o c socket = record o { cid_to_socket = update o.cid_to_socket c (some socket) }

bind_socket-new :
    (o : OrderServer) (c socket : ℕ)
    → o.cid_to_socket c ≡ none
    → bind_socket o c socket ≡ bound o c socket
bind_socket-new o c socket e = by_saved (o.cid_to_socket c) e
  where
    by_saved :
        (p : Option ℕ)
        → p ≡ none
        → (elim p [ none ↦ bound o c socket | some _ ↦ o ]) ≡ bound o c socket
    by_saved none e = refl
    by_saved (some s) e = cc

bind_socket-bound :
    (o : OrderServer) (c socket s : ℕ) → o.cid_to_socket c ≡ some s → bind_socket o c socket ≡ o
bind_socket-bound o c socket s e = by_saved (o.cid_to_socket c) e
  where
    by_saved : (p : Option ℕ) → p ≡ some s → (elim p [ none ↦ bound o c socket | some _ ↦ o ]) ≡ o
    by_saved none e = cc
    by_saved (some s) e = refl

==-refl : (n : ℕ) → (n == n) ≡ true
==-refl n = ground arith

-- The server once a request is accepted, from one on which its socket is bound.
abbrev pub accepted : OrderServer → ℕ → MeClientRequest → OrderServer
accepted o time r = record o {
  cid_next_exp_seq_num =
      update o.cid_next_exp_seq_num r.client_id (o.cid_next_exp_seq_num r.client_id + 1);
  fifo_sequencer = record o.fifo_sequencer {
    pending_client_requests = o.fifo_sequencer.pending_client_requests ++ (stamped time r ∷ []);
  };
}

abbrev pub after_request : OrderServer → ℕ → ℕ → MeClientRequest → OrderServer
after_request o socket time r =
    accepted (record o { cid_to_socket = (bind_socket o r.client_id socket).cid_to_socket }) time r

accept_request-ok :
    (o : OrderServer) (time n : ℕ) (r : MeClientRequest)
    → length o.fifo_sequencer.pending_client_requests < max_pending_requests
    → accept_request o time (record { seq_num = n; me_client_request = r }) ≡ ok (accepted o time r)
unfolding accept_request add_client_request
accept_request-ok o time n r room =
    rw
      (
        lt→ltb (length o.fifo_sequencer.pending_client_requests) max_pending_requests room,
        accept_request,
        add_client_request,
      )
      refl

recv_request-ok :
    (o : OrderServer) (g : OrderGateway) (c socket time : ℕ) (r : MeClientRequest)
    → Expecting o g c socket
    → r.client_id ≡ c
    → length o.fifo_sequencer.pending_client_requests < max_pending_requests
    → recv_request o socket time (send_request g r).0 ≡ ok (after_request o socket time r)
unfolding recv_request check_request send_request
recv_request-ok o g c socket time r x mine room =
    let inside : ltb r.client_id me_max_num_clients ≡ true =
      lt→ltb r.client_id me_max_num_clients (omega (arith, mine, x.in_table)) in
    let step : (o.cid_next_exp_seq_num r.client_id == g.next_outgoing_seq_num) ≡ true =
      ground (arith, ap o.cid_next_exp_seq_num mine, x.in_step) in
    elim x.open_or_new [
      | inl e ↦
          let free : o.cid_to_socket r.client_id ≡ none = ap o.cid_to_socket mine ∙ e in
          rw
            (
              inside,
              free,
              step,
              bind_socket-new o r.client_id socket free,
              recv_request,
              check_request,
            )
            (accept_request-ok (bound o r.client_id socket) time g.next_outgoing_seq_num r room)
      | inr e ↦
          let ours : o.cid_to_socket r.client_id ≡ some socket = ap o.cid_to_socket mine ∙ e in
          rw
            (
              inside,
              ours,
              ==-refl socket,
              step,
              bind_socket-bound o r.client_id socket socket ours,
              recv_request,
              check_request,
            )
            (accept_request-ok o time g.next_outgoing_seq_num r room)
    ]

-- The two sides stay in step.
Expecting-after :
    (o : OrderServer) (g : OrderGateway) (c socket time : ℕ) (r : MeClientRequest)
    → Expecting o g c socket
    → r.client_id ≡ c
    → Expecting (after_request o socket time r) (send_request g r).1 c socket
unfolding send_request
Expecting-after o g c socket time r x mine = record {
  in_table = x.in_table;
  open_or_new = inr (elim x.open_or_new [
    | inl e ↦
        rw (bind_socket-new o r.client_id socket (ap o.cid_to_socket mine ∙ e))
          (ground (arith, mine))
    | inr e ↦ rw (bind_socket-bound o r.client_id socket socket (ap o.cid_to_socket mine ∙ e)) e
  ]);
  in_step = ground (arith, x.in_step);
}

receive_one :
    (o : OrderServer) (g : OrderGateway) (c socket time : ℕ) (r : MeClientRequest)
    (rs : List MeClientRequest)
    → Expecting o g c socket
    → r.client_id ≡ c
    → length o.fifo_sequencer.pending_client_requests < max_pending_requests
    → Received (after_request o socket time r) (send_request g r).1 c socket time rs
    → Received o g c socket time (r ∷ rs)
unfolding recv_requests send_requests
receive_one o g c socket time r rs x mine room later = record {
  server = later.server;
  receives =
      rw (recv_request-ok o g c socket time r x mine room, recv_requests, send_requests)
        later.receives;
  pending =
      later.pending
      ∙ append_assoc o.fifo_sequencer.pending_client_requests (stamped time r ∷ [])
          (map (stamped time) rs);
  expecting = later.expecting;
}

-- While the sequencer has room for them, the requests that a gateway sends in a row are accepted in
-- full, wait in the sequencer in the order in which they were sent, and the two sides stay in step.
pub requests-Received :
    (rs : List MeClientRequest) (o : OrderServer) (g : OrderGateway) (c socket time : ℕ)
    → Expecting o g c socket
    → AllFrom c rs
    → length o.fifo_sequencer.pending_client_requests + length rs ≤ max_pending_requests
    → Received o g c socket time rs
unfolding recv_requests send_requests
requests-Received [] o g c socket time x all room = record {
  server = o;
  receives = refl;
  pending = sym (append-nil o.fifo_sequencer.pending_client_requests);
  expecting = x;
}
requests-Received (r ∷ rs) o g c socket time x (mine, all) room =
    receive_one o g c socket time r rs x mine (omega (arith, room)) (
      requests-Received rs (after_request o socket time r) (send_request g r).1 c socket time
        (Expecting-after o g c socket time r x mine) all
        (omega (
          arith,
          room,
          length-append o.fifo_sequencer.pending_client_requests (stamped time r ∷ []),
        )))
