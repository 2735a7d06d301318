-- ===== src/Client/OrderGateway/Turns/Tests.antt =====
-- Two requests behind a byte that waits.
use trading_system.Prelude.{ℕ, refl, List, [], ◌∷◌, arith, Returns}
use trading_system.Messages.{MeClientRequest, blank_request, blank_response}
use trading_system.SpscQueue.{SpscQueue, new_queue, push}
use trading_system.SpscQueue.Refine.{IsValid, contents-push, new_queue-IsValid}
use trading_system.Network.TcpSocket.{new_socket}
use trading_system.Client.OrderGateway.Turns.{Turning, send_waiting}
use trading_system.Client.OrderGateway.Turns.Requests.{Sent, send_waiting-Sent}

-- A number in one byte, and a request by its quantity.
abbrev one_byte : ℕ → List ℕ
one_byte n = n ∷ []

abbrev quantity : MeClientRequest → List ℕ
quantity r = r.qty ∷ []

abbrev ask : ℕ → MeClientRequest
ask n = record blank_request { client_id = 2; qty = n }

abbrev one_waiting : SpscQueue MeClientRequest
one_waiting = push (new_queue blank_request 4) (ask 6)

abbrev turning : Turning
turning = record {
  gateway = record {
    client_id = 2;
    next_outgoing_seq_num = 5;
    next_incoming_seq_num = 1;
    incoming_responses = new_queue blank_response 4;
  };
  outgoing_requests = push one_waiting (ask 9);
  tcp_socket = record (new_socket 7) { send_buffer = 1 ∷ [] };
}

two_waiting-IsValid : IsValid (push one_waiting (ask 9))
unfolding push new_queue
two_waiting-IsValid =
    (contents-push one_waiting (ask 9)
      (contents-push (new_queue blank_request 4) (ask 6)
        (new_queue-IsValid blank_request 4 (omega arith)).0 (omega arith)).0
      (omega arith)).0

send_waiting-Sent_example :
    Returns
      (Sent one_byte quantity turning (ask 6 ∷ ask 9 ∷ []))
      (send_waiting one_byte quantity 2 turning)
unfolding push new_queue
send_waiting-Sent_example =
    send_waiting-Sent one_byte quantity (ask 6 ∷ ask 9 ∷ []) turning 2 two_waiting-IsValid
      (omega arith) refl (omega arith) (omega arith)
