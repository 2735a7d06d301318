-- ===== src/Exchange/OrderServer/Serving/Tests.antt =====
-- Two responses for one client.
use trading_system.Prelude.{ℕ, refl, none, some, List, [], ◌∷◌, arith, update, Returns}
use trading_system.Messages.{MeClientResponse, blank_response, blank_request}
use trading_system.SpscQueue.{SpscQueue, new_queue, push}
use trading_system.SpscQueue.Refine.{IsValid, contents-push, new_queue-IsValid}
use trading_system.Network.TcpSocket.{TcpSocket, new_socket}
use trading_system.Exchange.OrderServer.Serving.{Serving, reply_all}
use trading_system.Exchange.OrderServer.Serving.Replies.{Replied, reply_all-Replied}

-- A number in one byte, and a response by its quantity.
abbrev one_byte : ℕ → List ℕ
one_byte n = n ∷ []

abbrev quantity : MeClientResponse → List ℕ
quantity r = r.exec_qty ∷ []

abbrev answer : ℕ → MeClientResponse
answer n = record blank_response { client_id = 2; exec_qty = n }

abbrev answers : List MeClientResponse
answers = answer 6 ∷ answer 9 ∷ []

abbrev one_waiting : SpscQueue MeClientResponse
one_waiting = push (new_queue blank_response 4) (answer 6)

abbrev connection : TcpSocket
connection = record (new_socket 7) { send_buffer = 1 ∷ [] }

abbrev serving : Serving
serving = record {
  server = record {
    cid_to_socket = update (λ _. none) 2 (some 7);
    cid_next_outgoing_seq_num = λ _. 5;
    cid_next_exp_seq_num = λ _. 1;
    fifo_sequencer = record {
      pending_client_requests = [];
      incoming_request = new_queue blank_request 4;
    };
  };
  connections = record {
    listener_fd = 3;
    all_sockets = update (λ _. none) 7 (some connection);
    send_sockets = [];
    recv_sockets = 7 ∷ [];
  };
  outgoing_messages = push one_waiting (answer 9);
}

two_waiting-IsValid : IsValid (push one_waiting (answer 9))
unfolding push new_queue
two_waiting-IsValid =
    (contents-push one_waiting (answer 9)
      (contents-push (new_queue blank_response 4) (answer 6)
        (new_queue-IsValid blank_response 4 (omega arith)).0 (omega arith)).0
      (omega arith)).0

reply_all-Replied_example :
    Returns
      (Replied one_byte quantity serving 2 7 connection answers)
      (reply_all one_byte quantity 2 serving)
unfolding push new_queue
reply_all-Replied_example =
    reply_all-Replied one_byte quantity answers serving 2 7 connection 2 (refl, (refl, tt))
      (record {
        in_table = omega arith;
        bound = refl;
        there = refl;
        queue = two_waiting-IsValid;
        not_full = omega arith;
      })
      refl (omega arith) (omega arith)
