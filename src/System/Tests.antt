-- ===== src/System/Tests.antt =====
-- The components joined, at work.
use trading_system.Prelude.{
  ℕ, Returns, ◌≡◌, refl, inr, true, false, none, some, List, [], ◌∷◌, ◌++◌, replicate, arith,
  update,
}
use trading_system.Messages.{
  MarketUpdateType, MeMarketUpdate, blank_update, blank_mdp_update, MeClientResponse,
  blank_response, MeClientRequest, blank_request, OgClientRequest, OgClientResponse,
}
use trading_system.SpscQueue.{SpscQueue, new_queue, push}
use trading_system.SpscQueue.Refine.{IsValid, contents-push, new_queue-IsValid}
use trading_system.Exchange.OrderServer.{OrderServer}
use trading_system.Exchange.OrderServer as Server
use trading_system.Exchange.MarketDataPublisher.{MarketDataPublisher, publish_waiting}
use trading_system.Exchange.SnapshotSynthetizer.{SnapshotSynthetizer}
use trading_system.Client.OrderGateway.{OrderGateway}
use trading_system.Client.MarketDataConsumer.{MarketDataConsumer}
use trading_system.Client.MarketDataConsumer.Joining.{entries}
use trading_system.System.Delivery.Bytes.{Read, responses-Read}
use trading_system.System.Requests.{Received, requests-Received}
use trading_system.System.MarketData.{
  Published, publish_waiting-Published, Reached, publish_waiting-Reached,
}
use trading_system.Network.TcpSocket.{TcpSocket, Kernel}
use trading_system.System.Stream.{recv_turns, recv_turns-whole}

abbrev server : OrderServer
server = record {
  cid_to_socket = λ _. some 7;
  cid_next_outgoing_seq_num = λ _. 4;
  cid_next_exp_seq_num = λ _. 9;
  fifo_sequencer = record {
    pending_client_requests = [];
    incoming_request = new_queue blank_request 8;
  };
}

abbrev gateway : OrderGateway
gateway = record {
  client_id = 2;
  next_outgoing_seq_num = 9;
  next_incoming_seq_num = 4;
  incoming_responses = new_queue blank_response 8;
}

abbrev answer : ℕ → MeClientResponse
answer n = record blank_response { client_id = 2; exec_qty = n }

abbrev request : ℕ → MeClientRequest
request n = record blank_request { client_id = 2; qty = n }

-- A response by its number and its quantity, in as many bytes as the struct has.
abbrev bytes : OgClientResponse → List ℕ
bytes m = m.seq_num ∷ m.me_client_response.exec_qty ∷ replicate 48 0

abbrev of_bytes : List ℕ → OgClientResponse
of_bytes (n ∷ qty ∷ rest) = record { seq_num = n; me_client_response = answer qty }
of_bytes _ = record { seq_num = 0; me_client_response = blank_response }

responses-Read_example : Read bytes of_bytes server gateway (answer 1 ∷ answer 2 ∷ [])
responses-Read_example =
    responses-Read bytes of_bytes (answer 1 ∷ answer 2 ∷ []) server gateway
      (record { in_table = omega arith; socket = 7; bound = refl; in_step = refl })
      (refl, (refl, tt))
      (record { size = refl; round = refl }, (record { size = refl; round = refl }, tt))

requests-Received_example : Received server gateway 2 7 100 (request 1 ∷ request 2 ∷ [])
requests-Received_example =
    requests-Received (request 1 ∷ request 2 ∷ []) server gateway 2 7 100
      (record { in_table = omega arith; open_or_new = inr refl; in_step = refl }) (refl, (refl, tt))
      (omega arith)

abbrev one : MeMarketUpdate
one = record blank_update { type = MarketUpdateType.add; order_id = 1; qty = 10 }

abbrev two : MeMarketUpdate
two = record blank_update { type = MarketUpdateType.add; order_id = 2; qty = 20 }

abbrev one_waiting : SpscQueue MeMarketUpdate
one_waiting = push (new_queue blank_update 8) one

abbrev publisher : MarketDataPublisher
publisher = record {
  next_seq_num = 5;
  outgoing_market_data = push one_waiting two;
  snapshot_updates = new_queue blank_mdp_update 8;
  sent = [];
}

two_waiting-IsValid : IsValid (push one_waiting two)
unfolding push new_queue
two_waiting-IsValid =
    (contents-push one_waiting two
      (contents-push (new_queue blank_update 8) one
        (new_queue-IsValid blank_update 8 (omega arith)).0 (omega arith)).0
      (omega arith)).0

publish_waiting-Published_example :
    Returns (Published publisher (one ∷ two ∷ [])) (publish_waiting 2 publisher)
unfolding push new_queue
publish_waiting-Published_example =
    publish_waiting-Published (one ∷ two ∷ []) publisher 2 two_waiting-IsValid (omega arith) refl
      (omega arith)

abbrev consumer : MarketDataConsumer
consumer = record {
  exp_seq_num = 5;
  packet_lost = false;
  snapshot_joined = false;
  snapshot_queue = [];
  incremental_queue = [];
  incoming_market_update_queue = new_queue blank_update 8;
}

publish_waiting-Reached_example :
    Returns (Reached publisher consumer (one ∷ two ∷ [])) (publish_waiting 2 publisher)
unfolding push new_queue
publish_waiting-Reached_example =
    publish_waiting-Reached (one ∷ two ∷ []) publisher consumer 2 two_waiting-IsValid (omega arith)
      refl (omega arith) refl refl

-- One live order, in the second slot of the first instrument.
abbrev synthetizer : SnapshotSynthetizer
synthetizer = record {
  ticker_order_to_update = update (λ _ _. none) 0 (update (λ _. none) 1 (some 0));
  last_seq_num = 6;
  update_pool = record {
    cells = λ _. record { object = one; is_free = false };
    size = 4;
    next_free_index = 1;
  };
}

-- Messages 7 and 8 are kept.
abbrev behind : MarketDataConsumer
behind = record consumer { packet_lost = true; incremental_queue = entries 7 (one ∷ one ∷ []) }

-- Two requests of 38 bytes that arrive as 30 and 40 bytes behind three that were left, and five more.
abbrev first_byte : List ℕ → OgClientRequest
first_byte [] = record { seq_num = 0; me_client_request = blank_request }
first_byte (x ∷ xs) = record { seq_num = x; me_client_request = request x }

abbrev connection : TcpSocket
connection = record { fd = 7; send_buffer = []; recv_buffer = 9 ∷ 0 ∷ 0 ∷ [] }

abbrev pieces : List Kernel
pieces =
    record { arrived = replicate 30 4; time = 100; accepts = 0 }
    ∷ record { arrived = replicate 48 6; time = 100; accepts = 0 }
    ∷ []

recv_turns-whole_example :
    recv_turns first_byte server connection pieces
    ≡ Server.recv_callbacks first_byte server 7 100
        (9 ∷ 0 ∷ 0 ∷ (replicate 30 4 ++ (replicate 48 6 ++ [])))
recv_turns-whole_example =
    recv_turns-whole first_byte server connection 100 pieces (refl, (refl, tt)) (omega arith)
      (omega arith)
