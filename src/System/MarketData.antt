-- ===== src/System/MarketData.antt =====
-- The market data publisher and a market data consumer on the incremental stream.
use trading_system.Prelude.{
  ℕ, zero, suc, ◌<◌, some, Returns, gives, Returns-mono, ◌+◌, ◌≤◌, ◌≡◌, refl, sym, ap, ◌∙◌, false,
  List, [], ◌∷◌, ◌++◌, ok, arith, if◌then◌else◌, length, not, ◌&&◌,
}
use mathlib.Core.List.{append-nil, append_assoc}
use trading_system.Messages.{MeMarketUpdate, MdpMarketUpdate}
use trading_system.SpscQueue.{SpscQueue, push, get_next_read, update_next_read}
use trading_system.SpscQueue.Refine.{IsValid, contents}
use trading_system.SpscQueue.Waiting.{none-waiting, next-waiting}
use trading_system.SpscQueue.Reading.{seen-oldest, update_next_read-store}
use trading_system.Exchange.MatchingEngine.{push_all}
use trading_system.Exchange.MarketDataPublisher.{MarketDataPublisher, publish, publish_waiting}
use trading_system.Exchange.SnapshotSynthetizer.{number_from}
use trading_system.Client.MarketDataConsumer.{
  MarketDataConsumer, recv_message, recv_loop, recv_callbacks,
}

-- The consumer after the updates `us`, all in sequence.
abbrev pub forwarded : MarketDataConsumer → List MeMarketUpdate → MarketDataConsumer
forwarded c us = record c {
  exp_seq_num = c.exp_seq_num + length us;
  incoming_market_update_queue = push_all c.incoming_market_update_queue us;
}

abbrev forwarded_one : MarketDataConsumer → MeMarketUpdate → MarketDataConsumer
forwarded_one c u = record c {
  exp_seq_num = c.exp_seq_num + 1;
  incoming_market_update_queue = push_all c.incoming_market_update_queue (u ∷ []);
}

recv_message_in_step :
    (c : MarketDataConsumer) (u : MeMarketUpdate)
    → c.packet_lost ≡ false
    → recv_message c false (record { seq_num = c.exp_seq_num; me_market_update = u })
      ≡ forwarded_one c u
unfolding recv_message
recv_message_in_step c u fine = ground (arith, fine)

recv_loop_in_step :
    (us : List MeMarketUpdate) (c : MarketDataConsumer)
    → c.packet_lost ≡ false
    → recv_loop c false (number_from c.exp_seq_num us) ≡ forwarded c us
unfolding recv_loop number_from push_all
recv_loop_in_step [] c fine = ap (λ n. record c { exp_seq_num = n }) (omega arith)
recv_loop_in_step (u ∷ us) c fine =
    rw (recv_message_in_step c u fine, recv_loop, number_from)
      (recv_loop_in_step us (forwarded_one c u) fine
        ∙ ap (λ n. record (forwarded c (u ∷ us)) { exp_seq_num = n }) (omega arith))

-- Out of recovery, messages numbered from the expected number on are all forwarded to the trade
-- engine, in order, and nothing else of the consumer changes but the expected number.
pub recv_callbacks_in_step :
    (us : List MeMarketUpdate) (c : MarketDataConsumer)
    → c.packet_lost ≡ false
    → recv_callbacks c false (number_from c.exp_seq_num us) ≡ forwarded c us
unfolding recv_callbacks
recv_callbacks_in_step us c fine =
    ap (λ b. if not b && false then c else recv_loop c false (number_from c.exp_seq_num us)) fine
    ∙ recv_loop_in_step us c fine

-- What the publisher has done once it has published `us`.
pub record Published (p : MarketDataPublisher) (us : List MeMarketUpdate) (q : MarketDataPublisher)
    : Type 0 where
  pub numbered : q.sent ≡ p.sent ++ number_from p.next_seq_num us
  pub next : q.next_seq_num ≡ p.next_seq_num + length us
  pub passed_on : q.snapshot_updates ≡ push_all p.snapshot_updates (number_from p.next_seq_num us)
  pub emptied : contents q.outgoing_market_data ≡ []

-- The publisher after one update, with `rest` as its queue.
abbrev published_one :
    MarketDataPublisher → MeMarketUpdate → SpscQueue MeMarketUpdate → MarketDataPublisher
published_one p u rest = record {
  next_seq_num = p.next_seq_num + 1;
  outgoing_market_data = rest;
  snapshot_updates =
      push p.snapshot_updates (record { seq_num = p.next_seq_num; me_market_update = u });
  sent = p.sent ++ (record { seq_num = p.next_seq_num; me_market_update = u } ∷ []);
}

publish-one :
    (p : MarketDataPublisher) (u : MeMarketUpdate) (rest : SpscQueue MeMarketUpdate)
    → get_next_read p.outgoing_market_data ≡ some u
    → update_next_read p.outgoing_market_data ≡ ok rest
    → publish p ≡ ok (published_one p u rest)
unfolding publish
publish-one p u rest seen released =
    let slot = p.outgoing_market_data.next_read_idx in
    let read = (seen-oldest p.outgoing_market_data u seen).1 in
    let again : rest.store slot ≡ u =
      ap (λ f. f slot) (update_next_read-store p.outgoing_market_data rest released) ∙ read in
    rw (publish, released, again, read) refl

Published-later :
    (p q : MarketDataPublisher) (u : MeMarketUpdate) (us : List MeMarketUpdate)
    (rest : SpscQueue MeMarketUpdate)
    → Published (published_one p u rest) us q
    → Published p (u ∷ us) q
unfolding number_from push_all
Published-later p q u us rest w = record {
  numbered =
      w.numbered
      ∙ append_assoc p.sent (record { seq_num = p.next_seq_num; me_market_update = u } ∷ [])
          (number_from (p.next_seq_num + 1) us);
  next = omega (arith, w.next);
  passed_on = w.passed_on;
  emptied = w.emptied;
}

nothing : (p : MarketDataPublisher) → contents p.outgoing_market_data ≡ [] → Published p [] p
unfolding number_from push_all
nothing p e = record {
  numbered = sym (append-nil p.sent);
  next = omega arith;
  passed_on = refl;
  emptied = e;
}

-- On a valid queue that is not full, the loop of the publisher returns: it publishes exactly the
-- updates that wait, in order, numbered consecutively on the incremental stream, pushes the same
-- messages to the queue of the snapshot synthetizer, and leaves its own queue empty.
pub publish_waiting-Published :
    (us : List MeMarketUpdate) (p : MarketDataPublisher) (fuel : ℕ)
    → IsValid p.outgoing_market_data
    → p.outgoing_market_data.num_elements < p.outgoing_market_data.capacity
    → contents p.outgoing_market_data ≡ us
    → length us ≤ fuel
    → Returns (Published p us) (publish_waiting fuel p)
unfolding publish_waiting number_from push_all
publish_waiting-Published [] p zero valid space e enough =
    rw (publish_waiting, none-waiting p.outgoing_market_data valid e) (gives (nothing p e))
publish_waiting-Published [] p (suc fuel) valid space e enough =
    rw (publish_waiting, none-waiting p.outgoing_market_data valid e) (gives (nothing p e))
publish_waiting-Published (u ∷ us) p zero valid space e enough = absurd (omega arith)
publish_waiting-Published (u ∷ us) p (suc fuel) valid space e enough =
    let (rest, seen, released, valid', tail, room) =
      next-waiting p.outgoing_market_data u us valid space e in
    rw (publish_waiting, seen, publish-one p u rest seen released)
      (Returns-mono
        (publish_waiting-Published us (published_one p u rest) fuel valid' room tail
          (omega (arith, enough)))
        (λ q w. Published-later p q u us rest w))

-- What reaches a consumer that was in step of what the publisher has just sent.
pub record Reached (p : MarketDataPublisher) (c : MarketDataConsumer) (us : List MeMarketUpdate)
    (q : MarketDataPublisher) : Type 0 where
  pub news : List MdpMarketUpdate
  pub sent : q.sent ≡ p.sent ++ news
  pub received : recv_callbacks c false news ≡ forwarded c us
  pub in_step : q.next_seq_num ≡ (recv_callbacks c false news).exp_seq_num
  pub emptied : contents q.outgoing_market_data ≡ []

-- When the publisher's queue is valid and not full, and a consumer out of recovery expects the
-- publisher's next number, the loop of the publisher returns, and the messages that it has sent, if
-- they come in one buffer and in order, make the consumer forward exactly the updates that waited,
-- in order; the two are in step again.
pub publish_waiting-Reached :
    (us : List MeMarketUpdate) (p : MarketDataPublisher) (c : MarketDataConsumer) (fuel : ℕ)
    → IsValid p.outgoing_market_data
    → p.outgoing_market_data.num_elements < p.outgoing_market_data.capacity
    → contents p.outgoing_market_data ≡ us
    → length us ≤ fuel
    → c.packet_lost ≡ false
    → c.exp_seq_num ≡ p.next_seq_num
    → Returns (Reached p c us) (publish_waiting fuel p)
publish_waiting-Reached us p c fuel valid space e enough fine step =
    Returns-mono (publish_waiting-Published us p fuel valid space e enough) λ q w.
      let got : recv_callbacks c false (number_from p.next_seq_num us) ≡ forwarded c us =
        ap (λ n. recv_callbacks c false (number_from n us)) (sym step)
        ∙ recv_callbacks_in_step us c fine in
      record {
        news = number_from p.next_seq_num us;
        sent = w.numbered;
        received = got;
        in_step = w.next ∙ ap (λ n. n + length us) (sym step) ∙ sym (ap (λ d. d.exp_seq_num) got);
        emptied = w.emptied;
      }
