-- ===== src/Client/TradeEngine/Silence.antt =====
-- Which events make which algorithm send a request.
use trading_system.Prelude.{
  ℕ, zero, suc, ◌≡◌, refl, ◌∙◌, Bool, true, false, update, Option-cases, inl, inr, Result, ok,
  ◌>>=◌, leb, ltb, assert_failed, out_of_range, Allows, allowed, failed, Allows-bind, Allows-mono,
  Allows-require, Allows-any,
}
use trading_system.Types.{me_max_tickers, AlgoType, maker, taker}
use trading_system.Messages.{ClientResponseType, MarketUpdateType, MeClientResponse, MeMarketUpdate}
use trading_system.SpscQueue.{get_next_read, update_next_read}
use trading_system.Client.OrderManager.{on_order_update}
use trading_system.Client.FeatureEngine
use trading_system.Client.PositionKeeper.{PositionKeeper, keeper_add_fill, keeper_update_bbo}
use trading_system.Client.Double.{Double}
use trading_system.Client.MarketBook.State.{MarketOrderBook, Bbo}
use trading_system.Client.MarketBook.Handlers.{
  Notice, trade_notice, book_notice, on_market_update, handle_update, apply_update, update_bbo,
  bid_updated, ask_updated,
}
use trading_system.Client.TradeEngine.{
  TradeEngine, algo_on_order_book_update, algo_on_trade_update, algo_on_order_update, add_fill_of,
  notify, on_response, on_update, run_responses, run_updates,
}

-- The market maker answers changes of a book, the liquidity taker answers trades.
abbrev pub answers : AlgoType → Notice → Bool
answers maker book_notice = true
answers taker trade_notice = true
answers _ _ = false

abbrev pub notice_of : MarketUpdateType → Notice
notice_of MarketUpdateType.trade = trade_notice
notice_of _ = book_notice

handle_update-notice :
    (t : MarketUpdateType) (b : MarketOrderBook) (u : MeMarketUpdate)
    → Allows (λ p. p.1 ≡ notice_of t) (handle_update t b u)
unfolding handle_update
handle_update-notice MarketUpdateType.trade b u = allowed refl
handle_update-notice _ b u = Allows-bind (Allows-any (apply_update b u)) (λ b1 _.
    Allows-bind {f = λ b2. ok (b2, book_notice)}
      (Allows-any (update_bbo b1 (bid_updated b u) (ask_updated b u))) (λ b2 _. allowed refl))

module _ (d : Double) where
  -- The same algorithm, and the same requests on their way out.
  pub record Silent (e f : TradeEngine d) : Type 0 where
    pub same_algo : f.algo_type ≡ e.algo_type
    pub same_requests : f.outgoing_requests ≡ e.outgoing_requests

  Silent-trans : {e f g : TradeEngine d} → Silent e f → Silent f g → Silent e g
  Silent-trans s t = record {
    same_algo = t.same_algo ∙ s.same_algo;
    same_requests = t.same_requests ∙ s.same_requests;
  }

  Silent-refl : {e : TradeEngine d} → Silent e e
  Silent-refl = record { same_algo = refl; same_requests = refl }

  unchanged :
      {e f : TradeEngine d}
      → f.algo_type ≡ e.algo_type
      → f.outgoing_requests ≡ e.outgoing_requests
      → Silent e f
  unchanged h k = record { same_algo = h; same_requests = k }

  algo_on_order_update-Silent :
      (a : AlgoType) (e : TradeEngine d) (r : MeClientResponse)
      → Allows (Silent e) (algo_on_order_update d a e r)
  unfolding algo_on_order_update
  algo_on_order_update-Silent maker e r =
      Allows-bind {f = λ m. ok (record e { order_manager = m })}
        (Allows-any (on_order_update e.order_manager r)) (λ m _. allowed (unchanged refl refl))
  algo_on_order_update-Silent taker e r =
      Allows-bind {f = λ m. ok (record e { order_manager = m })}
        (Allows-any (on_order_update e.order_manager r)) (λ m _. allowed (unchanged refl refl))
  algo_on_order_update-Silent _ e r = allowed Silent-refl

  add_fill_of-Silent :
      (t : ClientResponseType) (e : TradeEngine d) (r : MeClientResponse)
      → Allows (Silent e) (add_fill_of d t e r)
  unfolding add_fill_of
  add_fill_of-Silent ClientResponseType.filled e r =
      Allows-bind {f = λ k. ok (record e { position_keeper = k })}
        (Allows-any (keeper_add_fill d e.position_keeper r)) (λ k _. allowed (unchanged refl refl))
  add_fill_of-Silent _ e r = allowed Silent-refl

  -- A response makes no algorithm send a request.
  pub on_response-Silent :
      (e : TradeEngine d) (r : MeClientResponse) → Allows (Silent e) (on_response d e r)
  unfolding on_response
  on_response-Silent e r =
      Allows-bind (add_fill_of-Silent r.type e r)
        (λ e1 s. Allows-mono (algo_on_order_update-Silent e1.algo_type e1 r) (λ e2. Silent-trans s))

  algo_on_order_book_update-Silent :
      (a : AlgoType) (e : TradeEngine d) (t : ℕ) (bbo : Bbo)
      → answers a book_notice ≡ false
      → Allows (Silent e) (algo_on_order_book_update d a e t bbo)
  unfolding algo_on_order_book_update
  algo_on_order_book_update-Silent maker e t bbo h = cc
  algo_on_order_book_update-Silent _ e t bbo h = allowed Silent-refl

  algo_on_trade_update-Silent :
      (a : AlgoType) (e : TradeEngine d) (u : MeMarketUpdate) (bbo : Bbo)
      → answers a trade_notice ≡ false
      → Allows (Silent e) (algo_on_trade_update d a e u bbo)
  unfolding algo_on_trade_update
  algo_on_trade_update-Silent taker e u bbo h = cc
  algo_on_trade_update-Silent _ e u bbo h = allowed Silent-refl

  -- The positions and the features follow a change of a book.
  abbrev seen : TradeEngine d → Bbo → PositionKeeper d → TradeEngine d
  seen e bbo k = record e {
    position_keeper = k;
    feature_engine = FeatureEngine.on_order_book_update d e.feature_engine bbo;
  }

  notify-Silent :
      (n : Notice) (e : TradeEngine d) (u : MeMarketUpdate) (bbo : Bbo)
      → answers e.algo_type n ≡ false
      → Allows (Silent e) (notify d n e u bbo)
  unfolding notify
  notify-Silent trade_notice e u bbo h =
      let e1 = record e {
        feature_engine = FeatureEngine.on_trade_update d e.feature_engine u bbo;
      } in
      Allows-mono (algo_on_trade_update-Silent e.algo_type e1 u bbo h)
        (λ f s. unchanged s.same_algo s.same_requests)
  notify-Silent book_notice e u bbo h =
      Allows-bind {f = λ k. algo_on_order_book_update d e.algo_type (seen e bbo k) u.ticker_id bbo}
        (Allows-any (keeper_update_bbo d e.position_keeper u.ticker_id bbo))
        (λ k _.
          Allows-mono
            (algo_on_order_book_update-Silent e.algo_type (seen e bbo k) u.ticker_id bbo h)
            (λ f s. unchanged s.same_algo s.same_requests))

  abbrev stored : TradeEngine d → ℕ → MarketOrderBook → TradeEngine d
  stored e t b = record e { ticker_order_book = update e.ticker_order_book t b }

  -- An update of the market makes no algorithm send a request but the one that answers it.
  pub on_update-Silent :
      (e : TradeEngine d) (u : MeMarketUpdate)
      → answers e.algo_type (notice_of u.type) ≡ false
      → Allows (Silent e) (on_update d e u)
  unfolding on_update on_market_update
  on_update-Silent e u h = Allows-require (leb u.ticker_id me_max_tickers) assert_failed (
      Allows-require (ltb u.ticker_id me_max_tickers) out_of_range (
        Allows-bind {f = λ p. notify d p.1 (stored e u.ticker_id p.0) u p.0.bbo}
          (handle_update-notice u.type (e.ticker_order_book u.ticker_id) u)
          (λ p same.
            Allows-mono (notify-Silent p.1 (stored e u.ticker_id p.0) u p.0.bbo (rw same h))
              (λ f s. unchanged s.same_algo s.same_requests))))

  -- The rest of a loop, once a message is dealt with.
  abbrev more_responses : ℕ → ℕ → TradeEngine d → Result (TradeEngine d)
  more_responses fuel now e = update_next_read e.incoming_responses >>= λ q.
      run_responses d fuel now (record e { incoming_responses = q; last_event_time = now })

  abbrev more_updates : ℕ → ℕ → TradeEngine d → Result (TradeEngine d)
  more_updates fuel now e = update_next_read e.incoming_market_updates >>= λ q.
      run_updates d fuel now (record e { incoming_market_updates = q; last_event_time = now })

  more_responses-Silent :
      (fuel now : ℕ) (e : TradeEngine d)
      → ((f : TradeEngine d) → Allows (Silent f) (run_responses d fuel now f))
      → Allows (Silent e) (more_responses fuel now e)
  more_responses-Silent fuel now e ih =
      Allows-bind
        {f = λ q.
          run_responses d fuel now (record e { incoming_responses = q; last_event_time = now })}
        (Allows-any (update_next_read e.incoming_responses))
        (λ q _.
          Allows-mono (ih (record e { incoming_responses = q; last_event_time = now }))
            (λ f s. unchanged s.same_algo s.same_requests))

  more_updates-Silent :
      (fuel now : ℕ) (e : TradeEngine d)
      → ((f : TradeEngine d)
          → f.algo_type ≡ e.algo_type
          → Allows (Silent f) (run_updates d fuel now f))
      → Allows (Silent e) (more_updates fuel now e)
  more_updates-Silent fuel now e ih =
      Allows-bind
        {f = λ q.
          run_updates d fuel now (record e { incoming_market_updates = q; last_event_time = now })}
        (Allows-any (update_next_read e.incoming_market_updates))
        (λ q _.
          Allows-mono (ih (record e { incoming_market_updates = q; last_event_time = now }) refl)
            (λ f s. unchanged s.same_algo s.same_requests))

  run_responses-Silent :
      (fuel now : ℕ) (e : TradeEngine d) → Allows (Silent e) (run_responses d fuel now e)
  unfolding run_responses
  run_responses-Silent zero now e = elim (Option-cases (get_next_read e.incoming_responses)) [
    | inl h ↦ rw (h, run_responses) (allowed Silent-refl)
    | inr (r, h) ↦ rw (h, run_responses) failed
  ]
  run_responses-Silent (suc fuel) now e = elim (Option-cases (get_next_read e.incoming_responses)) [
    | inl h ↦ rw (h, run_responses) (allowed Silent-refl)
    | inr (r, h) ↦
        rw (h, run_responses)
          (Allows-bind {f = more_responses fuel now} (on_response-Silent e r) (λ e1 s.
            Allows-mono (more_responses-Silent fuel now e1 (run_responses-Silent fuel now))
              (λ f. Silent-trans s)))
  ]

  run_updates-Silent :
      (fuel now : ℕ) (e : TradeEngine d)
      → ((n : Notice) → answers e.algo_type n ≡ false)
      → Allows (Silent e) (run_updates d fuel now e)
  unfolding run_updates
  run_updates-Silent zero now e quiet =
      elim (Option-cases (get_next_read e.incoming_market_updates)) [
        | inl h ↦ rw (h, run_updates) (allowed Silent-refl)
        | inr (u, h) ↦ rw (h, run_updates) failed
      ]
  run_updates-Silent (suc fuel) now e quiet =
      elim (Option-cases (get_next_read e.incoming_market_updates)) [
        | inl h ↦ rw (h, run_updates) (allowed Silent-refl)
        | inr (u, h) ↦
            rw (h, run_updates)
              (Allows-bind {f = more_updates fuel now} (on_update-Silent e u (quiet _)) (λ e1 s.
                Allows-mono
                  (more_updates-Silent fuel now e1
                    (λ f g. run_updates-Silent fuel now f (λ n. rw (g, s.same_algo) (quiet n))))
                  (λ f. Silent-trans s)))
      ]

  -- After the random trader's turn no request is sent in a round of an algorithm that is neither market
  -- maker nor liquidity taker.
  pub after_turn-Silent :
      (e : TradeEngine d) (after_responses after_updates : ℕ)
      → ((n : Notice) → answers e.algo_type n ≡ false)
      → Allows (Silent e) (
          run_responses d e.incoming_responses.num_elements after_responses e >>= λ e1.
          run_updates d e1.incoming_market_updates.num_elements after_updates e1)
  after_turn-Silent e after_responses after_updates quiet =
      Allows-bind {f = λ e1. run_updates d e1.incoming_market_updates.num_elements after_updates e1}
        (run_responses-Silent e.incoming_responses.num_elements after_responses e)
        (λ e1 s.
          Allows-mono
            (run_updates-Silent e1.incoming_market_updates.num_elements after_updates e1
              (λ n. rw s.same_algo (quiet n)))
            (λ f. Silent-trans s))
