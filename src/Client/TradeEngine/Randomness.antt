-- ===== src/Client/TradeEngine/Randomness.antt =====
-- What a client with the algorithm RANDOM sends in a round of its loop.
use trading_system.Prelude.{
  ℕ, ◌≡◌, refl, ◌∙◌, ◌⊎◌, inl, inr, some, [], ok, Allows, Allows-ok, Allows-bind, Allows-mono,
  Returns, gives, Returns-bind, Returns-Allows,
}
use trading_system.Types.{random}
use trading_system.Messages.{MeClientRequest}
use trading_system.SpscQueue.{push}
use trading_system.Client.Double.{Double}
use trading_system.Client.RandomTrader.{RandomTrader, Tick}
use trading_system.Client.RandomTrader.Bounds.{IsValid, InBounds, Acted, on_timer-Acted}
use trading_system.Client.TradeEngine.{
  TradeEngine, send_client_requests, on_random_timer, random_turn, run_round,
}
use trading_system.Client.TradeEngine.Silence.{Silent, after_turn-Silent}

module _ (d : Double) where
  -- A request of client `c` within the bounds went out, or none.
  pub record AtMostOne (c : ℕ) (e f : TradeEngine d) : Type 0 where
    pub algo : f.algo_type ≡ e.algo_type
    pub sends :
        (f.outgoing_requests ≡ e.outgoing_requests)
        ⊎ ((q : MeClientRequest) × (f.outgoing_requests ≡ push e.outgoing_requests q)
            × InBounds c q)

  sent-AtMostOne :
      (e : TradeEngine d) (r s : RandomTrader)
      → r.sent ≡ []
      → Acted r s
      → AtMostOne r.client_id e
          (send_client_requests d (record e { random_algo = some (record s { sent = [] }) }) s.sent)
  unfolding send_client_requests
  sent-AtMostOne e r s none_yet a = elim a.outcome [
    | inl h ↦ simp (h, none_yet, send_client_requests) (record { algo = refl; sends = inl refl })
    | inr (q, h, b, _, _) ↦
        simp (h, none_yet, send_client_requests) (record { algo = refl; sends = inr (q, refl, b) })
  ]

  on_random_timer-AtMostOne :
      (e : TradeEngine d) (r : RandomTrader) (k : Tick)
      → e.random_algo ≡ some r
      → IsValid r
      → r.sent ≡ []
      → Returns (AtMostOne r.client_id e) (on_random_timer d e k)
  unfolding on_random_timer
  on_random_timer-AtMostOne e r k has v none_yet =
      simp (on_random_timer, has)
        (Returns-bind (on_timer-Acted r k v) (λ s a. gives (sent-AtMostOne e r s none_yet a)))

  followed : {c : ℕ} {e f g : TradeEngine d} → AtMostOne c e f → Silent d f g → AtMostOne c e g
  followed a s = record {
    algo = s.same_algo ∙ a.algo;
    sends = elim a.sends [
      | inl h ↦ inl (s.same_requests ∙ h)
      | inr (q, h, b) ↦ inr (q, s.same_requests ∙ h, b)
    ];
  }

  -- In a round of a client with the algorithm RANDOM whose trader is valid and has nothing left to
  -- send, at most one request goes out, whatever responses and updates arrive: it is for a known
  -- instrument, with price and quantity within the bounds.
  pub run_round-AtMostOne :
      (e f : TradeEngine d) (r : RandomTrader) (k : Tick) (after_responses after_updates : ℕ)
      → e.algo_type ≡ random
      → e.random_algo ≡ some r
      → IsValid r
      → r.sent ≡ []
      → run_round d e k after_responses after_updates ≡ ok f
      → AtMostOne r.client_id e f
  unfolding run_round random_turn
  run_round-AtMostOne e f r k after_responses after_updates is_random has v none_yet h =
      let turn : Allows (AtMostOne r.client_id e) (random_turn d e.algo_type e k) =
        simp (is_random, random_turn)
          (Returns-Allows (on_random_timer-AtMostOne e r k has v none_yet)) in
      Allows-ok
        (Allows-bind turn (λ e1 a.
          Allows-mono
            (after_turn-Silent d e1 after_responses after_updates
              (λ n. rw (a.algo, is_random) refl))
            (λ g s. followed a s)))
        h
