-- ===== src/Exchange/OrderBook/Priority/Step.antt =====
-- One call of `match`, against the oldest order of the best level.
use trading_system.Prelude.{
  ℕ, ◌-◌, ◌≡◌, ◌≢◌, refl, ap, ◌∙◌, inl, inr, false, List, [], ◌∷◌, arith, ◌==◌, if◌then◌else◌,
  Bool-cases, Returns, gives, Returns-bind,
}
use trading_system.Types.{Side}
use trading_system.Exchange.OrderBook.State.{
  MeOrder, MeOrderBook, order_at, set_order, send_client_response, send_market_update,
}
use trading_system.Exchange.OrderBook.Handlers.{Incoming, match}
use trading_system.Exchange.OrderBook.Shape.{Queue, Sides}
use trading_system.Exchange.OrderBook.Shape.Relinking.{bare}
use trading_system.Exchange.OrderBook.Shape.UnlinkLevel.{same_end}
use trading_system.Exchange.OrderBook.Shape.Around.{queue_of, remaining}
use trading_system.Exchange.OrderBook.Shape.Removal.{remove_order-Sides}
use trading_system.Exchange.OrderBook.Shape.Requantify.{Sides-Requantified, set_qty-Requantified}
use trading_system.Exchange.OrderBook.Matching.Trade.{filled_qty, traded, order_at-set_order_self}

-- What a call leaves of the first level, of order `i` and of those behind it: `i` goes when nothing is
-- open of it.
abbrev pub rest_of : MeOrderBook → ℕ → ℕ → ℕ → List ℕ → List Queue → List Queue
rest_of b left l i is rs =
    if (traded b i left).qty == 0 then remaining [] l is rs else queue_of l (i ∷ is) ∷ rs

pub record Stepped (b : MeOrderBook) (s t : Side) (left l i : ℕ) (is : List ℕ)
    (rs others : List Queue) (r : ℕ × MeOrderBook) : Type 0 where
  pub left_over : r.0 ≡ left - filled_qty b i left
  pub sides : Sides r.1 s t (rest_of b left l i is rs) others
  pub hit : bare (order_at r.1 i) ≡ bare (traded b i left)
  pub data_of : (j : ℕ) → j ≢ i → bare (order_at r.1 j) ≡ bare (order_at b j)

order_at-set_order_ne :
    (b : MeOrderBook) (i j : ℕ) (o : MeOrder) → j ≢ i → order_at (set_order b i o) j ≡ order_at b j
unfolding set_order
order_at-set_order_ne b i j o n = ground (arith, n)

pub match-Stepped :
    {s t : Side} (b : MeOrderBook) (a : Incoming) (left l i : ℕ) (is : List ℕ)
    (rs others : List Queue)
    → same_end s t ≡ false
    → Sides b s t (queue_of l (i ∷ is) ∷ rs) others
    → Returns (Stepped b s t left l i is rs others) (match b a i left)
unfolding match send_client_response send_market_update
match-Stepped {s} {t} b a left l i is rs others o h =
    elim (Bool-cases ((traded b i left).qty == 0)) [
      | inl e ↦
          rw (order_at-set_order_self b i (traded b i left), e)
            (Returns-bind
              (remove_order-Sides [] l i [] is rs others o
                (Sides-Requantified (set_qty-Requantified b i (traded b i left).qty _ _) h))
              λ b5 r. gives (record {
                left_over = refl;
                sides = rw e r.sides;
                hit = r.data_of i ∙ ap bare (order_at-set_order_self b i (traded b i left));
                data_of =
                    λ j n. r.data_of j ∙ ap bare (order_at-set_order_ne b i j (traded b i left) n);
              }))
      | inr e ↦
          rw (order_at-set_order_self b i (traded b i left), e)
            (gives (record {
              left_over = refl;
              sides =
                  rw e (Sides-Requantified (set_qty-Requantified b i (traded b i left).qty _ _) h);
              hit = ap bare (order_at-set_order_self b i (traded b i left));
              data_of = λ j n. ap bare (order_at-set_order_ne b i j (traded b i left) n);
            }))
    ]
