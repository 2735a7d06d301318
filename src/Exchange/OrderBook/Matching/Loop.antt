-- ===== src/Exchange/OrderBook/Matching/Loop.antt =====
-- The whole loop of `checkForMatch`: the fills of one incoming order.
use mathlib.Core.List.{append-nil, append_assoc}
use trading_system.Prelude.{
  ℕ, zero, suc, ◌+◌, ◌-◌, ◌<◌, ◌≡◌, refl, sym, ap, ◌∙◌, inl, inr, true, List, [], ◌∷◌, ◌++◌, arith,
  Ensures, returns, Ensures-bind, Ensures-deref, Bool-cases, Option-cases, ◌==◌, Ensures-mono,
}
use trading_system.MemPool.Laws.{live}
use trading_system.Messages.{MeClientResponse, ClientResponseType}
use trading_system.Exchange.OrderBook.State.{MeOrderBook, order_at, level_at}
use trading_system.Exchange.OrderBook.Handlers.{
  Incoming, match_loop, aggressor_fill, passive_fill, reaches, opposite,
}
use trading_system.Exchange.OrderBook.Matching.Trade.{Traded, match-Traded, filled_qty, traded}

-- One fill as two responses: the same quantity at the same price to both sides, within the limit of
-- the incoming order `a`, of which `left` was open before.
pub record IsFill (a : Incoming) (left : ℕ) (x y : MeClientResponse) : Type 0 where
  pub to_aggressor : x.type ≡ ClientResponseType.filled
  pub to_passive : y.type ≡ ClientResponseType.filled
  pub client : x.client_id ≡ a.client_id
  pub order : x.market_order_id ≡ a.market_order_id
  pub same_price : x.price ≡ y.price
  pub same_qty : x.exec_qty ≡ y.exec_qty
  pub within_limit : reaches a.side a.price x.price ≡ true
  pub counted : x.left_qty + x.exec_qty ≡ left

-- The responses `rs` are fills in pairs that take the open quantity from `left` to `left'`.
abbrev pub AreFills : Incoming → ℕ → List MeClientResponse → ℕ → Type 0
AreFills a left [] left' = left ≡ left'
AreFills a left (x ∷ []) left' = ⊥
AreFills a left (x ∷ y ∷ rs) left' = IsFill a left x y × AreFills a x.left_qty rs left'

-- What the aggressor's fills add up to.
abbrev pub executed : List MeClientResponse → ℕ
executed [] = 0
executed (x ∷ []) = 0
executed (x ∷ y ∷ rs) = x.exec_qty + executed rs

pub executed-AreFills :
    (a : Incoming) (left : ℕ) (rs : List MeClientResponse) (left' : ℕ)
    → AreFills a left rs left'
    → executed rs + left' ≡ left
executed-AreFills a left [] left' h = omega arith
executed-AreFills a left (x ∷ []) left' h = absurd h
executed-AreFills a left (x ∷ y ∷ rs) left' (f, h) =
    omega (arith, f.counted, executed-AreFills a x.left_qty rs left' h)

pub record Matched (b : MeOrderBook) (a : Incoming) (left : ℕ) (r : ℕ × MeOrderBook) : Type 0 where
  pub fills : List MeClientResponse
  pub responses : r.1.responses ≡ b.responses ++ fills
  pub are_fills : AreFills a left fills r.0
  pub ticker : r.1.ticker ≡ b.ticker
  pub next_order_id : r.1.next_order_id ≡ b.next_order_id
  pub size : r.1.orders_pool.size ≡ b.orders_pool.size

stop-Matched : (b : MeOrderBook) (a : Incoming) (left : ℕ) → Matched b a left (left, b)
stop-Matched b a left = record {
  fills = [];
  responses = sym (append-nil b.responses);
  are_fills = refl;
  ticker = refl;
  next_order_id = refl;
  size = refl;
}

round-Matched :
    (b : MeOrderBook) (a : Incoming) (i left : ℕ) (r s : ℕ × MeOrderBook)
    → reaches a.side a.price (order_at b i).price ≡ true
    → Traded b a i left r
    → Matched r.1 a r.0 s
    → Matched b a left s
round-Matched b a i left r s reach t m = record {
  fills = x ∷ y ∷ m.fills;
  responses =
      m.responses
      ∙ ap (λ l. l ++ m.fills) t.responses
      ∙ append_assoc b.responses (x ∷ y ∷ []) m.fills;
  are_fills = (
    record {
      to_aggressor = refl;
      to_passive = refl;
      client = refl;
      order = refl;
      same_price = refl;
      same_qty = refl;
      within_limit = reach;
      counted = omega arith;
    },
    rw (← t.left_over) m.are_fills,
  );
  ticker = m.ticker ∙ t.ticker;
  next_order_id = m.next_order_id ∙ t.next_order_id;
  size = m.size ∙ t.size;
}
  where
    x : MeClientResponse
    x =
        aggressor_fill b.ticker a (traded b i left) (filled_qty b i left)
          (left - filled_qty b i left)

    y : MeClientResponse
    y = passive_fill b.ticker (traded b i left) (filled_qty b i left)

-- A round that leaves nothing open is followed by the last test, any other by one order fewer.
module _ (a : Incoming) where
  match_loop_done :
      (fuel : ℕ) (b : MeOrderBook) (left : ℕ)
      → left ≡ 0
      → 0 < fuel
      → Ensures (Matched b a left) (match_loop fuel b a left)
  unfolding match_loop
  match_loop_done zero b left e h = absurd (omega arith)
  match_loop_done (suc fuel) b left e h =
      let test : (left == 0) ≡ true = ground arith in
      rw (test, match_loop) (returns (stop-Matched b a left))

  pub match_loop-Matched :
      (fuel : ℕ) (b : MeOrderBook) (left : ℕ)
      → live b.orders_pool + 1 < fuel
      → Ensures (Matched b a left) (match_loop fuel b a left)
  unfolding match_loop
  match_loop-Matched zero b left h = absurd (omega arith)
  match_loop-Matched (suc fuel) b left h = elim (Bool-cases (left == 0)) [
    | inl e ↦ rw (e, match_loop) (returns (stop-Matched b a left))
    | inr e ↦
        rw (e, match_loop)
          (elim (Option-cases (opposite b a.side)) [
            | inl none_there ↦ rw (none_there, match_loop) (returns (stop-Matched b a left))
            | inr (l, there) ↦
                rw (there, match_loop)
                  (Ensures-deref (level_at b l).orders_head λ i.
                    elim (Bool-cases (reaches a.side a.price (order_at b i).price)) [
                      | inl reach ↦
                          rw (reach, match_loop)
                            (Ensures-bind (match-Traded b a i left) λ r t.
                              Ensures-mono
                                (elim t.progress [
                                  | inl used ↦ match_loop_done fuel r.1 r.0 used (omega arith)
                                  | inr fewer ↦
                                      match_loop-Matched fuel r.1 r.0 (omega (arith, fewer))
                                ])
                                λ s m. round-Matched b a i left r s reach t m)
                      | inr stop ↦ rw (stop, match_loop) (returns (stop-Matched b a left))
                    ])
          ])
  ]
