-- ===== src/Exchange/OrderBook/Priority/Refine.antt =====
-- `checkForMatch` on a well-formed book is matching by price-time priority.
use trading_system.Prelude.{
  ℕ, zero, suc, ◌+◌, ◌<◌, ◌≡◌, refl, ◌∙◌, ◌⊎◌, inl, inr, true, false, ◌||◌, none, some, List, [],
  ◌∷◌, arith, ◌==◌, Bool-cases, Returns, gives, Returns-bind, Returns-mono, Returns-and,
  Returns-deref,
}
use trading_system.MemPool.Laws.{live, live_le-size}
use trading_system.Types.{Side, buy, sell, is_buy, is_sell}
use trading_system.Exchange.OrderBook.State.{MeOrderBook, order_at, level_at, side_head}
use trading_system.Exchange.OrderBook.Handlers.{
  Incoming, match_loop, check_for_match, opposite, reaches,
}
use trading_system.Exchange.OrderBook.Shape.{Queue, Sides}
use trading_system.Exchange.OrderBook.Shape.UnlinkLevel.{same_end}
use trading_system.Exchange.OrderBook.Shape.Around.{queue_of}
use trading_system.Exchange.OrderBook.Matching.Trade.{match-Traded}
use trading_system.Exchange.OrderBook.Priority.{view, passive}
use trading_system.Exchange.OrderBook.Priority.Step.{rest_of, match-Stepped}
use trading_system.Exchange.OrderBook.Priority.Round.{
  within-reaches, Matches, matched-used, stop-Matches, step-Matches,
}

module _ (s t : Side) (a : Incoming) (others : List Queue) (o : same_end s t ≡ false)
    (against : (b : MeOrderBook) → opposite b a.side ≡ side_head b s) where
  match_loop-done :
      (fuel : ℕ) (b : MeOrderBook) (left : ℕ) (own : List Queue)
      → Sides b s t own others
      → left ≡ 0
      → 0 < fuel
      → Returns (Matches b a left s t own others) (match_loop fuel b a left)
  unfolding match_loop
  match_loop-done zero b left own h e f = absurd (omega arith)
  match_loop-done (suc fuel) b left own h e f =
      let test : (left == 0) ≡ true = ground arith in
      rw (test, match_loop)
        (gives (stop-Matches a left own others h (matched-used a left (view b own) test)))

  abbrev GoesOn : ℕ → Type 0
  GoesOn fuel =
      (b : MeOrderBook) (left : ℕ) (own : List Queue)
      → Sides b s t own others
      → live b.orders_pool + 1 < fuel
      → Returns (Matches b a left s t own others) (match_loop fuel b a left)

  -- A round of the loop with the oldest order `i` of the best level, when the later rounds do as said.
  round-Matches :
      (fuel : ℕ) (b : MeOrderBook) (left l : ℕ) (is : List ℕ) (rs : List Queue)
      → GoesOn fuel
      → (left == 0) ≡ false
      → Sides b s t (queue_of l is ∷ rs) others
      → live b.orders_pool + 1 < suc fuel
      → Returns (Matches b a left s t (queue_of l is ∷ rs) others) (match_loop (suc fuel) b a left)
  unfolding match_loop
  round-Matches fuel b left l [] rs go e h f = absurd (h.mine.queues.0.holds refl)
  round-Matches fuel b left l (i ∷ is) rs go e h f =
      let there : opposite b a.side ≡ some l = against b ∙ h.mine.best in
      let oldest : (level_at b l).orders_head ≡ some i = h.mine.queues.0.head in
      rw (e, there, match_loop)
        (Returns-deref _ oldest (elim (Bool-cases (reaches a.side a.price (order_at b i).price)) [
          | inl reach ↦
              rw (reach, match_loop)
                (Returns-bind
                  (Returns-and (match-Stepped b a left l i is rs others o h)
                    (match-Traded b a i left))
                  λ r x.
                    Returns-mono
                      (elim x.1.progress [
                        | inl used ↦
                            match_loop-done fuel r.1 r.0 (rest_of b left l i is rs) x.0.sides used
                              (omega arith)
                        | inr fewer ↦
                            go r.1 r.0 (rest_of b left l i is rs) x.0.sides (omega (arith, fewer))
                      ])
                      λ r' m. step-Matches a left l i is rs others o h r r' x.0 e reach m)
          | inr stop ↦
              rw (stop, match_loop)
                (gives (
                  stop-Matches a left _ others h
                    (rw (e, within-reaches a.side a.price (order_at b i).price ∙ stop) refl)))
        ]))

  match_loop-Matches : (fuel : ℕ) → GoesOn fuel
  unfolding match_loop
  match_loop-Matches zero b left own h f = absurd (omega arith)
  match_loop-Matches (suc fuel) b left own h f = elim (Bool-cases (left == 0)) [
    | inl e ↦
        rw (e, match_loop)
          (gives (stop-Matches a left own others h (matched-used a left (view b own) e)))
    | inr e ↦ by_levels (match_loop-Matches fuel) own h e
  ]
    where
      by_levels :
          GoesOn fuel
          → (qs : List Queue) → Sides b s t qs others
          → (left == 0) ≡ false
          → Returns (Matches b a left s t qs others) (match_loop (suc fuel) b a left)
      by_levels go [] g e =
          let none_there : opposite b a.side ≡ none = against b ∙ g.mine.best in
          rw (e, none_there, match_loop) (gives (stop-Matches a left [] others g refl))
      by_levels go (q ∷ rs) g e = round-Matches fuel b left q.cell q.orders rs go e g f

passive-apart : (s : Side) → (s ≡ buy) ⊎ (s ≡ sell) → same_end (passive s) s ≡ false
passive-apart s (inl e) = rw e refl
passive-apart s (inr e) = rw e refl

against_passive :
    (s : Side) → (s ≡ buy) ⊎ (s ≡ sell) → (b : MeOrderBook) → opposite b s ≡ side_head b (passive s)
against_passive s (inl e) b = rw e refl
against_passive s (inr e) b = rw e refl

is_side : (s : Side) → (s ≡ buy) ⊎ (s ≡ sell) → (is_buy s || is_sell s) ≡ true
is_side s (inl e) = rw e refl
is_side s (inr e) = rw e refl

-- On a well-formed book `checkForMatch` of a buy or a sell order returns. It leaves a well-formed
-- book, of the order what matching by price-time priority leaves open, and of the other side the orders
-- that such matching leaves there, in their order; the order's own side is as it was.
pub check_for_match-Matches :
    (b : MeOrderBook) (a : Incoming) (qty : ℕ) (own others : List Queue)
    → (a.side ≡ buy) ⊎ (a.side ≡ sell)
    → Sides b (passive a.side) a.side own others
    → Returns (Matches b a qty (passive a.side) a.side own others) (check_for_match b a qty)
unfolding check_for_match
check_for_match-Matches b a qty own others side h = rw (is_side a.side side) (
    match_loop-Matches (passive a.side) a.side a others (passive-apart a.side side)
      (against_passive a.side side) (b.orders_pool.size + 2) b qty own h
      (omega (arith, live_le-size b.orders_pool)))
