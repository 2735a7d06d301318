-- ===== src/Exchange/OrderBook/Priority/Round.antt =====
-- One step of the matching loop, against the reference.
use trading_system.Prelude.{
  ℕ, ◌-◌, ◌≡◌, ◌≢◌, refl, sym, ap, ◌∙◌, inl, inr, true, false, List, [], ◌∷◌, ◌++◌, arith, leb,
  ◌==◌, Bool-cases, min,
}
use trading_system.Links.Distinct.{◌∈◌, ◌∉◌, has-append}
use trading_system.Types.{Side, buy, sell, side_invalid, side_max}
use trading_system.Exchange.OrderBook.State.{MeOrder, MeOrderBook, order_at}
use trading_system.Exchange.OrderBook.Handlers.{Incoming, reaches}
use trading_system.Exchange.OrderBook.Shape.{Queue, cells, resting, IsQueue, AreQueues, Sides}
use trading_system.Exchange.OrderBook.Shape.Relinking.{bare}
use trading_system.Exchange.OrderBook.Shape.UnlinkLevel.{same_end}
use trading_system.Exchange.OrderBook.Shape.Spare.{other_orders}
use trading_system.Exchange.OrderBook.Shape.Around.{
  queue_of, remaining, Around, Ladder-Around, cells_apart, side_of,
}
use trading_system.Exchange.OrderBook.Matching.Trade.{traded}
use trading_system.Exchange.OrderBook.Priority.{orders_in, view, matched, within}
use trading_system.Exchange.OrderBook.Priority.Step.{rest_of, Stepped}

-- The outcome of matching an order of which `left` is open against the levels `own` of side `s`.
pub record Matches (b : MeOrderBook) (a : Incoming) (left : ℕ) (s t : Side)
    (own others : List Queue) (r : ℕ × MeOrderBook) : Type 0 where
  pub kept : List Queue
  pub sides : Sides r.1 s t kept others
  pub left_over : r.0 ≡ (matched a left (view b own)).0
  pub hit : view r.1 kept ≡ (matched a left (view b own)).1
  pub spared : view r.1 others ≡ view b others

pub within-reaches : (s : Side) (limit price : ℕ) → within s limit price ≡ reaches s limit price
within-reaches buy limit price = ground arith
within-reaches sell limit price = ground arith
within-reaches side_invalid limit price = ground arith
within-reaches side_max limit price = ground arith

pub matched-used :
    (a : Incoming) (left : ℕ) (os : List MeOrder)
    → (left == 0) ≡ true
    → matched a left os ≡ (left, os)
matched-used a left [] e = refl
matched-used a left (o ∷ os) e = rw e refl

orders_in-same :
    (b b' : MeOrderBook) (i : ℕ) (js : List ℕ)
    → ((j : ℕ) → j ≢ i → bare (order_at b' j) ≡ bare (order_at b j))
    → i ∉ js
    → orders_in b' js ≡ orders_in b js
orders_in-same b b' i [] f o = refl
orders_in-same b b' i (j ∷ js) f o =
    ap (λ x. x ∷ orders_in b' js) (f j (ground (arith, o)))
    ∙ ap (λ l. bare (order_at b j) ∷ l) (orders_in-same b b' i js f (ground (arith, o)))

-- An order of one level is in no other.
not_resting :
    {b : MeOrderBook} {s : Side} {q : Queue} (t : Side) (i : ℕ) (rs : List Queue)
    → IsQueue b s q
    → i ∈ q.orders
    → AreQueues b t rs
    → ((k : ℕ) → k ∈ cells rs → q.cell ≢ k)
    → i ∉ resting rs
not_resting t i [] w m v f = refl
not_resting {q} t i (r ∷ rs) w m (v, vs) f =
    let here : i ∉ r.orders = other_orders v w (λ e. f r.cell (ground arith) (sym e)) i m in
    let there = not_resting t i rs w m vs (λ k n. f k (ground (arith, n))) in
    ground (arith, has-append i r.orders (resting rs), here, there)

abbrev requantified : MeOrder → ℕ → MeOrder
requantified o n = record o { qty = n }

all_filled : (q left : ℕ) → (q - min q left == 0) ≡ true → left - min q left ≡ left - q
all_filled q left e = ground (arith, e)

used_up : (q left : ℕ) → (q - min q left == 0) ≡ false → left - min q left ≡ 0
used_up q left e = ground (arith, e)

left_of : (q left : ℕ) → (q - min q left == 0) ≡ false → q - min q left ≡ q - left
left_of q left e = ground (arith, e)

pub stop-Matches :
    {b : MeOrderBook} {s t : Side} (a : Incoming) (left : ℕ) (own others : List Queue)
    → Sides b s t own others
    → matched a left (view b own) ≡ (left, view b own)
    → Matches b a left s t own others (left, b)
stop-Matches a left own others h e = record {
  kept = own;
  sides = h;
  left_over = sym (ap (λ x. x.0) e);
  hit = sym (ap (λ x. x.1) e);
  spared = refl;
}

module _ {b : MeOrderBook} {s t : Side} (a : Incoming) (left l i : ℕ) (is : List ℕ)
    (rs others : List Queue) (o : same_end s t ≡ false)
    (h : Sides b s t (queue_of l (i ∷ is) ∷ rs) others) where
  top : Around b s [] (queue_of l (i ∷ is)) rs
  top = Ladder-Around [] (queue_of l (i ∷ is)) rs h.mine

  i_in : i ∈ (i ∷ is)
  i_in = ground arith

  out_own : i ∉ (is ++ resting rs)
  out_own =
      let later = not_resting s i rs top.middle i_in top.back top.apart in
      ground (arith, has-append i is (resting rs), top.middle.ring.distinct.0, later)

  out_others : i ∉ resting others
  out_others =
      not_resting t i others top.middle i_in h.theirs.queues
        (λ k m e. cells_apart b o top.middle.side (side_of b others h.theirs.queues k m) (sym e))

  resting-remaining : (js : List ℕ) → resting (remaining [] l js rs) ≡ js ++ resting rs
  resting-remaining [] = refl
  resting-remaining (j ∷ js) = refl

  -- After one step the reference goes on as before it.
  matched-step :
      (r : ℕ × MeOrderBook)
      → Stepped b s t left l i is rs others r
      → (left == 0) ≡ false
      → reaches a.side a.price (order_at b i).price ≡ true
      → matched a r.0 (view r.1 (rest_of b left l i is rs))
        ≡ matched a left (view b (queue_of l (i ∷ is) ∷ rs))
  matched-step r x some_open reach = elim (Bool-cases ((traded b i left).qty == 0)) [
    | inl e ↦
        let within_left : leb (order_at b i).qty left ≡ true = ground (arith, e) in
        let less : r.0 ≡ left - (order_at b i).qty =
          x.left_over ∙ all_filled (order_at b i).qty left e in
        rw e (
          ap (λ js. matched a r.0 (orders_in r.1 js)) (resting-remaining is)
          ∙ ap (matched a r.0) same
          ∙ ap (λ n. matched a n rest) less
          ∙ rw (some_open, limit, within_left) refl)
    | inr e ↦
        let beyond : leb (order_at b i).qty left ≡ false = ground (arith, e) in
        let used : r.0 ≡ 0 = x.left_over ∙ used_up (order_at b i).qty left e in
        let cut : bare (order_at r.1 i)
            ≡ record (bare (order_at b i)) { qty = (order_at b i).qty - left } =
          x.hit ∙ ap (requantified (bare (order_at b i))) (left_of (order_at b i).qty left e) in
        rw e (
          matched-used a r.0 _ (ap (λ n. n == 0) used)
          ∙ ap (λ n. (n, bare (order_at r.1 i) ∷ orders_in r.1 (is ++ resting rs))) used
          ∙ ap (λ y. (0, y ∷ orders_in r.1 (is ++ resting rs))) cut
          ∙ ap (λ l. (0, record (bare (order_at b i)) { qty = (order_at b i).qty - left } ∷ l)) same
          ∙ rw (some_open, limit, beyond) refl)
  ]
    where
      limit : within a.side a.price (order_at b i).price ≡ true
      limit = within-reaches a.side a.price (order_at b i).price ∙ reach

      rest : List MeOrder
      rest = orders_in b (is ++ resting rs)

      same : orders_in r.1 (is ++ resting rs) ≡ orders_in b (is ++ resting rs)
      same = orders_in-same b r.1 i (is ++ resting rs) x.data_of out_own

  pub step-Matches :
      (r r' : ℕ × MeOrderBook)
      → Stepped b s t left l i is rs others r
      → (left == 0) ≡ false
      → reaches a.side a.price (order_at b i).price ≡ true
      → Matches r.1 a r.0 s t (rest_of b left l i is rs) others r'
      → Matches b a left s t (queue_of l (i ∷ is) ∷ rs) others r'
  step-Matches r r' x some_open reach m =
      let same = matched-step r x some_open reach in
      record {
        kept = m.kept;
        sides = m.sides;
        left_over = m.left_over ∙ ap (λ y. y.0) same;
        hit = m.hit ∙ ap (λ y. y.1) same;
        spared = m.spared ∙ orders_in-same b r.1 i (resting others) x.data_of out_others;
      }
