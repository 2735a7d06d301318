-- ===== src/Exchange/OrderBook/Shape/Removal.antt =====
-- `removeOrder` on what the book holds.
use trading_system.Prelude.{
  ℕ, ◌≡◌, ◌≢◌, refl, sym, ap, ◌∙◌, Option, none, some, true, false, ◌&&◌, List, [], ◌∷◌, ◌++◌,
  arith, inl, inr, Option-cases, Returns, Returns-bind, Returns-mono, update_ne,
}
use trading_system.Links.Distinct.{◌∈◌, has-append, ne_of_in}
use mathlib.Core.Path.{subst}
use trading_system.MemPool.{read}
use trading_system.Links.Ring.{Link, Ring, Ring-out}
use trading_system.Links.Neighbours.{first, Neighbours, Ring-Neighbours, first-none}
use trading_system.Types.{Side}
use trading_system.Exchange.OrderBook.State.{
  MeOrderBook, order_at, level_at, side_head, get_order_at_price,
}
use trading_system.Exchange.OrderBook.Remove.{remove_order, remove_order_at_price, points_to}
use trading_system.Exchange.OrderBook.Shape.{
  IsOrder, Queue, cells, Sides, price_of, next_level, prev_level,
}
use trading_system.Exchange.OrderBook.Shape.Parts.{cells-append, AreQueues-join}
use trading_system.Exchange.OrderBook.Shape.Relinking.{bare}
use trading_system.Exchange.OrderBook.Shape.Unlink.{unlink_order-Detached}
use trading_system.Exchange.OrderBook.Shape.UnlinkLevel.{same_end, best_without}
use trading_system.Exchange.OrderBook.Shape.RemoveLevel.{
  LevelGone, only_level-LevelGone, other_level-LevelGone,
}
use trading_system.Exchange.OrderBook.Shape.Release.{Released, release-IsOrder}
use trading_system.Exchange.OrderBook.Shape.Around.{
  queue_of, remaining, Around, Ladder-Around, side_of, cells_apart, best_without-first, no-append,
}
use trading_system.Exchange.OrderBook.Shape.Leaving.{
  Sides-Company, Sides-Alone, next_after, prev_after,
}

-- What a removal leaves of the book `b`.
pub record Leaves (b : MeOrderBook) (s t : Side) (own others : List Queue) (b' : MeOrderBook)
    : Type 0 where
  pub sides : Sides b' s t own others
  pub data_of : (j : ℕ) → bare (order_at b' j) ≡ bare (order_at b j)

module _ {b : MeOrderBook} {s t : Side} (qs : List Queue) (l i : ℕ) (xs ys : List ℕ)
    (rs others : List Queue) (opposed : same_end s t ≡ false)
    (h : Sides b s t (qs ++ (queue_of l (xs ++ (i ∷ ys)) ∷ rs)) others) where
  here : Around b s qs (queue_of l (xs ++ (i ∷ ys))) rs
  here = Ladder-Around qs (queue_of l (xs ++ (i ∷ ys))) rs h.mine

  order : IsOrder b s (price_of b l) i
  order = here.middle.each i (ground (arith, has-append i xs (i ∷ ys)))

  at_level : get_order_at_price b (order_at b i).price ≡ some l
  at_level = ap (get_order_at_price b) order.price ∙ here.middle.at_price

  remove_order-Company :
      first (xs ++ ys) ≢ none
      → Returns (Leaves b s t (qs ++ (queue_of l (xs ++ ys) ∷ rs)) others) (remove_order b i)
  unfolding remove_order
  remove_order-Company left =
      let m = Ring-Neighbours xs i ys here.middle.ring left in
      let before_ne : m.before ≢ i = ne_of_in m.before i (xs ++ ys) m.before_in m.out in
      let after_ne : m.after ≢ i = ne_of_in m.after i (xs ++ ys) m.after_in m.out in
      let company : (points_to (order_at b i).next_order i && points_to (order_at b i).prev_order i)
          ≡ false =
        ground (arith, m.forth, after_ne) in
      rw (at_level, company)
        (Returns-bind (unlink_order-Detached b l i m.before m.after m.back m.forth before_ne)
          λ b1 d. Returns-mono (release-IsOrder b1 order (d.data_of i) (d.used i) d.size) λ b' r.
            record {
              sides = Sides-Company qs l i xs ys rs others opposed h m d r left;
              data_of = λ j. ap bare (r.orders j) ∙ d.data_of j;
            })

module _ {b : MeOrderBook} {s t : Side} (qs : List Queue) (l i : ℕ) (rs others : List Queue)
    (opposed : same_end s t ≡ false)
    (h : Sides b s t (qs ++ (queue_of l (i ∷ []) ∷ rs)) others) where
  lone : Around b s qs (queue_of l (i ∷ [])) rs
  lone = Ladder-Around qs (queue_of l (i ∷ [])) rs h.mine

  abbrev After : MeOrderBook → Type 0
  After b' = Leaves b s t (qs ++ rs) others b'

  lone_order : IsOrder b s (price_of b l) i
  lone_order = lone.middle.each i (ground arith)

  finish :
      {n p : Link} {best : Option ℕ}
      → Returns (LevelGone b l n p best) (remove_order_at_price b l)
      → ((b1 b' : MeOrderBook)
          → LevelGone b l n p best b1
          → Released b1 i b'
          → Sides b' s t (qs ++ rs) others)
      → Returns After (remove_order b i)
  unfolding remove_order
  finish {n} {p} {best} level f =
      let at_level : get_order_at_price b (order_at b i).price ≡ some l =
        ap (get_order_at_price b) lone_order.price ∙ lone.middle.at_price in
      let (forth, back) = lone.middle.ring.linked in
      let alone : (points_to (order_at b i).next_order i && points_to (order_at b i).prev_order i)
          ≡ true =
        ground (arith, forth, back) in
      rw (at_level, alone)
        (Returns-bind level λ b1 d.
          Returns-mono
            (release-IsOrder b1 lone_order (ap (λ x. bare (read x i)) d.orders)
              (ap (λ x. (x.cells i).is_free) d.orders) (ap (λ x. x.size) d.orders))
            λ b' r. record {
              sides = f b1 b' d r;
              data_of = λ j. ap bare (r.orders j) ∙ ap (λ x. bare (read x j)) d.orders;
            })

  own_side : (k : ℕ) → k ∈ (cells qs ++ cells rs) → (level_at b k).side ≡ s
  own_side k m =
      side_of b (qs ++ rs) (AreQueues-join b s qs rs lone.front lone.back) k
        (rw (cells-append qs rs) m)

  best_left :
      (m : Neighbours (next_level b) (prev_level b) (cells qs) l (cells rs))
      → best_without (side_head b (level_at b l).side) l (some m.after)
        ≡ first (cells qs ++ cells rs)
  best_left m =
      ap (λ x. best_without x l (some m.after))
        (ap (side_head b) lone.middle.side
          ∙ h.mine.best
          ∙ ap first (cells-append qs (queue_of l (i ∷ []) ∷ rs)))
      ∙ best_without-first (cells qs) l m.after (cells rs) m.out m.follows

  remove_order-Alone : Returns After (remove_order b i)
  remove_order-Alone = elim (Option-cases (first (cells qs ++ cells rs))) [
    | inl e ↦
        let (eq, er) = no-append (cells qs) (cells rs) e in
        let ring : Ring (next_level b) (prev_level b) (l ∷ []) =
          subst (λ x. Ring (next_level b) (prev_level b) (l ∷ x)) er
            (subst (λ x. Ring (next_level b) (prev_level b) (x ++ (l ∷ cells rs))) eq lone.ring) in
        let nothing = first-none (cells qs ++ cells rs) e in
        finish (only_level-LevelGone b l lone.middle.in_range lone.middle.in_use ring.linked.0)
          λ b1 b' d r.
            Sides-Alone qs l i rs others opposed h d r (sym e)
              (rw nothing (record { distinct = tt; linked = tt })) (λ k _. refl) (λ k _. refl)
    | inr (k, e) ↦
        let some_left : first (cells qs ++ cells rs) ≢ none = λ f. cc in
        let m = Ring-Neighbours (cells qs) l (cells rs) lone.ring some_left in
        let before_ne : m.before ≢ l =
          ne_of_in m.before l (cells qs ++ cells rs) m.before_in m.out in
        let after_ne : m.after ≢ l = ne_of_in m.after l (cells qs ++ cells rs) m.after_in m.out in
        finish
          (other_level-LevelGone b l m.before m.after lone.middle.in_range lone.middle.in_use m.back
            m.forth before_ne after_ne)
          λ b1 b' d r.
            Sides-Alone qs l i rs others opposed h d r (best_left m)
              (Ring-out (cells qs) l (cells rs) m.before m.after lone.ring m.back m.forth (record {
                forth = next_after qs l i rs others opposed h d r;
                back = prev_after qs l i rs others opposed h d r;
              }))
              (λ j o. update_ne (next_level b) m.before j (some m.after) (
                cells_apart b opposed (own_side m.before m.before_in)
                  (side_of b others h.theirs.queues j o)))
              (λ j o. update_ne (prev_level b) m.after j (some m.before) (
                cells_apart b opposed (own_side m.after m.after_in)
                  (side_of b others h.theirs.queues j o)))
  ]

-- `removeOrder` of an order that rests in a well-formed book returns. It takes that order alone out of its
-- level, the level too when it was the last order there, and the book is well formed again: all
-- other levels and orders are as they were, in the same order.
pub remove_order-Sides :
    {b : MeOrderBook} {s t : Side} (qs : List Queue) (l i : ℕ) (xs ys : List ℕ)
    (rs others : List Queue)
    → same_end s t ≡ false
    → Sides b s t (qs ++ (queue_of l (xs ++ (i ∷ ys)) ∷ rs)) others
    → Returns (Leaves b s t (remaining qs l (xs ++ ys) rs) others) (remove_order b i)
remove_order-Sides qs l i [] [] rs others o h = remove_order-Alone qs l i rs others o h
remove_order-Sides qs l i [] (y ∷ ys) rs others o h =
    remove_order-Company qs l i [] (y ∷ ys) rs others o h (λ e. cc)
remove_order-Sides qs l i (x ∷ xs) ys rs others o h =
    remove_order-Company qs l i (x ∷ xs) ys rs others o h (λ e. cc)
