-- ===== src/Exchange/OrderBook/Shape/Seated.antt =====
-- A new level among the levels of its side, once its place is found.
use trading_system.Prelude.{
  ℕ, ◌≡◌, ◌≢◌, refl, sym, ap, ◌∙◌, inl, inr, Option, some, Bool, true, false, List, [], ◌∷◌, ◌++◌,
  arith, if◌then◌else◌, Bool-cases,
}
use trading_system.Links.Distinct.{◌∈◌, ◌∉◌, has-append, ne_of_in}
use trading_system.Links.Ring.{Link, Ring, Ring-same, Ring-rotate, Chain-last, last}
use trading_system.Links.Neighbours.{first}
use trading_system.Types.{Side, is_buy}
use trading_system.Exchange.OrderBook.State.{
  MeOrderBook, level_at, side_head, set_side_head, set_level,
}
use trading_system.Exchange.OrderBook.Shape.{next_level, prev_level}
use trading_system.Exchange.OrderBook.Shape.Relinking.{bare_level}
use trading_system.Exchange.OrderBook.Shape.UnlinkLevel.{same_end}
use trading_system.Exchange.OrderBook.Shape.Splice.{LevelJoined}

-- Level `l` of side `s` has joined the levels `ls`, which makes `ms`; the rest is as in `b`.
pub record Seated (b : MeOrderBook) (s : Side) (l : ℕ) (ls ms : List ℕ) (b' : MeOrderBook)
    : Type 0 where
  pub ring : Ring (next_level b') (prev_level b') ms
  pub best : side_head b' s ≡ first ms
  pub other_best : (t : Side) → same_end s t ≡ false → side_head b' t ≡ side_head b t
  pub forth : (k : ℕ) → k ∉ ls → k ≢ l → next_level b' k ≡ next_level b k
  pub back : (k : ℕ) → k ∉ ls → k ≢ l → prev_level b' k ≡ prev_level b k
  pub data_of : (k : ℕ) → bare_level (level_at b' k) ≡ bare_level (level_at b k)
  pub used :
      (k : ℕ) → (b'.orders_at_price_pool.cells k).is_free ≡ (b.orders_at_price_pool.cells k).is_free
  pub size : b'.orders_at_price_pool.size ≡ b.orders_at_price_pool.size
  pub orders : b'.orders_pool ≡ b.orders_pool
  pub registry : b'.cid_oid_to_order ≡ b.cid_oid_to_order
  pub table : b'.price_to_orders_at_price ≡ b.price_to_orders_at_price

head_self : (b : MeOrderBook) (s : Side) (p : Option ℕ) → side_head (set_side_head b s p) s ≡ p
unfolding set_side_head
head_self b s p = ground arith

head_other :
    (b : MeOrderBook) (s t : Side) (p : Option ℕ)
    → same_end s t ≡ false
    → side_head (set_side_head b s p) t ≡ side_head b t
unfolding set_side_head
head_other b s t p o = ground (arith, o)

head_only :
    (b : MeOrderBook) (s : Side) (p : Option ℕ)
    → record (set_side_head b s p) {
      bids_by_price = b.bids_by_price;
      asks_by_price = b.asks_by_price;
    }
      ≡ b
unfolding set_side_head
head_only b s p = elim (Bool-cases (is_buy s)) [ inl e ↦ rw e refl | inr e ↦ rw e refl ]

pub turned-in :
    (k : ℕ) (xs : List ℕ) (y : ℕ) (ys : List ℕ) → k ∈ (y ∷ (ys ++ xs)) → k ∈ (xs ++ (y ∷ ys))
turned-in k xs y ys m = ground (arith, has-append k xs (y ∷ ys), has-append k ys xs, m)

-- The links around the place where the level goes in.
module _ {next prev : Link} where
  pub Ring-turn :
      (xs : List ℕ) (y : ℕ) (ys : List ℕ)
      → Ring next prev (xs ++ (y ∷ ys))
      → (next (last y (ys ++ xs)) ≡ some y) × (prev y ≡ some (last y (ys ++ xs)))
  Ring-turn xs y ys r =
      Chain-last next prev y (ys ++ xs) y (Ring-rotate next prev xs (y ∷ ys) r).linked

-- The book once the head of the side is set.
module _ {b b1 : MeOrderBook} {s : Side} {l before after : ℕ} {ls ms : List ℕ}
    (d : LevelJoined b l before after b1) where
  pub Seated-headed :
      (c : Bool)
      → Ring (next_level b1) (prev_level b1) ms
      → before ∈ ls
      → after ∈ ls
      → (if c then some l else side_head b s) ≡ first ms
      → Seated b s l ls ms (if c then set_side_head b1 s (some l) else b1)
  Seated-headed true r i j e =
      let same = head_only b1 s (some l) in
      record {
        ring =
            Ring-same ms r (λ k _. ap (λ x. next_level x k) same)
              (λ k _. ap (λ x. prev_level x k) same);
        best = head_self b1 s (some l) ∙ e;
        other_best = λ t o. head_other b1 s t (some l) o ∙ ap (λ x. side_head x t) d.rest;
        forth = λ k o n.
            ap (λ x. next_level x k) same
            ∙ d.links.forth k (λ q. ne_of_in before k ls i o (sym q)) n;
        back = λ k o n.
            ap (λ x. prev_level x k) same ∙ d.links.back k (λ q. ne_of_in after k ls j o (sym q)) n;
        data_of = λ k. ap (λ x. bare_level (level_at x k)) same ∙ d.data_of k;
        used = λ k. ap (λ x. (x.orders_at_price_pool.cells k).is_free) same ∙ d.used k;
        size = ap (λ x. x.orders_at_price_pool.size) same ∙ d.size;
        orders = ap (λ x. x.orders_pool) same ∙ ap (λ x. x.orders_pool) d.rest;
        registry = ap (λ x. x.cid_oid_to_order) same ∙ ap (λ x. x.cid_oid_to_order) d.rest;
        table =
            ap (λ x. x.price_to_orders_at_price) same ∙ ap (λ x. x.price_to_orders_at_price) d.rest;
      }
  Seated-headed false r i j e = record {
    ring = r;
    best = ap (λ x. side_head x s) d.rest ∙ e;
    other_best = λ t o. ap (λ x. side_head x t) d.rest;
    forth = λ k o n. d.links.forth k (λ q. ne_of_in before k ls i o (sym q)) n;
    back = λ k o n. d.links.back k (λ q. ne_of_in after k ls j o (sym q)) n;
    data_of = d.data_of;
    used = d.used;
    size = d.size;
    orders = ap (λ x. x.orders_pool) d.rest;
    registry = ap (λ x. x.cid_oid_to_order) d.rest;
    table = ap (λ x. x.price_to_orders_at_price) d.rest;
  }

pub alone-Seated :
    (b : MeOrderBook) (s : Side) (l : ℕ)
    → Seated b s l [] (l ∷ []) (
        set_level
          (set_side_head b s (some l))
          l
          (record (level_at b l) { next = some l; prev = some l }))
unfolding set_level
alone-Seated b s l =
    let same = head_only b s (some l) in
    record {
      ring = record { distinct = (refl, tt); linked = (ground arith, ground arith) };
      best = head_self b s (some l);
      other_best = λ t o. head_other b s t (some l) o;
      forth = λ k o n. ground (arith, ap (λ x. next_level x k) same, n);
      back = λ k o n. ground (arith, ap (λ x. prev_level x k) same, n);
      data_of = λ k. ground (arith, ap (λ x. bare_level (level_at x k)) same);
      used = λ k. ground (
        arith,
        ap (λ x. (x.orders_at_price_pool.cells k).is_free) same,
        ap (λ x. (x.orders_at_price_pool.cells l).is_free) same,
      );
      size = ap (λ x. x.orders_at_price_pool.size) same;
      orders = ap (λ x. x.orders_pool) same;
      registry = ap (λ x. x.cid_oid_to_order) same;
      table = ap (λ x. x.price_to_orders_at_price) same;
    }
