-- ===== src/Exchange/OrderBook/Shape.antt =====
-- What the pointers of an order book stand for: on each side a list of price levels, best first, and
-- in each level the orders, oldest first. src/exchange/order_book.cpp keeps both lists as rings.
pub mod Relinking
pub mod Unlink
pub mod UnlinkLevel
pub mod RemoveLevel
pub mod Leaving
pub mod Spare
pub mod Release
pub mod Parts
pub mod Company
pub mod Alone
pub mod Around
pub mod Removal
pub mod Requantify
pub mod Append
pub mod Entered
pub mod Enlarged
pub mod Queueing
pub mod Splice
pub mod Place
pub mod Sorted
pub mod Seated
pub mod Seating
pub mod Held
pub mod Opened
pub mod Opening
pub mod Founding
pub mod Withdrawal
use trading_system.Prelude.{
  ℕ, ◌≡◌, ◌≢◌, ◌<◌, Bool, false, Option, none, some, List, [], ◌∷◌, ◌++◌, ltb, true, if◌then◌else◌,
}
use trading_system.Types.{Side, buy, sell, is_buy, me_max_num_clients, me_max_order_ids}
use trading_system.Links.Distinct.{◌∈◌, Distinct}
use trading_system.Links.Ring.{Link, Ring}
use trading_system.Links.Neighbours.{first}
use trading_system.Exchange.OrderBook.State.{
  MeOrder, MeOrderBook, order_at, level_at, side_head, get_order_at_price,
}

abbrev pub next_order : MeOrderBook → Link
next_order b i = (order_at b i).next_order

abbrev pub prev_order : MeOrderBook → Link
prev_order b i = (order_at b i).prev_order

abbrev pub next_level : MeOrderBook → Link
next_level b l = (level_at b l).next

abbrev pub prev_level : MeOrderBook → Link
prev_level b l = (level_at b l).prev

-- A price level: its cell, and the cells of its orders.
pub record Queue : Type 0 where
  pub cell : ℕ
  pub orders : List ℕ

abbrev pub cells : List Queue → List ℕ
cells [] = []
cells (q ∷ qs) = q.cell ∷ cells qs

-- The cells of all orders of the levels.
abbrev pub resting : List Queue → List ℕ
resting [] = []
resting (q ∷ qs) = q.orders ++ resting qs

-- `p` is a better price than `p'` for the orders of side `s`.
abbrev pub IsBetter : Side → ℕ → ℕ → Type 0
IsBetter s p p' = (if is_buy s then ltb p' p else ltb p p') ≡ true

abbrev pub price_of : MeOrderBook → ℕ → ℕ
price_of b l = (level_at b l).price

-- An order of side `s` at price `p`, found under its client and its identifier.
pub record IsOrder (b : MeOrderBook) (s : Side) (p i : ℕ) : Type 0 where
  pub side : (order_at b i).side ≡ s
  pub price : (order_at b i).price ≡ p
  pub in_range : i < b.orders_pool.size
  pub in_use : (b.orders_pool.cells i).is_free ≡ false
  pub client : (order_at b i).client_id < me_max_num_clients
  pub order : (order_at b i).client_order_id < me_max_order_ids
  pub registered :
      b.cid_oid_to_order (order_at b i).client_id (order_at b i).client_order_id ≡ some i

pub record IsQueue (b : MeOrderBook) (s : Side) (q : Queue) : Type 0 where
  pub side : (level_at b q.cell).side ≡ s
  pub head : (level_at b q.cell).orders_head ≡ first q.orders
  pub holds : first q.orders ≢ none
  pub ring : Ring (next_order b) (prev_order b) q.orders
  pub at_price : get_order_at_price b (price_of b q.cell) ≡ some q.cell
  pub in_range : q.cell < b.orders_at_price_pool.size
  pub in_use : (b.orders_at_price_pool.cells q.cell).is_free ≡ false
  pub each : (i : ℕ) → i ∈ q.orders → IsOrder b s (price_of b q.cell) i

abbrev pub AreQueues : MeOrderBook → Side → List Queue → Type 0
AreQueues b s [] = Unit {0}
AreQueues b s (q ∷ qs) = IsQueue b s q × AreQueues b s qs

-- Every level of the list has a worse price than `p`.
abbrev pub AreWorse : MeOrderBook → Side → ℕ → List ℕ → Type 0
AreWorse b s p [] = Unit {0}
AreWorse b s p (l ∷ ls) = IsBetter s p (price_of b l) × AreWorse b s p ls

-- Best price first, and no price twice.
abbrev pub AreSorted : MeOrderBook → Side → List ℕ → Type 0
AreSorted b s [] = Unit {0}
AreSorted b s (l ∷ ls) = AreWorse b s (price_of b l) ls × AreSorted b s ls

-- The levels of one side.
pub record Ladder (b : MeOrderBook) (s : Side) (qs : List Queue) : Type 0 where
  pub best : side_head b s ≡ first (cells qs)
  pub ring : Ring (next_level b) (prev_level b) (cells qs)
  pub queues : AreQueues b s qs
  pub sorted : AreSorted b s (cells qs)

-- The two sides of the book, `own` those of side `s` and `others` those of side `t`.
pub record Sides (b : MeOrderBook) (s t : Side) (own others : List Queue) : Type 0 where
  pub mine : Ladder b s own
  pub theirs : Ladder b t others
