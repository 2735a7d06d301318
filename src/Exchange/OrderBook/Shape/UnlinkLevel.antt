-- ===== src/Exchange/OrderBook/Shape/UnlinkLevel.antt =====
-- What `removeOrderAtPrice` does to the links of the levels, to the best levels and to the table.
use trading_system.Prelude.{
  ℕ, ◌≡◌, ◌≢◌, refl, ap, ◌∙◌, Option, none, some, Bool, not, inl, inr, arith, if◌then◌else◌,
  Bool-cases, Returns, gives, Returns-deref, update,
}
use trading_system.Links.Ring.{Link}
use trading_system.Types.{Side, is_buy}
use trading_system.Exchange.OrderBook.State.{
  MeOrderBook, level_at, set_level, side_head, set_side_head,
}
use trading_system.Exchange.OrderBook.Remove.{unlink_level, points_to}
use trading_system.Exchange.OrderBook.Shape.{next_level, prev_level}
use trading_system.Exchange.OrderBook.Shape.Relinking.{
  bare_level, LevelsRelinked, LevelsRelinked-refl, set_next_level, set_prev_level,
}

-- Both sides use the same list of levels.
abbrev pub same_end : Side → Side → Bool
same_end s t = if is_buy s then is_buy t else not (is_buy t)

-- The levels but `l` are linked by `n` and `p`, the best level of its side is `best`, and the rest is as
-- in `b`.
pub record LevelOut (b : MeOrderBook) (l : ℕ) (n p : Link) (best : Option ℕ) (b' : MeOrderBook)
    : Type 0 where
  pub forth : (j : ℕ) → j ≢ l → next_level b' j ≡ n j
  pub back : (j : ℕ) → j ≢ l → prev_level b' j ≡ p j
  pub data_of : (j : ℕ) → bare_level (level_at b' j) ≡ bare_level (level_at b j)
  pub used :
      (j : ℕ) → (b'.orders_at_price_pool.cells j).is_free ≡ (b.orders_at_price_pool.cells j).is_free
  pub size : b'.orders_at_price_pool.size ≡ b.orders_at_price_pool.size
  pub free : b'.orders_at_price_pool.next_free_index ≡ b.orders_at_price_pool.next_free_index
  pub heads :
      (s : Side) → side_head b' s ≡ (if same_end s (level_at b l).side then best else side_head b s)
  pub orders : b'.orders_pool ≡ b.orders_pool
  pub registry : b'.cid_oid_to_order ≡ b.cid_oid_to_order
  pub table : b'.price_to_orders_at_price ≡ b.price_to_orders_at_price

-- The best level when level `l` has left, the next one being `after`.
abbrev pub best_without : Option ℕ → ℕ → Option ℕ → Option ℕ
best_without best l after = if points_to best l then after else best

-- The last two statements of the branch.
abbrev take_out : MeOrderBook → ℕ → MeOrderBook
take_out b2 l =
    let b3 =
      if points_to (side_head b2 (level_at b2 l).side) l
      then set_side_head b2 (level_at b2 l).side (level_at b2 l).next
      else b2 in
    set_level b3 l (record (level_at b3 l) { next = none; prev = none })

pub set_head-LevelOut :
    (b : MeOrderBook) (l : ℕ) (best : Option ℕ)
    → LevelOut b l (next_level b) (prev_level b) best (set_side_head b (level_at b l).side best)
unfolding set_side_head
set_head-LevelOut b l best = elim (Bool-cases (is_buy (level_at b l).side)) [
  | inl e ↦ rw e (record {
    forth = λ j o. refl;
    back = λ j o. refl;
    data_of = λ j. refl;
    used = λ j. refl;
    size = refl;
    free = refl;
    heads = λ s. ground (arith, e);
    orders = refl;
    registry = refl;
    table = refl;
  })
  | inr e ↦ rw e (record {
    forth = λ j o. refl;
    back = λ j o. refl;
    data_of = λ j. refl;
    used = λ j. refl;
    size = refl;
    free = refl;
    heads = λ s. ground (arith, e);
    orders = refl;
    registry = refl;
    table = refl;
  })
]

-- From a book with other links to one with another best level.
LevelOut-after :
    {b b2 : MeOrderBook} {l : ℕ} {n p : Link} {best : Option ℕ} {b' : MeOrderBook}
    → LevelsRelinked b b2 n p
    → LevelOut b2 l (next_level b2) (prev_level b2) best b'
    → LevelOut b l n p best b'
LevelOut-after {b} {b2} {l} {n} {p} {best} r d = record {
  forth = λ j o. d.forth j o ∙ r.forth j;
  back = λ j o. d.back j o ∙ r.back j;
  data_of = λ j. d.data_of j ∙ r.data_of j;
  used = λ j. d.used j ∙ r.used j;
  size = d.size ∙ r.size;
  free = d.free ∙ r.free;
  heads = λ s.
      d.heads s
      ∙ ap (λ t. if same_end s t then best else side_head b2 s) (ap (λ v. v.side) (r.data_of l))
      ∙ ap (λ h. if same_end s (level_at b l).side then best else h)
          (ap (λ x. side_head x s) r.rest);
  orders = d.orders ∙ ap (λ x. x.orders_pool) r.rest;
  registry = d.registry ∙ ap (λ x. x.cid_oid_to_order) r.rest;
  table = d.table ∙ ap (λ x. x.price_to_orders_at_price) r.rest;
}

-- The links of level `l` itself are dropped.
drop_links-LevelOut :
    {b : MeOrderBook} {l : ℕ} {n p : Link} {best : Option ℕ} {b' : MeOrderBook}
    → LevelOut b l n p best b'
    → LevelOut b l n p best (set_level b' l (record (level_at b' l) { next = none; prev = none }))
unfolding set_level
drop_links-LevelOut d = record {
  forth = λ j o. ground (arith, d.forth j, o);
  back = λ j o. ground (arith, d.back j, o);
  data_of = λ j. ground (arith, d.data_of j);
  used = λ j. ground (arith, d.used j);
  size = d.size;
  free = d.free;
  heads = d.heads;
  orders = d.orders;
  registry = d.registry;
  table = d.table;
}

stay-LevelOut :
    (b : MeOrderBook) (l : ℕ)
    → LevelOut b l (next_level b) (prev_level b) (side_head b (level_at b l).side) b
stay-LevelOut b l = record {
  forth = λ j o. refl;
  back = λ j o. refl;
  data_of = λ j. refl;
  used = λ j. refl;
  size = refl;
  free = refl;
  heads = λ s. ground arith;
  orders = refl;
  registry = refl;
  table = refl;
}

take_out-LevelOut :
    (b : MeOrderBook) (l : ℕ)
    → LevelOut b l
        (next_level b)
        (prev_level b)
        (best_without (side_head b (level_at b l).side) l (next_level b l))
        (take_out b l)
take_out-LevelOut b l = elim (Bool-cases (points_to (side_head b (level_at b l).side) l)) [
  | inl e ↦ rw e (drop_links-LevelOut (set_head-LevelOut b l (next_level b l)))
  | inr e ↦ rw e (drop_links-LevelOut (stay-LevelOut b l))
]

LevelOut-links :
    {b b' : MeOrderBook} {l : ℕ} {n p n' p' : Link} {best best' : Option ℕ}
    → ((j : ℕ) → n j ≡ n' j)
    → ((j : ℕ) → p j ≡ p' j)
    → best ≡ best'
    → LevelOut b l n p best b'
    → LevelOut b l n' p' best' b'
LevelOut-links {b} {b'} {l} e f g d = record {
  forth = λ j o. d.forth j o ∙ e j;
  back = λ j o. d.back j o ∙ f j;
  data_of = d.data_of;
  used = d.used;
  size = d.size;
  free = d.free;
  heads = λ s. d.heads s ∙ ap (λ x. if same_end s (level_at b l).side then x else side_head b s) g;
  orders = d.orders;
  registry = d.registry;
  table = d.table;
}

pub unlink_level-LevelOut :
    (b : MeOrderBook) (l before after : ℕ)
    → prev_level b l ≡ some before
    → next_level b l ≡ some after
    → before ≢ l
    → Returns
        (LevelOut b l
          (update (next_level b) before (some after))
          (update (prev_level b) after (some before))
          (best_without (side_head b (level_at b l).side) l (some after)))
        (unlink_level b l)
unfolding unlink_level
unlink_level-LevelOut b l before after p n ne =
    let b1 = set_level b before (record (level_at b before) { next = (level_at b l).next }) in
    let r1 = set_next_level (LevelsRelinked-refl b) before (level_at b l).next in
    let still : update (next_level b) before (level_at b l).next l ≡ some after =
      ground (arith, n, ne) in
    let b2 = set_level b1 after (record (level_at b1 after) { prev = (level_at b1 l).prev }) in
    let r2 = set_prev_level r1 after (level_at b1 l).prev in
    let same_best : side_head b2 (level_at b2 l).side ≡ side_head b (level_at b l).side =
      ap (λ x. side_head x (level_at b2 l).side) r2.rest
      ∙ ap (λ v. side_head b v.side) (r2.data_of l) in
    Returns-deref _ p (
      Returns-deref _ (r1.forth l ∙ still) (
        gives (
          LevelOut-links (λ j. ap (λ x. update (next_level b) before x j) n)
            (λ j. ap (λ x. update (prev_level b) after x j) (r1.back l ∙ p))
            (ap (λ x. best_without x l (next_level b2 l)) same_best
              ∙ ap (best_without (side_head b (level_at b l).side) l) (r2.forth l ∙ still))
            (LevelOut-after r2 (take_out-LevelOut b2 l)))))
