-- ===== src/Exchange/OrderBook/Shape/Place.antt =====
-- Where `AddOrderAtPrice` puts a level: the search along the ring, and the order of the prices.
use trading_system.Prelude.{
  ℕ, zero, suc, ◌+◌, ◌<◌, ◌≡◌, refl, ap, ◌∙◌, inl, inr, true, false, some, List, [], ◌∷◌, ◌++◌,
  arith, ◌==◌, if◌then◌else◌, Bool-cases, length, ok, deref, ◌>>=◌,
}
use trading_system.Links.Distinct.{◌∉◌}
use trading_system.Links.Ring.{Chain}
use trading_system.Exchange.OrderBook.State.{MeOrdersAtPrice, MeOrderBook, level_at}
use trading_system.Exchange.OrderBook.Levels.{move_cond, find_place, search_place}
use trading_system.Exchange.OrderBook.Shape.{next_level, prev_level}

abbrev pub first_or : ℕ → List ℕ → ℕ
first_or h [] = h
first_or h (x ∷ xs) = x

module _ (b : MeOrderBook) (new : MeOrdersAtPrice) where
  -- The levels with better prices than the new one, and the others.
  abbrev pub ahead : List ℕ → List ℕ
  ahead [] = []
  ahead (l ∷ ls) = if move_cond new (level_at b l) then l ∷ ahead ls else []

  abbrev pub behind : List ℕ → List ℕ
  behind [] = []
  behind (l ∷ ls) = if move_cond new (level_at b l) then behind ls else l ∷ ls

  pub ahead-behind : (ls : List ℕ) → ahead ls ++ behind ls ≡ ls
  ahead-behind [] = refl
  ahead-behind (l ∷ ls) = elim (Bool-cases (move_cond new (level_at b l))) [
    | inl e ↦ rw e (ap (λ x. l ∷ x) (ahead-behind ls))
    | inr e ↦ rw e refl
  ]

  stops : (fuel h curr : ℕ) → 0 < fuel → find_place fuel b new h curr false ≡ ok curr
  unfolding find_place
  stops zero h curr f = absurd (omega arith)
  stops (suc fuel) h curr f = refl

  find_place-behind :
      (fuel x h : ℕ) (ls : List ℕ)
      → Chain (next_level b) (prev_level b) x ls h
      → h ∉ ls
      → length ls + 1 < fuel
      → find_place fuel b new h (first_or h ls) true ≡ ok (first_or h (behind ls))
  unfolding find_place
  find_place-behind zero x h ls c o f = absurd (omega arith)
  find_place-behind (suc fuel) x h [] c o f =
      let here : (h == h) ≡ true = ground arith in rw (find_place, here) refl
  find_place-behind (suc fuel) x h (l ∷ ls) (n, p, c) o f =
      let other : (l == h) ≡ false = ground (arith, o) in
      elim (Bool-cases (move_cond new (level_at b l))) [
        | inl e ↦
            rw (find_place, other, e, next_of ls l c)
              (find_place-behind fuel l h ls c (ground (arith, o)) (omega arith))
        | inr e ↦ rw (find_place, other, e) (stops fuel h l (omega arith))
      ]
    where
      next_of :
          (ms : List ℕ) (y : ℕ)
          → Chain (next_level b) (prev_level b) y ms h
          → (level_at b y).next ≡ some (first_or h ms)
      next_of [] y c' = c'.0
      next_of (m ∷ ms) y c' = c'.0

  -- The search ends at the first level whose price is not better, or at the head when all are.
  pub search_place-behind :
      (h : ℕ) (ls : List ℕ)
      → Chain (next_level b) (prev_level b) h ls h
      → h ∉ ls
      → length ls < b.orders_at_price_pool.size
      → search_place b new h ≡ ok (first_or h (behind (h ∷ ls)))
  unfolding search_place
  search_place-behind h ls c o f = elim (Bool-cases (move_cond new (level_at b h))) [
    | inl e ↦ rw (search_place, e) (from_second ls c o f e)
    | inr e ↦ rw (search_place, e) (stops (b.orders_at_price_pool.size + 2) h h (omega arith))
  ]
    where
      from_second :
          (ms : List ℕ)
          → Chain (next_level b) (prev_level b) h ms h
          → h ∉ ms
          → length ms < b.orders_at_price_pool.size
          → move_cond new (level_at b h) ≡ true
          → (deref (level_at b h).next >>= λ curr.
              find_place
                (b.orders_at_price_pool.size + 2)
                b
                new
                h
                curr
                (move_cond new (level_at b curr)))
            ≡ ok (first_or h (behind ms))
      from_second [] d q g e =
          rw (d.0, e) (find_place-behind (b.orders_at_price_pool.size + 2) h h [] d q (omega arith))
      from_second (m ∷ ms) d q g e = elim (Bool-cases (move_cond new (level_at b m))) [
        | inl e' ↦
            rw (d.0, e')
              (find_place-behind (b.orders_at_price_pool.size + 2) h h (m ∷ ms) d q (omega arith)
                ∙ rw e' refl)
        | inr e' ↦ rw (d.0, e') (stops (b.orders_at_price_pool.size + 2) h m (omega arith))
      ]
