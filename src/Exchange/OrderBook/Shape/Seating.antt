-- ===== src/Exchange/OrderBook/Shape/Seating.antt =====
-- `AddOrderAtPrice`: a new level takes its place among the levels of its side.
use mathlib.Core.List.{append-nil}
use trading_system.Prelude.{
  ℕ, ◌<◌, ◌≤◌, ◌≡◌, ◌≢◌, refl, sym, ap, ◌∙◌, none, some, List, [], ◌∷◌, ◌++◌, arith, if◌then◌else◌,
  length, Returns, gives, Returns-bind, ok, ◌>>=◌, update,
}
use mathlib.Core.Path.{subst}
use trading_system.Links.Distinct.{has, ◌∈◌, ◌∉◌, has-append, ne_of_in}
use trading_system.Links.Ring.{Link, Ring, Ring-rotate, Ring-in, last, last-in}
use trading_system.Links.Neighbours.{first}
use trading_system.Types.{Side}
use trading_system.Exchange.OrderBook.State.{
  MeOrdersAtPrice, MeOrderBook, level_at, side_head, set_side_head, set_level, set_order_at_price,
  price_to_index,
}
use trading_system.Exchange.OrderBook.Levels.{
  add_order_at_price, search_place, splice_level, is_better,
}
use trading_system.Exchange.OrderBook.Shape.{next_level, prev_level, price_of}
use trading_system.Exchange.OrderBook.Shape.Splice.{splice_level-LevelJoined}
use trading_system.Exchange.OrderBook.Shape.Place.{
  first_or, ahead, behind, ahead-behind, search_place-behind,
}
use trading_system.Exchange.OrderBook.Shape.Sorted.{IsTraded, best-in}
use trading_system.Exchange.OrderBook.Shape.Seated.{
  Seated, Seated-headed, alone-Seated, turned-in, Ring-turn,
}

-- Level `l` goes in before `curr`, which the search has found.
module _ (b : MeOrderBook) (s : Side) (l : ℕ) (new : MeOrdersAtPrice) (traded : IsTraded s)
    (side : new.side ≡ s) (price : new.price ≡ price_of b l) where
  placed :
      (h : ℕ) (ms xs : List ℕ) (y : ℕ) (ys zs : List ℕ)
      → xs ++ (y ∷ ys) ≡ h ∷ ms
      → Ring (next_level b) (prev_level b) (h ∷ ms)
      → l ∉ (h ∷ ms)
      → side_head b s ≡ some h
      → price_of b h ≢ price_of b l
      → ((n p : Link) → Ring n p (xs ++ (l ∷ y ∷ ys)) → Ring n p zs)
      → zs ≡ ahead b new (h ∷ ms) ++ (l ∷ behind b new (h ∷ ms))
      → Returns (Seated b s l (h ∷ ms) zs) (do
        b1 ← splice_level b l y
        ok (if is_better new (level_at b1 h) then set_side_head b1 new.side (some l) else b1))
  placed h ms xs y ys zs split r out best n turn order =
      let r' : Ring (next_level b) (prev_level b) (xs ++ (y ∷ ys)) = rw split r in
      let out' : l ∉ (xs ++ (y ∷ ys)) = rw split out in
      let (forth, back) = Ring-turn xs y ys r' in
      let before = last y (ys ++ xs) in
      let before_in : before ∈ (xs ++ (y ∷ ys)) = turned-in before xs y ys (last-in y (ys ++ xs)) in
      let y_in : y ∈ (xs ++ (y ∷ ys)) = ground (arith, has-append y xs (y ∷ ys)) in
      Returns-bind
        (splice_level-LevelJoined b l before y back forth
          (λ e. ne_of_in before l (xs ++ (y ∷ ys)) before_in out' (sym e))
          (λ e. ne_of_in y l (xs ++ (y ∷ ys)) y_in out' (sym e)))
        λ b1 d.
          let ring =
            turn (next_level b1) (prev_level b1) (Ring-in xs l y ys before r' out' back d.links) in
          subst
            (λ u.
              Returns (Seated b s l (h ∷ ms) zs)
                (ok (if is_better new (level_at b1 h) then set_side_head b1 u (some l) else b1)))
            (sym side)
            (gives (
              Seated-headed d (is_better new (level_at b1 h)) ring
                (ap (has before) (sym split) ∙ before_in) (ap (has y) (sym split) ∙ y_in)
                (ap (λ v. if is_better new v then some l else side_head b s) (d.data_of h)
                  ∙ ap (λ p. if is_better new (level_at b h) then some l else p) best
                  ∙ best-in b s l new traded side price h ms n
                  ∙ ap first (sym order))))

  -- The search and what follows it.
  seat :
      (h : ℕ) (ms : List ℕ)
      → Ring (next_level b) (prev_level b) (h ∷ ms)
      → l ∉ (h ∷ ms)
      → side_head b s ≡ some h
      → price_of b h ≢ price_of b l
      → length ms < b.orders_at_price_pool.size
      → Returns (Seated b s l (h ∷ ms) (ahead b new (h ∷ ms) ++ (l ∷ behind b new (h ∷ ms)))) (do
        curr ← search_place b new h
        b1 ← splice_level b l curr
        ok (if is_better new (level_at b1 h) then set_side_head b1 new.side (some l) else b1))
  seat h ms r out best n bound =
      rw (search_place-behind b new h ms r.linked r.distinct.0 bound)
        (by_place (behind b new (h ∷ ms)) refl)
    where
      ls : List ℕ
      ls = h ∷ ms

      by_place :
          (later : List ℕ)
          → behind b new ls ≡ later
          → Returns (Seated b s l ls (ahead b new ls ++ (l ∷ behind b new ls))) (do
            b1 ← splice_level b l (first_or h later)
            ok (if is_better new (level_at b1 h) then set_side_head b1 new.side (some l) else b1))
      by_place [] e =
          let all_ahead : ahead b new ls ≡ ls =
            sym (append-nil (ahead b new ls))
            ∙ ap (λ z. ahead b new ls ++ z) (sym e)
            ∙ ahead-behind b new ls in
          placed h ms [] h ms (ahead b new ls ++ (l ∷ behind b new ls)) refl r out best n
            (λ x y z.
              subst (Ring x y)
                (ap (λ u. u ++ (l ∷ [])) (sym all_ahead)
                  ∙ ap (λ u. ahead b new ls ++ (l ∷ u)) (sym e))
                (Ring-rotate x y (l ∷ []) ls z))
            refl
      by_place (y ∷ ys) e =
          placed h ms (ahead b new ls) y ys (ahead b new ls ++ (l ∷ behind b new ls))
            (ap (λ u. ahead b new ls ++ u) (sym e) ∙ ahead-behind b new ls) r out best n
            (λ u v z. subst (λ w. Ring u v (ahead b new ls ++ (l ∷ w))) (sym e) z) refl

-- The table with level `l` at its price.
abbrev pub tabled : MeOrderBook → ℕ → MeOrderBook
tabled b l = record b {
  price_to_orders_at_price =
      update b.price_to_orders_at_price (price_to_index (price_of b l)) (some l);
}

-- The levels of the side, once the new one is among them.
abbrev pub seated : MeOrderBook → ℕ → List ℕ → List ℕ
seated b l ls = ahead (tabled b l) (level_at b l) ls ++ (l ∷ behind (tabled b l) (level_at b l) ls)

add_to_none :
    (b : MeOrderBook) (l : ℕ)
    → side_head b (level_at b l).side ≡ none
    → add_order_at_price b l
      ≡ ok (
          set_level
            (set_side_head (tabled b l) (level_at b l).side (some l))
            l
            (record (level_at b l) { next = some l; prev = some l }))
unfolding add_order_at_price set_order_at_price
add_to_none b l e = rw (add_order_at_price, e) refl

add_to_some :
    (b : MeOrderBook) (l h : ℕ)
    → side_head b (level_at b l).side ≡ some h
    → add_order_at_price b l ≡ (do
      curr ← search_place (tabled b l) (level_at b l) h
      b1 ← splice_level (tabled b l) l curr
      ok (
          if is_better (level_at b l) (level_at b1 h)
          then set_side_head b1 (level_at b l).side (some l)
          else b1))
unfolding add_order_at_price set_order_at_price
add_to_some b l h e = rw (add_order_at_price, e) refl

pub add_order_at_price-Seated :
    (b : MeOrderBook) (s : Side) (l : ℕ) (ls : List ℕ)
    → IsTraded s
    → (level_at b l).side ≡ s
    → Ring (next_level b) (prev_level b) ls
    → l ∉ ls
    → side_head b s ≡ first ls
    → ((k : ℕ) → k ∈ ls → price_of b k ≢ price_of b l)
    → length ls ≤ b.orders_at_price_pool.size
    → Returns (Seated (tabled b l) s l ls (seated b l ls)) (add_order_at_price b l)
add_order_at_price-Seated b s l [] traded side r out best n bound =
    let nothing : side_head b (level_at b l).side ≡ none = ap (side_head b) side ∙ best in
    rw (add_to_none b l nothing) (
      subst
        (λ u. Returns (Seated (tabled b l) s l [] (l ∷ [])) (
          ok (
            set_level (set_side_head (tabled b l) u (some l)) l
              (record (level_at b l) { next = some l; prev = some l }))))
        (sym side) (gives (alone-Seated (tabled b l) s l)))
add_order_at_price-Seated b s l (h ∷ ms) traded side r out best n bound =
    let there : side_head b (level_at b l).side ≡ some h = ap (side_head b) side ∙ best in
    rw (add_to_some b l h there) (
      seat (tabled b l) s l (level_at b l) traded side refl h ms r out best (n h (ground arith))
        (omega (arith, bound)))
