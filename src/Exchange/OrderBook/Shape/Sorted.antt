-- ===== src/Exchange/OrderBook/Shape/Sorted.antt =====
-- A new level between the better prices of its side and the worse ones.
use trading_system.Prelude.{
  ℕ, ◌≡◌, ◌≢◌, refl, sym, ap, ◌∙◌, ◌⊎◌, inl, inr, Bool, true, false, some, List, [], ◌∷◌, ◌++◌,
  arith, ltb, if◌then◌else◌, Bool-cases,
}
use trading_system.Links.Distinct.{◌∈◌}
use trading_system.Links.Neighbours.{first}
use trading_system.Types.{Side, buy, sell, is_buy}
use trading_system.Exchange.OrderBook.State.{MeOrdersAtPrice, MeOrderBook, level_at}
use trading_system.Exchange.OrderBook.Levels.{move_cond, is_better}
use trading_system.Exchange.OrderBook.Shape.{IsBetter, AreWorse, AreSorted, price_of}
use trading_system.Exchange.OrderBook.Shape.Place.{ahead, behind, ahead-behind}

abbrev pub IsTraded : Side → Type 0
IsTraded s = (s ≡ buy) ⊎ (s ≡ sell)

abbrev better : Side → ℕ → ℕ → Bool
better s p p' = if is_buy s then ltb p' p else ltb p p'

move_cond-better :
    (s : Side) (new curr : MeOrdersAtPrice)
    → IsTraded s
    → new.side ≡ s
    → move_cond new curr ≡ better s curr.price new.price
move_cond-better s new curr (inl e) f = rw (f, e) (ground arith)
move_cond-better s new curr (inr e) f = rw (f, e) (ground arith)

is_better-better :
    (s : Side) (new head : MeOrdersAtPrice)
    → IsTraded s
    → new.side ≡ s
    → is_better new head ≡ better s new.price head.price
is_better-better s new curr (inl e) f = rw (f, e) (ground arith)
is_better-better s new curr (inr e) f = rw (f, e) (ground arith)

better_trans :
    (s : Side) (p q r : ℕ) → better s p q ≡ true → better s q r ≡ true → better s p r ≡ true
better_trans s p q r e f = ground (arith, e, f)

better_else : (s : Side) (p q : ℕ) → better s p q ≡ false → p ≢ q → better s q p ≡ true
better_else s p q e n = ground (arith, e, n)

not_both : (s : Side) (p q : ℕ) → better s p q ≡ true → better s q p ≡ false
not_both s p q e = ground (arith, e)

module _ (b : MeOrderBook) (s : Side) where
  AreWorse-trans : (p q : ℕ) (ls : List ℕ) → IsBetter s p q → AreWorse b s q ls → AreWorse b s p ls
  AreWorse-trans p q [] e w = tt
  AreWorse-trans p q (l ∷ ls) e (v, w) =
      (better_trans s p q (price_of b l) e v, AreWorse-trans p q ls e w)

  AreWorse-in :
      (p : ℕ) (ls : List ℕ) (l : ℕ) (ms : List ℕ)
      → IsBetter s p (price_of b l)
      → AreWorse b s p (ls ++ ms)
      → AreWorse b s p (ls ++ (l ∷ ms))
  AreWorse-in p [] l ms e w = (e, w)
  AreWorse-in p (k ∷ ls) l ms e (v, w) = (v, AreWorse-in p ls l ms e w)

-- The prices of the listed levels decide.
AreWorse-on :
    (b b' : MeOrderBook) (s : Side) (p p' : ℕ) (ls : List ℕ)
    → p' ≡ p
    → ((k : ℕ) → k ∈ ls → price_of b' k ≡ price_of b k)
    → AreWorse b s p ls
    → AreWorse b' s p' ls
AreWorse-on b b' s p p' [] e f w = tt
AreWorse-on b b' s p p' (l ∷ ls) e f (v, w) =
    (rw (e, f l (ground arith)) v, AreWorse-on b b' s p p' ls e (λ k m. f k (ground (arith, m))) w)

pub AreSorted-on :
    (b b' : MeOrderBook) (s : Side) (ls : List ℕ)
    → ((k : ℕ) → k ∈ ls → price_of b' k ≡ price_of b k)
    → AreSorted b s ls
    → AreSorted b' s ls
AreSorted-on b b' s [] f w = tt
AreSorted-on b b' s (l ∷ ls) f (v, w) = (
  AreWorse-on b b' s (price_of b l) (price_of b' l) ls (f l (ground arith))
      (λ k m. f k (ground (arith, m))) v,
  AreSorted-on b b' s ls (λ k m. f k (ground (arith, m))) w,
)

module _ (b : MeOrderBook) (s : Side) (l : ℕ) (new : MeOrdersAtPrice) (traded : IsTraded s)
    (side : new.side ≡ s) (price : new.price ≡ price_of b l) where
  -- Between the better and the worse levels the new one is in its place.
  pub AreSorted-in :
      (ls : List ℕ)
      → ((k : ℕ) → k ∈ ls → price_of b k ≢ price_of b l)
      → AreSorted b s ls
      → AreSorted b s (ahead b new ls ++ (l ∷ behind b new ls))
  AreSorted-in [] n w = (tt, tt)
  AreSorted-in (k ∷ ls) n (v, w) =
      let test : move_cond new (level_at b k) ≡ better s (price_of b k) (price_of b l) =
        move_cond-better s new (level_at b k) traded side ∙ ap (better s (price_of b k)) price in
      elim (Bool-cases (move_cond new (level_at b k))) [
        | inl e ↦ rw e (
          AreWorse-in b s (price_of b k) (ahead b new ls) l (behind b new ls) (sym test ∙ e)
              (rw (ahead-behind b new ls) v),
          AreSorted-in ls (λ j m. n j (ground (arith, m))) w,
        )
        | inr e ↦
            let first_worse : better s (price_of b l) (price_of b k) ≡ true =
              better_else s (price_of b k) (price_of b l) (sym test ∙ e) (n k (ground arith)) in
            rw e (
              (first_worse, AreWorse-trans b s (price_of b l) (price_of b k) ls first_worse v),
              (v, w),
            )
      ]

  -- The new level is the head of its side exactly when no level is better.
  pub best-in :
      (k : ℕ) (ls : List ℕ)
      → price_of b k ≢ price_of b l
      → (if is_better new (level_at b k) then some l else some k)
        ≡ first (ahead b new (k ∷ ls) ++ (l ∷ behind b new (k ∷ ls)))
  best-in k ls n =
      let test : move_cond new (level_at b k) ≡ better s (price_of b k) (price_of b l) =
        move_cond-better s new (level_at b k) traded side ∙ ap (better s (price_of b k)) price in
      let lead : is_better new (level_at b k) ≡ better s (price_of b l) (price_of b k) =
        is_better-better s new (level_at b k) traded side
        ∙ ap (λ p. better s p (price_of b k)) price in
      elim (Bool-cases (move_cond new (level_at b k))) [
        | inl e ↦ rw (e, lead ∙ not_both s (price_of b k) (price_of b l) (sym test ∙ e)) refl
        | inr e ↦ rw (e, lead ∙ better_else s (price_of b k) (price_of b l) (sym test ∙ e) n) refl
      ]
