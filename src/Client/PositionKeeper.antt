-- ===== src/Client/PositionKeeper.antt =====
-- include/client/position_keeper.hpp: position, average prices and profit of each instrument.
pub mod Fills
use trading_system.Prelude.{
  ℕ, ◌+◌, ◌*◌, ◌/◌, ◌%◌, ◌^◌, Bool, ◌&&◌, ◌||◌, not, Result, ok, ◌>>◌, require, out_of_range, ltb,
  ◌==◌, if◌then◌else◌, update,
}
use trading_system.Prelude.Int.{ℤ, pos, ◌*ℤ◌, ltb_ℤ}
use trading_system.Types.{
  Side, buy, sell, is_buy, side_to_index, side_to_value, price_invalid, me_max_tickers,
}
use trading_system.Messages.{MeClientResponse}
use trading_system.Client.Double.{Double}
use trading_system.Client.Int32.{signed32, signed_volume, abs, is_zero, is_positive, is_negative}
use trading_system.Client.MarketBook.State.{Bbo, blank_bbo}

module _ (d : Double) where
  open d use {F, of_ℕ, of_ℤ, plus, minus, times, divide}

  pub record PositionInfo : Type 0 where
    pub position : ℤ
    pub real_pnl : F
    pub unreal_pnl : F
    pub total_pnl : F
    pub open_vwap : ℕ → F
    pub volume : ℕ
    pub bbo : Bbo

  unfoldable pub new_position : PositionInfo
  new_position = record {
    position = pos 0;
    real_pnl = of_ℕ 0;
    unreal_pnl = of_ℕ 0;
    total_pnl = of_ℕ 0;
    open_vwap = λ _. of_ℕ 0;
    volume = 0;
    bbo = blank_bbo;
  }

  abbrev pub opposite_side : Side → Side
  opposite_side s = if is_buy s then sell else buy

  -- The open position grows: the product is one of 64-bit integers.
  abbrev pub grow : PositionInfo → MeClientResponse → PositionInfo
  grow p r = record p {
    open_vwap =
        update p.open_vwap (side_to_index r.side)
          (plus (p.open_vwap (side_to_index r.side)) (of_ℕ (r.price * r.exec_qty % 2 ^ 64)));
  }

  -- `position_ * old_position < 0`.
  abbrev pub changes_sign : ℤ → ℤ → Bool
  changes_sign a b = (is_positive a && is_negative b) || (is_negative a && is_positive b)

  -- The fill goes against the old position `old`.
  unfoldable pub reduce : PositionInfo → ℤ → MeClientResponse → PositionInfo
  reduce p old r =
      let side = side_to_index r.side in
      let opp = side_to_index (opposite_side r.side) in
      let opp_side_vwap = divide (p.open_vwap opp) (of_ℕ (abs old)) in
      let executed : ℤ =
        if ltb_ℤ (pos (abs old)) (signed32 r.exec_qty)
        then pos (abs old)
        else signed32 r.exec_qty in
      let p1 : PositionInfo = record p {
        open_vwap = update p.open_vwap opp (times opp_side_vwap (of_ℕ (abs p.position)));
        real_pnl = plus p.real_pnl (
            times (times (of_ℤ executed) (minus opp_side_vwap (of_ℕ r.price)))
              (of_ℤ (side_to_value r.side)));
      } in
      if changes_sign p1.position old
      then record p1 {
        open_vwap =
            update (update p1.open_vwap side (of_ℕ (r.price * abs p1.position % 2 ^ 64))) opp
              (of_ℕ 0);
      }
      else p1

  -- Profit on the open position at `price`.
  unfoldable pub unrealised : PositionInfo → ℕ → F
  unrealised p price =
      let size = of_ℕ (abs p.position) in
      if is_positive p.position
      then times (minus (of_ℕ price) (divide (p.open_vwap (side_to_index buy)) size)) size
      else times (minus (divide (p.open_vwap (side_to_index sell)) size) (of_ℕ price)) size

  -- With no position the BUY entry is reset (twice), the SELL entry stays.
  unfoldable pub revalue : PositionInfo → ℕ → PositionInfo
  unfolding unrealised
  revalue p price =
      if is_zero p.position
      then record p {
        open_vwap = update p.open_vwap (side_to_index buy) (of_ℕ 0);
        unreal_pnl = of_ℕ 0;
      }
      else record p { unreal_pnl = unrealised p price }

  unfoldable pub add_fill : PositionInfo → MeClientResponse → PositionInfo
  unfolding reduce revalue
  add_fill p r =
      let p1 : PositionInfo = record p {
        volume = r.exec_qty;
        position = signed_volume r.exec_qty r.side;
      } in
      let p2 =
        if is_negative (p.position *ℤ side_to_value r.side)
        then reduce p1 p.position r
        else grow p1 r in
      let p3 = revalue p2 r.price in record p3 { total_pnl = plus p3.unreal_pnl p3.real_pnl }

  unfoldable pub update_bbo : PositionInfo → Bbo → PositionInfo
  unfolding unrealised
  update_bbo p bbo =
      let p1 = record p { bbo = bbo } in
      if not (is_zero p.position)
        && (not (bbo.ask_price == price_invalid) && not (bbo.bid_price == price_invalid))
      then record p1 {
        unreal_pnl = unrealised p1 ((bbo.ask_price + bbo.bid_price) % 2 ^ 64 / 2);
        total_pnl = plus p1.real_pnl (unrealised p1 ((bbo.ask_price + bbo.bid_price) % 2 ^ 64 / 2));
      }
      else p1

  -- `ticker_position_`, an array of `ME_MAX_TICKERS` entries; `at` ends the process out of bounds.
  abbrev pub PositionKeeper : Type 0
  PositionKeeper = ℕ → PositionInfo

  unfoldable pub keeper_add_fill : PositionKeeper → MeClientResponse → Result PositionKeeper
  keeper_add_fill k r =
      require (ltb r.ticker_id me_max_tickers) out_of_range
      >> ok (update k r.ticker_id (add_fill (k r.ticker_id) r))

  unfoldable pub keeper_update_bbo : PositionKeeper → ℕ → Bbo → Result PositionKeeper
  keeper_update_bbo k t bbo =
      require (ltb t me_max_tickers) out_of_range >> ok (update k t (update_bbo (k t) bbo))
