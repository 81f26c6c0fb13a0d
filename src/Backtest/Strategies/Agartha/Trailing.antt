-- ===== src/Backtest/Strategies/Agartha/Trailing.antt =====
-- The backtest's trailing stop and the exit planner that the live bots ask.
use generik_dbhistogram_data.Base.{◌≡◌, ◌↔◌, true, false, ◌&&◌, Option, arith, inl, inr, Bool-cases}
use generik_dbhistogram_data.Base.Float.{Float, IsOrderedFloat, lit, lt, le, fmax}
use generik_dbhistogram_data.Backtest.Broker.{sell}
use generik_dbhistogram_data.Backtest.Engine.{StrategyContext}
use generik_dbhistogram_data.Backtest.Engine.Bar.{price_of}
use generik_dbhistogram_data.Backtest.ExitPlanner.{compute_trail_floor, breakeven_at, is_triggered}
use generik_dbhistogram_data.Backtest.Strategies.{hold_for, sell_for}
use generik_dbhistogram_data.Backtest.Strategies.Agartha.{
  AgarthaParams, AgarthaState, observe_close, below, above, note_bar,
}
use generik_dbhistogram_data.Backtest.Strategies.Agartha.Moves.{
  activate, strategy_floor, trail, take_partial, manage, act,
}
use generik_dbhistogram_data.Backtest.Strategies.Agartha.Methods.{on_bar}

module _ {A : Type 0} ⦃F : Float A⦄ (L : IsOrderedFloat F) where
  peak_pos : (peak price : A) → lt (lit 0 0) price ≡ true → lt (lit 0 0) (fmax peak price) ≡ true
  peak_pos peak price h = ground (arith, L.le_trans price peak (lit 0 0))

  -- A price above 0 is not at a floor that is not.
  low_floor :
      (floor price : A)
      → lt (lit 0 0) price ≡ true
      → le price floor ≡ (lt (lit 0 0) floor && le price floor)
  low_floor floor price h = ground (arith, L.le_trans price floor (lit 0 0))

  -- The floor of the strategy is that of the planner.
  floors_agree :
      (p : AgarthaParams A) (s : AgarthaState A)
      → lt (lit 0 0) s.entry_price ≡ true
      → lt (lit 0 0) p.trailing_stop_pct ≡ true
      → lt (lit 0 0) s.peak_price ≡ true
      → strategy_floor p s
        ≡ compute_trail_floor s.peak_price s.entry_price p.trailing_stop_pct p.breakeven_lock_pct
  unfolding strategy_floor compute_trail_floor breakeven_at below above
  floors_agree p s e t h = ground arith

  no_trailing :
      (p : AgarthaParams A) (s : AgarthaState A) (price : A)
      → lt (lit 0 0) p.trailing_stop_pct ≡ false
      → is_triggered
          (compute_trail_floor s.peak_price s.entry_price p.trailing_stop_pct p.breakeven_lock_pct)
          price
        ≡ false
  unfolding is_triggered compute_trail_floor
  no_trailing p s price t = ground (arith, L.lt_irrefl (lit 0 0))

  trail-triggered :
      (p : AgarthaParams A) (s : AgarthaState A) (price : A)
      → s.trailing_active ≡ true
      → lt (lit 0 0) price ≡ true
      → lt (lit 0 0) s.entry_price ≡ true
      → lt (lit 0 0) s.peak_price ≡ true
      → ((trail p price s).1.action ≡ sell) ↔ (
          is_triggered
            (compute_trail_floor s.peak_price s.entry_price p.trailing_stop_pct
              p.breakeven_lock_pct)
            price
          ≡ true)
  unfolding trail is_triggered hold_for sell_for
  trail-triggered p s price a h e k = elim (Bool-cases (lt (lit 0 0) p.trailing_stop_pct)) [
    | inl t ↦ (
      λ q. ground (arith, floors_agree p s e t k, low_floor (strategy_floor p s) price h),
      λ q. ground (arith, floors_agree p s e t k, low_floor (strategy_floor p s) price h),
    )
    | inr t ↦ (λ q. ground arith, λ q. ground (arith, no_trailing p s price t))
  ]

  reaches_trail :
      (p : AgarthaParams A) (ctx : StrategyContext A (Option A)) (s : AgarthaState A)
      → lt (lit 0 0) (price_of ctx.candle) ≡ true
      → lt (lit 0 0) ctx.position_qty ≡ true
      → lt (lit 0 0) s.entry_price ≡ true
      → s.trailing_active ≡ true
      → p.max_holding_bars ≡ 0
      → lt (lit 0 0) p.partial_tp_pct ≡ false
      → on_bar p ctx s ≡ trail p (price_of ctx.candle) (note_bar (price_of ctx.candle) s)
  unfolding on_bar act manage take_partial activate observe_close note_bar
  reaches_trail p ctx s h q e a m f = ground arith

  -- In a position, with the trailing stop active and neither a limit on its bars nor a partial profit
  -- to take: on a bar of a positive price the strategy sells exactly if the live exit planner, asked
  -- with the peak that takes in this bar, the entry and the same parameters, is triggered.
  pub on_bar-triggered :
      (p : AgarthaParams A) (ctx : StrategyContext A (Option A)) (s : AgarthaState A)
      → lt (lit 0 0) (price_of ctx.candle) ≡ true
      → lt (lit 0 0) ctx.position_qty ≡ true
      → lt (lit 0 0) s.entry_price ≡ true
      → s.trailing_active ≡ true
      → p.max_holding_bars ≡ 0
      → lt (lit 0 0) p.partial_tp_pct ≡ false
      → ((on_bar p ctx s).1.action ≡ sell) ↔ (
          is_triggered
            (compute_trail_floor
              (fmax s.peak_price (price_of ctx.candle))
              s.entry_price
              p.trailing_stop_pct
              p.breakeven_lock_pct)
            (price_of ctx.candle)
          ≡ true)
  unfolding note_bar
  on_bar-triggered p ctx s h q e a m f = rw (reaches_trail p ctx s h q e a m f) (
      trail-triggered p (note_bar (price_of ctx.candle) s) (price_of ctx.candle) a h e
        (peak_pos s.peak_price (price_of ctx.candle) h))
