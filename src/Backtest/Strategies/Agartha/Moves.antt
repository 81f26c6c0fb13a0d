-- ===== src/Backtest/Strategies/Agartha/Moves.antt =====
-- backtest/strategies.py: what AgarthaStrategy.on_bar does without a position and in one.
use generik_dbhistogram_data.Base.{⊤, suc, ◌==◌, true, not, ◌&&◌, ◌||◌, ltb, leb, if◌then◌else◌}
use generik_dbhistogram_data.Base.Float.{Float, lit, lt, le, fmax}
use generik_dbhistogram_data.Backtest.Engine.{Signal}
use generik_dbhistogram_data.Backtest.Strategies.{
  hold_for, buy_for, sell_for, part_of_cash, is_zero,
}
use generik_dbhistogram_data.Backtest.Strategies.Agartha.{
  AgarthaParams, AgarthaState, below, above, note_bar,
}

module _ {A : Type 0} ⦃F : Float A⦄ (p : AgarthaParams A) where
  -- A limit order that this bar has not filled.
  unfoldable pub wait_limit : A → AgarthaState A → AgarthaState A × Signal A ⊤
  wait_limit price s =
      if ltb 0 p.entry_limit_expiry_bars && leb p.entry_limit_expiry_bars s.bars_since_limit_placed
      then (if p.entry_limit_reprice_on_expiry
          then (
            record s {
              pending_limit_price = below price p.entry_limit_offset_pct;
              bars_since_limit_placed = 0;
            },
            hold_for "agartha_limit_repriced",
          )
          else (
            record s { pending_limit_price = lit 0 0; bars_since_limit_placed = 0 },
            hold_for "agartha_limit_expired_no_fill",
          ))
      else (s, hold_for "agartha_limit_pending")

  unfoldable pub enter_by_limit : A → A → A → AgarthaState A → AgarthaState A × Signal A ⊤
  enter_by_limit price bar_low size s =
      if le s.pending_limit_price (lit 0 0)
      then (
        record s {
          pending_limit_price = below price p.entry_limit_offset_pct;
          bars_since_limit_placed = 0;
        },
        hold_for "agartha_limit_placed",
      )
      else if le bar_low s.pending_limit_price
      then (
        record s { pending_limit_price = lit 0 0; bars_since_limit_placed = 0 },
        buy_for size (
            if s.cycles_closed == 0
            then "agartha_limit_fill_initial"
            else "agartha_limit_fill_reentry"),
      )
      else wait_limit price (record s { bars_since_limit_placed = suc s.bars_since_limit_placed })

  -- No position.
  unfoldable pub enter : A → A → A → AgarthaState A → AgarthaState A × Signal A ⊤
  enter price bar_low cash s =
      if ltb 0 p.max_cycles && leb p.max_cycles s.cycles_closed
      then (s, hold_for "agartha_max_cycles_reached")
      else if ltb 0 p.reentry_cooldown_bars
          && ltb 0 s.cycles_closed
          && ltb s.bars_since_last_close p.reentry_cooldown_bars
      then (
        record s { bars_since_last_close = suc s.bars_since_last_close },
        hold_for "agartha_reentry_cooldown",
      )
      else if lt cash p.quote_order_qty_usdt
      then (s, hold_for "insufficient_cash")
      else if lt (lit 0 0) p.entry_limit_offset_pct
      then enter_by_limit price bar_low (part_of_cash p.quote_order_qty_usdt cash) s
      else (
        s,
        buy_for (part_of_cash p.quote_order_qty_usdt cash)
            (if s.cycles_closed == 0 then "agartha_initial_entry" else "agartha_reentry"),
      )

  unfoldable pub activate : A → AgarthaState A → AgarthaState A
  activate price s =
      if not s.trailing_active && lt (lit 0 0) p.activation_profit_pct
      then (if le (above s.entry_price p.activation_profit_pct) price
          then record s { trailing_active = true }
          else s)
      else if not s.trailing_active && is_zero p.activation_profit_pct
      then record s { trailing_active = true }
      else s

  unfoldable pub strategy_floor : AgarthaState A → A
  strategy_floor s =
      let floor = below s.peak_price p.trailing_stop_pct in
      if lt (lit 0 0) p.breakeven_lock_pct
      then (if le (above s.entry_price p.breakeven_lock_pct) s.peak_price
          then fmax floor s.entry_price
          else floor)
      else floor

  unfoldable pub trail : A → AgarthaState A → AgarthaState A × Signal A ⊤
  trail price s =
      if s.trailing_active
        && lt (lit 0 0) p.trailing_stop_pct
        && lt (lit 0 0) s.peak_price
        && le price (strategy_floor s)
      then (s, sell_for (lit 1 0) "agartha_trailing_stop")
      else (s, hold_for "")

  unfoldable pub take_partial : A → AgarthaState A → AgarthaState A × Signal A ⊤
  take_partial price s =
      if not s.partial_tp_done
        && lt (lit 0 0) p.partial_tp_pct
        && lt (lit 0 0) p.partial_tp_size_pct
        && le (above s.entry_price p.partial_tp_pct) price
      then (
        record s { partial_tp_done = true },
        sell_for p.partial_tp_size_pct "agartha_partial_tp",
      )
      else trail price s

  -- A position, and the bar is noted.
  unfoldable pub manage : A → AgarthaState A → AgarthaState A × Signal A ⊤
  manage price s =
      if ltb 0 p.max_holding_bars && leb p.max_holding_bars s.bars_in_position
      then (s, sell_for (lit 1 0) "agartha_time_stop")
      else take_partial price (activate price s)

  unfoldable pub act : A → A → A → A → AgarthaState A → AgarthaState A × Signal A ⊤
  act price bar_low cash position s =
      if le position (lit 0 0) || le s.entry_price (lit 0 0)
      then enter price bar_low cash s
      else manage price (note_bar price s)
