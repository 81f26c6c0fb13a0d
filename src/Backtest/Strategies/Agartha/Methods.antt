-- ===== src/Backtest/Strategies/Agartha/Methods.antt =====
-- backtest/strategies.py: the methods of AgarthaStrategy.
use generik_dbhistogram_data.Base.{⊤, false, Option, some, if◌then◌else◌}
use generik_dbhistogram_data.Base.Float.{Float, lit, lt, le}
use generik_dbhistogram_data.Backtest.Broker.{Side, buy, sell, other, Fill}
use generik_dbhistogram_data.Backtest.Engine.{Signal, StrategyContext, Strategy}
use generik_dbhistogram_data.Backtest.Engine.Bar.{price_of}
use generik_dbhistogram_data.Backtest.Strategies.{hold_for, is_zero}
use generik_dbhistogram_data.Backtest.Strategies.Agartha.{
  AgarthaParams, AgarthaState, AgarthaExport, get_or, bounded_params, new_state, close_cycle,
  observe_close,
}
use generik_dbhistogram_data.Backtest.Strategies.Agartha.Moves.{act}

module _ {A : Type 0} ⦃F : Float A⦄ (p : AgarthaParams A) where
  unfoldable pub on_bar :
      StrategyContext A (Option A) → AgarthaState A → AgarthaState A × Signal A ⊤
  on_bar ctx s =
      let price = price_of ctx.candle in
      if le price (lit 0 0)
      then (s, hold_for "invalid_price")
      else act p price (get_or ctx.candle.rest price) ctx.cash ctx.position_qty
          (observe_close ctx.position_qty s)

  unfoldable pub note_fill : Side → A → A → AgarthaState A → AgarthaState A
  note_fill buy price size s =
      if lt (lit 0 0) price
      then record s {
        entry_price = price;
        peak_price = price;
        bars_in_position = 0;
        trailing_active = is_zero p.activation_profit_pct;
        partial_tp_done = false;
        bars_since_last_close = 0;
      }
      else s
  note_fill sell price size s =
      if le (lit 999 3) (if is_zero size then lit 1 0 else size)
      then record (close_cycle s) { bars_since_last_close = 0 }
      else s
  note_fill other price size s = s

  unfoldable pub on_fill :
      Fill A → Signal A ⊤ → StrategyContext A (Option A) → AgarthaState A → AgarthaState A
  on_fill fill signal ctx s = note_fill fill.side fill.price signal.size_pct s

module _ {A : Type 0} ⦃F : Float A⦄ where
  unfoldable pub export_state : AgarthaState A → AgarthaExport A
  export_state s = record {
    entry_price = some s.entry_price;
    peak_price = some s.peak_price;
    bars_in_position = some s.bars_in_position;
    trailing_active = some s.trailing_active;
    partial_tp_done = some s.partial_tp_done;
    cycles_closed = some s.cycles_closed;
    bars_since_last_close = some s.bars_since_last_close;
    pending_limit_price = some s.pending_limit_price;
    bars_since_limit_placed = some s.bars_since_limit_placed;
  }

  unfoldable pub import_state : AgarthaExport A → AgarthaState A → AgarthaState A
  import_state e s = record {
    entry_price = get_or e.entry_price (lit 0 0);
    peak_price = get_or e.peak_price (lit 0 0);
    bars_in_position = get_or e.bars_in_position 0;
    trailing_active = get_or e.trailing_active false;
    partial_tp_done = get_or e.partial_tp_done false;
    cycles_closed = get_or e.cycles_closed 0;
    bars_since_last_close = get_or e.bars_since_last_close 0;
    pending_limit_price = get_or e.pending_limit_price (lit 0 0);
    bars_since_limit_placed = get_or e.bars_since_limit_placed 0;
  }

  -- The strategy with parameters `p`, as the engine sees it.
  unfoldable pub agartha :
      AgarthaParams A → Strategy A (Option A) (AgarthaState A) (AgarthaExport A) ⊤
  agartha p = record {
    on_start = λ candles. new_state;
    on_bar = on_bar (bounded_params p);
    on_fill = on_fill (bounded_params p);
    export_state = export_state;
    import_state = import_state;
  }
