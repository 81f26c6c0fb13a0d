-- ===== src/Backtest/Strategies/Agartha.antt =====
-- backtest/strategies.py: AgarthaStrategy, the backtest of the bots that the cluster runs. What a
-- candle's dict holds besides its price is its "low", if it has one.
pub mod Moves
pub mod Methods
pub mod Trailing
pub mod Cycles
pub mod Restart
use generik_dbhistogram_data.Base.{
  ⊤, ℕ, suc, ◌==◌, Bool, true, false, not, ◌&&◌, ◌||◌, Option, none, some, ltb, leb, if◌then◌else◌,
}
use generik_dbhistogram_data.Base.Float.{Float, lit, add, sub, mul, div, lt, le, fmax, fmin}
use generik_dbhistogram_data.Backtest.Broker.{Side, buy, sell, other, Fill}
use generik_dbhistogram_data.Backtest.Engine.{Candle, Signal, StrategyContext, Strategy}
use generik_dbhistogram_data.Backtest.Engine.Bar.{price_of}
use generik_dbhistogram_data.Backtest.Strategies.{
  hold_for, buy_for, sell_for, part_of_cash, is_zero,
}

pub record AgarthaParams (A : Type 0) : Type 0 where
  pub quote_order_qty_usdt : A
  pub trailing_stop_pct : A
  pub activation_profit_pct : A
  pub max_holding_bars : ℕ
  pub breakeven_lock_pct : A
  pub partial_tp_pct : A
  pub partial_tp_size_pct : A
  pub max_cycles : ℕ
  pub reentry_cooldown_bars : ℕ
  pub entry_limit_offset_pct : A
  pub entry_limit_expiry_bars : ℕ
  pub entry_limit_reprice_on_expiry : Bool

pub record AgarthaState (A : Type 0) : Type 0 where
  pub entry_price : A
  pub peak_price : A
  pub bars_in_position : ℕ
  pub trailing_active : Bool
  pub partial_tp_done : Bool
  pub cycles_closed : ℕ
  pub bars_since_last_close : ℕ
  pub pending_limit_price : A
  pub bars_since_limit_placed : ℕ

-- The dict of `export_state`; a key may be missing in one that is imported.
pub record AgarthaExport (A : Type 0) : Type 0 where
  pub entry_price : Option A
  pub peak_price : Option A
  pub bars_in_position : Option ℕ
  pub trailing_active : Option Bool
  pub partial_tp_done : Option Bool
  pub cycles_closed : Option ℕ
  pub bars_since_last_close : Option ℕ
  pub pending_limit_price : Option A
  pub bars_since_limit_placed : Option ℕ

-- `state.get(key, default)`
unfoldable pub get_or {ℓ} : {T : Type ℓ} → Option T → T → T
get_or none default = default
get_or (some v) default = v

module _ {A : Type 0} ⦃F : Float A⦄ where
  -- The bounds that the constructor puts on the parameters.
  unfoldable pub bounded_params : AgarthaParams A → AgarthaParams A
  bounded_params p = record p {
    quote_order_qty_usdt = fmax (lit 1 1) p.quote_order_qty_usdt;
    trailing_stop_pct = fmax (lit 0 0) p.trailing_stop_pct;
    activation_profit_pct = fmax (lit 0 0) p.activation_profit_pct;
    breakeven_lock_pct = fmax (lit 0 0) p.breakeven_lock_pct;
    partial_tp_pct = fmax (lit 0 0) p.partial_tp_pct;
    partial_tp_size_pct = fmax (lit 0 0) (fmin (lit 1 0) p.partial_tp_size_pct);
    entry_limit_offset_pct = fmax (lit 0 0) p.entry_limit_offset_pct;
  }

  unfoldable pub new_state : AgarthaState A
  new_state = record {
    entry_price = lit 0 0;
    peak_price = lit 0 0;
    bars_in_position = 0;
    trailing_active = false;
    partial_tp_done = false;
    cycles_closed = 0;
    bars_since_last_close = 0;
    pending_limit_price = lit 0 0;
    bars_since_limit_placed = 0;
  }

  unfoldable pub reset_position_state : AgarthaState A → AgarthaState A
  reset_position_state s = record s {
    entry_price = lit 0 0;
    peak_price = lit 0 0;
    bars_in_position = 0;
    trailing_active = false;
    partial_tp_done = false;
    pending_limit_price = lit 0 0;
    bars_since_limit_placed = 0;
  }

  unfoldable pub close_cycle : AgarthaState A → AgarthaState A
  close_cycle s = reset_position_state (record s { cycles_closed = suc s.cycles_closed })

  -- The broker is flat although an entry is noted.
  unfoldable pub observe_close : A → AgarthaState A → AgarthaState A
  observe_close position s =
      if lt (lit 0 0) s.entry_price && le position (lit 0 0) then close_cycle s else s

  -- `price * (1.0 - pct / 100.0)` and `price * (1.0 + pct / 100.0)`
  unfoldable pub below : A → A → A
  below price pct = mul price (sub (lit 1 0) (div pct (lit 100 0)))

  unfoldable pub above : A → A → A
  above price pct = mul price (add (lit 1 0) (div pct (lit 100 0)))

  unfoldable pub note_bar : A → AgarthaState A → AgarthaState A
  note_bar price s = record s {
    bars_in_position = suc s.bars_in_position;
    peak_price = if lt s.peak_price price then price else s.peak_price;
  }
