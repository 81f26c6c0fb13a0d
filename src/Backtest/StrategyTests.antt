-- ===== src/Backtest/StrategyTests.antt =====
-- The theorems on the strategies, in whole prices and percents.
use mathlib.Core.List.{Memᴰ}
use generik_dbhistogram_data.Base.{
  ℕ, ◌+◌, ◌≤◌, ◌≡◌, ◌↔◌, ◌⊎◌, refl, true, false, Option, none, some, List, [], ◌∷◌,
}
use generik_dbhistogram_data.Base.Float.{fmax}
use generik_dbhistogram_data.Base.Lists.{All, length}
use generik_dbhistogram_data.Base.Whole.{whole, whole-IsOrderedFloat}
use generik_dbhistogram_data.Backtest.Broker.{
  mark_equity, slipped_price, clamp_size, buy_qty, buy_state, execute_buy, sell_state, execute_sell,
  sell, new_broker, execute_market,
}
use generik_dbhistogram_data.Backtest.Broker.Solvency.{IsFair}
use generik_dbhistogram_data.Backtest.Engine.{
  positive, too_early, is_clamped, has_passed, bar_due, time_due, anchored, is_some,
  checkpointing_enabled, offset_before, Candle, EngineConfig, StrategyContext, lite, Checkpoint,
}
use generik_dbhistogram_data.Backtest.Engine.Bar.{
  price_of, mark_executed, append, close_trade, book_trade, bar_event, after_hold, after_order,
  after_signal, process_bar, take_checkpoint, run_trigger, triggered, step_bar, snapshot_due,
}
use generik_dbhistogram_data.Backtest.Engine.Run.{
  get, seed_broker, start_core, empty_logs, is_skipped, Opening, run_bars, run_backtest,
  resume_backtest, resume_logs,
}
use generik_dbhistogram_data.Backtest.Engine.Shift.{Alike}
use generik_dbhistogram_data.Backtest.Engine.Solvency.{PosPrice}
use generik_dbhistogram_data.Backtest.Engine.Checkpoints.{TakenAt}
use generik_dbhistogram_data.Backtest.Engine.Reentry.{start, reached, resumed}
use generik_dbhistogram_data.Backtest.ExitPlanner.{is_triggered, compute_trail_floor}
use generik_dbhistogram_data.Backtest.Strategies.{
  hold_for, buy_for, sell_for, part_of_cash, is_zero,
}
use generik_dbhistogram_data.Backtest.Strategies.Agartha.{
  AgarthaParams, AgarthaState, AgarthaExport, get_or, bounded_params, new_state,
  reset_position_state, close_cycle, observe_close, below, above, note_bar,
}
use generik_dbhistogram_data.Backtest.Strategies.Agartha.Moves.{
  wait_limit, enter_by_limit, enter, activate, strategy_floor, trail, take_partial, manage, act,
}
use generik_dbhistogram_data.Backtest.Strategies.Agartha.Methods.{
  on_bar, note_fill, on_fill, export_state, import_state, agartha,
}
use generik_dbhistogram_data.Backtest.Strategies.Turns.{Turn, play_turns, play_turn, after_fill}
use generik_dbhistogram_data.Backtest.Strategies.Dorothy
use generik_dbhistogram_data.Backtest.Strategies.Dorothy.{
  DorothyParams, dorothy, work_limits, hit_limits, sell_hit, positive_limits, note_purchase,
  bounded_notional, consider_buy, buy_more, buy_the_drop,
}
use generik_dbhistogram_data.Backtest.Strategies.Dorothy.Ladder.{limits_bounded}
use generik_dbhistogram_data.Backtest.Strategies.Dorothy.Costs.{
  IsCovered, purchases, sells_at_cost_or_above,
}
use generik_dbhistogram_data.Backtest.Strategies.Agartha.Trailing.{on_bar-triggered}
use generik_dbhistogram_data.Backtest.Strategies.Agartha.Cycles.{play, held, purchases_bounded}
use generik_dbhistogram_data.Backtest.Strategies.Agartha.Restart.{agartha_repeats_run}

abbrev moonshot : AgarthaParams ℕ
moonshot = record {
  quote_order_qty_usdt = 10;
  trailing_stop_pct = 100;
  activation_profit_pct = 0;
  max_holding_bars = 0;
  breakeven_lock_pct = 0;
  partial_tp_pct = 0;
  partial_tp_size_pct = 0;
  max_cycles = 1;
  reentry_cooldown_bars = 0;
  entry_limit_offset_pct = 0;
  entry_limit_expiry_bars = 0;
  entry_limit_reprice_on_expiry = false;
}

abbrev candle : ℕ → ℕ → Candle ℕ (Option ℕ)
candle minute price = record { open_time = minute; close = price; price_source = none; rest = none }

abbrev candles : List (Candle ℕ (Option ℕ))
candles = candle 60000 10 ∷ candle 120000 12 ∷ candle 180000 11 ∷ []

abbrev context : ℕ → ℕ → ℕ → StrategyContext ℕ (Option ℕ)
context price cash position = record {
  index = 0;
  candle = candle 60000 price;
  candles = candles;
  cash = cash;
  position_qty = position;
  avg_entry = price;
  equity = cash;
}

abbrev riding : AgarthaState ℕ
riding = record {
  entry_price = 10;
  peak_price = 20;
  bars_in_position = 3;
  trailing_active = true;
  partial_tp_done = false;
  cycles_closed = 0;
  bars_since_last_close = 0;
  pending_limit_price = 0;
  bars_since_limit_placed = 0;
}

on_bar-triggered_example :
    ((on_bar moonshot (context 15 0 100) riding).1.action ≡ sell)
    ↔ (is_triggered {A = ℕ} (compute_trail_floor (fmax 20 15) 10 100 0) 15 ≡ true)
unfolding whole price_of
on_bar-triggered_example =
    on_bar-triggered whole-IsOrderedFloat moonshot (context 15 0 100) riding refl refl refl refl
      refl refl

-- Bought at the first bar and sold at the second; the third buys no more.
abbrev turns : List (Turn ℕ (Option ℕ))
turns =
    record { ctx = context 10 1000 0; filled = some (10, 100, 0) }
    ∷ record { ctx = context 12 0 100; filled = some (12, 100, 0) }
    ∷ record { ctx = context 11 1200 0; filled = some (11, 100, 0) }
    ∷ []

purchases_bounded_example :
    ((play moonshot turns (new_state, 0)).1
      ≡ (play moonshot turns (new_state, 0)).0.cycles_closed
        + held (play moonshot turns (new_state, 0)).0)
    × ((◌≡◌ {A = ℕ} 1 0) ⊎ ((play moonshot turns (new_state, 0)).1 ≤ 1))
purchases_bounded_example = purchases_bounded whole-IsOrderedFloat moonshot turns

abbrev config : EngineConfig
config = record {
  loop_seconds = none;
  events_mode = lite;
  snapshot_seconds = 60;
  checkpoint_every_bars = some 2;
  checkpoint_every_sim_seconds = none;
  has_checkpoints_dir = true;
}

abbrev nothing : AgarthaExport ℕ
nothing = record {
  entry_price = none;
  peak_price = none;
  bars_in_position = none;
  trailing_active = none;
  partial_tp_done = none;
  cycles_closed = none;
  bars_since_last_close = none;
  pending_limit_price = none;
  bars_since_limit_placed = none;
}

abbrev opening : Opening ℕ (AgarthaExport ℕ)
opening = record {
  initial_cash = 1000;
  fee_rate = 0;
  slippage_bps = 0;
  broker_seed = record { cash = none; position_qty = none; avg_entry = none };
  strategy_seed = nothing;
}

abbrev second_bar : Checkpoint ℕ (AgarthaExport ℕ)
second_bar = record {
  sim_ts = 120000;
  candle_offset = some 0;
  broker_state = record { cash = 0; position_qty = 100; avg_entry = 10 };
  strategy_state = record {
    entry_price = some 10;
    peak_price = some 10;
    bars_in_position = some 0;
    trailing_active = some true;
    partial_tp_done = some false;
    cycles_closed = some 0;
    bars_since_last_close = some 0;
    pending_limit_price = some 0;
    bars_since_limit_placed = some 0;
  };
  seq = 1;
  last_exec_ts = some 120000;
  last_snapshot_ts = none;
  last_trade_entry = some (10, 100);
}

second_bar_taken :
    Memᴰ second_bar (run_backtest (agartha moonshot) config opening candles).1.checkpoints
unfolding whole run_backtest run_bars start_core new_broker seed_broker get empty_logs is_skipped
    step_bar is_clamped positive too_early mark_executed append triggered run_trigger
    checkpointing_enabled is_some bar_due time_due anchored take_checkpoint offset_before
    process_bar price_of mark_equity after_signal after_hold after_order bar_event snapshot_due
    has_passed book_trade close_trade execute_market slipped_price clamp_size execute_buy buy_qty
    buy_state execute_sell sell_state agartha bounded_params new_state export_state import_state
    get_or on_bar act enter observe_close buy_for part_of_cash on_fill note_fill is_zero manage
    note_bar activate take_partial trail strategy_floor below above hold_for sell_for close_cycle
    reset_position_state enter_by_limit wait_limit
second_bar_taken = Memᴰ.head refl

fair : IsFair {A = ℕ} (new_broker 1000 0 0)
unfolding new_broker whole
fair = record { fee_nonneg = refl; fee_le_one = refl; slippage_nonneg = refl; slippage_le = refl }

priced : All PosPrice candles
unfolding PosPrice price_of whole
priced = (refl, (refl, (refl, tt)))

agartha_repeats_run_example :
    (t : TakenAt
      (agartha moonshot)
      config
      candles
      (start (agartha moonshot) config opening candles)
      second_bar)
    × Alike
        (agartha moonshot)
        (reached (agartha moonshot) config opening candles t.pre).1
        (resume_logs
          (agartha moonshot)
          candles
          second_bar
          (resumed (agartha moonshot) config opening candles second_bar))
        (run_backtest (agartha moonshot) config opening candles)
        (resume_backtest (agartha moonshot) config opening second_bar candles)
unfolding get whole positive
agartha_repeats_run_example =
    agartha_repeats_run whole-IsOrderedFloat moonshot config opening candles second_bar fair refl
      priced refl second_bar_taken

abbrev ladder : DorothyParams ℕ
ladder = record {
  profit_factor = 1;
  margin_drop_factor = 0;
  quote_order_qty_usdt = 8;
  min_order_notional = 6;
  max_order_notional = 10;
  max_active_orders = 2;
}

-- Bought at 10 for a limit of 20, which the second bar reaches.
abbrev climb : List (Turn ℕ (Option ℕ))
climb = record { ctx = context 10 1000 0; filled = some (10, 1, 0) } ∷ []

limits_bounded_example : length (play_turns (dorothy ladder) climb []) ≤ 2
limits_bounded_example = limits_bounded ladder climb

ladder_sells :
    (Dorothy.on_bar
      (Dorothy.bounded_params ladder)
      (context 20 990 1)
      (play_turns (dorothy ladder) climb [])).1.action
    ≡ sell
unfolding whole price_of play_turns play_turn after_fill dorothy Dorothy.on_bar work_limits
    hit_limits sell_hit positive_limits Dorothy.on_fill note_purchase Dorothy.bounded_params
    bounded_notional consider_buy buy_more buy_the_drop hold_for buy_for sell_for part_of_cash
ladder_sells = refl

sells_at_cost_or_above_example : IsCovered (purchases ladder climb [] []) 20
unfolding price_of
sells_at_cost_or_above_example =
    sells_at_cost_or_above whole-IsOrderedFloat ladder climb (context 20 990 1) ladder_sells
