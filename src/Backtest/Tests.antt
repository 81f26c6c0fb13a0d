-- ===== src/Backtest/Tests.antt =====
-- The theorems on the backtest, in whole amounts and with a strategy that buys and sells in turn.
use mathlib.Core.List.{Memᴰ}
use generik_dbhistogram_data.Base.{
  ℕ, zero, suc, ◌+◌, ◌%◌, ◌≡◌, refl, true, Option, none, some, List, [], ◌∷◌, arith,
}
use generik_dbhistogram_data.Base.Lists.{All, length}
use generik_dbhistogram_data.Base.Whole.{whole, whole-IsOrderedFloat}
use generik_dbhistogram_data.Backtest.Broker.{
  mark_equity, slipped_price, clamp_size, buy_qty, buy_state, execute_buy, sell_state, execute_sell,
  Side, buy, sell, other, SpotBroker, new_broker, execute_market,
}
use generik_dbhistogram_data.Backtest.Broker.Solvency.{IsFair, IsSolvent, execute_market-IsSolvent}
use generik_dbhistogram_data.Backtest.Engine.{
  positive, too_early, is_clamped, has_passed, bar_due, time_due, anchored, is_some,
  checkpointing_enabled, offset_before, Candle, Signal, Strategy, EngineConfig, lite, Checkpoint,
}
use generik_dbhistogram_data.Backtest.Engine.Bar.{
  price_of, mark_executed, append, close_trade, book_trade, bar_event, after_hold, after_order,
  after_signal, process_bar, take_checkpoint, run_trigger, triggered, step_bar, snapshot_due,
}
use generik_dbhistogram_data.Backtest.Engine.Run.{
  get, seed_broker, start_core, empty_logs, is_skipped, Opening, run_bars, run_backtest,
  resume_backtest, resume_logs,
}
use generik_dbhistogram_data.Backtest.Engine.Shift.{Alike}
use generik_dbhistogram_data.Backtest.Engine.Solvency.{PosPrice, run_backtest-IsSolvent}
use generik_dbhistogram_data.Backtest.Engine.Checkpoints.{TakenAt}
use generik_dbhistogram_data.Backtest.Engine.Reentry.{
  start, reached, resumed, restart, resume_skips_bar,
}
use generik_dbhistogram_data.Backtest.Engine.Resume.{resume_repeats_run}

abbrev signal : Side → Signal ℕ Unit
signal side = record { action = side; size_pct = 1; reason = "in turn"; metadata = tt }

-- It counts its bars; it buys at the first of each three, sells at the second and holds at the third.
abbrev choice : ℕ → Side
choice zero = buy
choice (suc zero) = sell
choice (suc (suc n)) = other

abbrev in_turn : Strategy ℕ Unit ℕ ℕ Unit
in_turn = record {
  on_start = λ candles. 0;
  on_bar = λ ctx n. (n + 1, signal (choice (n % 3)));
  on_fill = λ f s ctx n. n;
  export_state = λ n. n;
  import_state = λ e n. e;
}

abbrev candle : ℕ → ℕ → Candle ℕ Unit
candle minute price = record { open_time = minute; close = price; price_source = none; rest = tt }

abbrev candles : List (Candle ℕ Unit)
candles = candle 60000 10 ∷ candle 120000 12 ∷ candle 180000 11 ∷ candle 240000 15 ∷ []

abbrev config : Option ℕ → EngineConfig
config loop_seconds = record {
  loop_seconds = loop_seconds;
  events_mode = lite;
  snapshot_seconds = 60;
  checkpoint_every_bars = some 2;
  checkpoint_every_sim_seconds = none;
  has_checkpoints_dir = true;
}

abbrev opening : Opening ℕ ℕ
opening = record {
  initial_cash = 1000;
  fee_rate = 0;
  slippage_bps = 0;
  broker_seed = record { cash = none; position_qty = none; avg_entry = none };
  strategy_seed = 0;
}

abbrev broker : SpotBroker ℕ
broker = new_broker 1000 0 0

broker-IsFair : IsFair broker
unfolding new_broker whole
broker-IsFair = record {
  fee_nonneg = refl;
  fee_le_one = refl;
  slippage_nonneg = refl;
  slippage_le = refl;
}

broker-IsSolvent : IsSolvent broker.state
unfolding new_broker whole
broker-IsSolvent = record {
  cash_nonneg = refl;
  qty_nonneg = refl;
  entry_nonneg = refl;
  flat = λ h. refl;
}

priced : All PosPrice candles
unfolding PosPrice price_of whole
priced = (refl, (refl, (refl, (refl, tt))))

execute_market-IsSolvent_example : IsSolvent (execute_market buy 10 1 broker).0.state
unfolding whole
execute_market-IsSolvent_example =
    execute_market-IsSolvent whole-IsOrderedFloat buy 10 1 broker broker-IsFair refl
      broker-IsSolvent

-- What the run writes at its second bar, after the buy at the first.
abbrev second_bar : Checkpoint ℕ ℕ
second_bar = record {
  sim_ts = 120000;
  candle_offset = some 0;
  broker_state = record { cash = 0; position_qty = 100; avg_entry = 10 };
  strategy_state = 1;
  seq = 1;
  last_exec_ts = some 120000;
  last_snapshot_ts = none;
  last_trade_entry = some (10, 100);
}

second_bar_taken :
    Memᴰ second_bar (run_backtest in_turn (config none) opening candles).1.checkpoints
    × Memᴰ second_bar (run_backtest in_turn (config (some 60)) opening candles).1.checkpoints
unfolding whole run_backtest run_bars start_core new_broker seed_broker get empty_logs is_skipped
    step_bar is_clamped positive too_early mark_executed append triggered run_trigger
    checkpointing_enabled is_some bar_due time_due anchored take_checkpoint offset_before
    process_bar price_of mark_equity after_signal after_hold after_order bar_event snapshot_due
    has_passed book_trade close_trade execute_market slipped_price clamp_size execute_buy buy_qty
    buy_state execute_sell sell_state
second_bar_taken = (Memᴰ.head refl, Memᴰ.head refl)

run_backtest-IsSolvent_example :
    IsSolvent (run_backtest in_turn (config none) opening candles).0.broker.state
unfolding get whole
run_backtest-IsSolvent_example =
    run_backtest-IsSolvent whole-IsOrderedFloat in_turn (config none) opening candles broker-IsFair
      refl priced

resume_repeats_run_example :
    (t : TakenAt in_turn
      (config none)
      candles
      (start in_turn (config none) opening candles)
      second_bar)
    × Alike in_turn
        (reached in_turn (config none) opening candles t.pre).1
        (resume_logs in_turn candles second_bar
          (resumed in_turn (config none) opening candles second_bar))
        (run_backtest in_turn (config none) opening candles)
        (resume_backtest in_turn (config none) opening second_bar candles)
unfolding get whole positive
resume_repeats_run_example =
    resume_repeats_run whole-IsOrderedFloat in_turn (config none) opening candles second_bar
      broker-IsFair refl priced refl (λ s. refl) second_bar_taken.0

resume_skips_bar_example :
    (t : TakenAt in_turn
      (config (some 60))
      candles
      (start in_turn (config (some 60)) opening candles)
      second_bar)
    × (resume_backtest in_turn (config (some 60)) opening second_bar candles
        ≡ run_bars in_turn
            (config (some 60))
            candles
            none
            (suc (length t.pre))
            t.post
            (restart in_turn (config (some 60)) opening candles second_bar))
resume_skips_bar_example =
    resume_skips_bar in_turn (config (some 60)) opening candles second_bar 60 refl (omega arith)
      second_bar_taken.1
