-- ===== src/Cluster/Runner/Exit.antt =====
-- `BotRunner.place_exit` of backtest/agartha_cluster/bot_runner.py.
use Prim.Native.String.{String}
use generik_dbhistogram_data.Base.{ℕ, Option, none, some, [], if◌then◌else◌}
use generik_dbhistogram_data.Base.Float.{Float, lit, mul, lt, fmax}
use generik_dbhistogram_data.Cluster.Models.{
  in_position, placing_exit, awaiting_exit_fill, sell, submitted, rejected, order_rejected,
  order_placed, exit_out_of_band, binance_rest, service, info, warning, error,
}
use generik_dbhistogram_data.Cluster.Bots.{BotRecord, SymbolFilters, dict_get, or_zero}
use generik_dbhistogram_data.Cluster.Exec.{client_error, key_error, or_raise, ◌>>=◌, ◌>>◌}
use generik_dbhistogram_data.Cluster.World.{
  Step, Ambient, PlaceOrderResult, limit_order, set_bot, fetch_bot, emit, add_order, set_order,
  wait_budget, ask,
}
use generik_dbhistogram_data.Cluster.Runner.{
  RunnerConfig, round_qty_down, pending_order, existing_bot, transition_bot, record_call,
}
use generik_dbhistogram_data.Backtest.ExitPlanner.{
  ExitAction, ExitPlan, ExitQuery, plan_exit, hold, out_of_band,
}

module _ {A : Type 0} where
  -- `self._transition_bot(self.db.get_bot(bot_id), IN_POSITION, …)`, and the bot that it leaves.
  unfoldable pub back_to_position : BotRecord A → String → ℕ → Step A (Option (BotRecord A))
  back_to_position bot reason now = do
    current ← existing_bot bot.bot_id
    transition_bot current in_position (some reason) now
    fetch_bot bot.bot_id

  -- What follows the client's answer.
  unfoldable pub settle_exit :
      BotRecord A → A → ExitPlan A → Ambient A → PlaceOrderResult A → Step A (Option (BotRecord A))
  unfolding back_to_position
  settle_exit bot peak plan amb result =
      if result.accepted
      then (do
        set_order amb.client_order_id submitted none none result.order_id result.raw_response
            amb.now_ms
        emit info order_placed binance_rest (some bot.bot_id) (some bot.symbol)
        set_bot bot.bot_id λ r. record r {
          exit_order_id = result.order_id;
          exit_client_order_id = some amb.client_order_id;
          peak_price = some peak;
          trail_floor = some plan.trail_floor;
        }
        current ← existing_bot bot.bot_id
        transition_bot current awaiting_exit_fill (some "sell_limit_submitted") amb.now_ms
        fetch_bot bot.bot_id)
      else do
        set_order amb.client_order_id rejected none none none result.raw_response amb.now_ms
        emit error order_rejected binance_rest (some bot.bot_id) (some bot.symbol)
        back_to_position bot "exit_rejected_back_to_position" amb.now_ms

  -- A plan without a price leaves the peak and the floor behind.
  unfoldable pub note_peak : BotRecord A → A → ExitPlan A → Step A (Option (BotRecord A))
  note_peak bot peak plan = do
    set_bot bot.bot_id λ r. record r { peak_price = some peak; trail_floor = some plan.trail_floor }
    fetch_bot bot.bot_id

module _ {A : Type 0} ⦃F : Float A⦄ where
  -- The query that `place_exit` asks the planner, with the defaults of its other arguments.
  unfoldable pub exit_query : BotRecord A → SymbolFilters A → A → A → A → ExitQuery A
  exit_query bot filters trailing current peak = record {
    current_price = current;
    entry_price = or_zero bot.entry_price;
    peak_price = peak;
    trailing_stop_pct = trailing;
    breakeven_lock_pct = or_zero (dict_get "breakeven_lock_pct" bot.params_snapshot);
    filters = record {
      tick_size = filters.tick_size;
      bid_multiplier_down = filters.bid_multiplier_down;
      bid_multiplier_up = filters.bid_multiplier_up;
      ask_multiplier_down = filters.ask_multiplier_down;
      ask_multiplier_up = filters.ask_multiplier_up;
      min_notional = filters.min_notional;
    };
    recent_highs = [];
    crest_pullback_pct = lit 15 0;
    aggressive_limit_offset_ticks = 1;
  }

  unfoldable pub submit_exit : Ambient A → BotRecord A → A → A → Step A (PlaceOrderResult A)
  submit_exit amb bot price qty = do
    add_order (pending_order bot sell price qty amb)
    ask (limit_order bot.symbol sell price qty amb.client_order_id) amb.placed

  -- The sale at the planned price, from the wait for the budget on.
  unfoldable pub sell_at :
      RunnerConfig
      → Ambient A
      → BotRecord A
      → SymbolFilters A
      → A
      → ExitPlan A
      → A
      → Step A (Option (BotRecord A))
  unfolding submit_exit settle_exit back_to_position
  sell_at config amb bot filters peak plan price = do
    wait_budget amb config.exit_weight_cost config.exit_orders_cost
    transition_bot bot placing_exit (some plan.reason) amb.now_ms
    let exit_qty = round_qty_down (or_zero bot.entry_qty) filters.step_size
    if lt (mul exit_qty price) filters.min_notional
        then (do
          emit warning exit_out_of_band service (some bot.bot_id) (some bot.symbol)
          back_to_position bot "notional_below_min_back_to_position" amb.now_ms)
        else do
          result ← submit_exit amb bot price exit_qty
          record_call bot config.exit_weight_cost result amb.now_ms
          settle_exit bot peak plan amb result

  unfoldable pub unplaceable : BotRecord A → A → ExitPlan A → Step A (Option (BotRecord A))
  unfolding note_peak
  unplaceable bot peak plan = do
    emit warning exit_out_of_band service (some bot.bot_id) (some bot.symbol)
    note_peak bot peak plan

  -- `limit_price is None` goes the way of OUT_OF_BAND.
  unfoldable pub follow_plan :
      RunnerConfig
      → Ambient A
      → BotRecord A
      → SymbolFilters A
      → A
      → ExitPlan A
      → ExitAction
      → Option A
      → Step A (Option (BotRecord A))
  unfolding sell_at note_peak unplaceable
  follow_plan config amb bot filters peak plan hold price = note_peak bot peak plan
  follow_plan config amb bot filters peak plan out_of_band price = unplaceable bot peak plan
  follow_plan config amb bot filters peak plan _ none = unplaceable bot peak plan
  follow_plan config amb bot filters peak plan _ (some price) =
      sell_at config amb bot filters peak plan price

  unfoldable pub place_exit :
      RunnerConfig → Ambient A → BotRecord A → SymbolFilters A → Step A (Option (BotRecord A))
  unfolding exit_query follow_plan
  place_exit config amb bot filters = do
    trailing ← or_raise key_error (dict_get "trailing_stop_pct" bot.params_snapshot)
    current ← or_raise client_error amb.price
    let peak = fmax (or_zero bot.peak_price) current
    let plan = plan_exit (exit_query bot filters trailing current peak)
    follow_plan config amb bot filters peak plan plan.action plan.limit_price
