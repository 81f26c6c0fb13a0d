-- ===== src/Cluster/Runner.antt =====
-- backtest/agartha_cluster/bot_runner.py: the life of a bot on the exchange. `Runner.Entry`,
-- `Runner.Exit`, `Runner.Manual` and `Runner.Fills` are its `place_entry`, `place_exit`,
-- `manual_close` and `on_fill`; here are the parts that they share. A reason that interpolates a
-- number has only its fixed part.
pub mod Entry
pub mod Exit
pub mod Manual
pub mod Fills
pub mod Keeps
pub mod Log
pub mod Ahead
pub mod Errors
use Prim.Native.String.{String, ◌++◌ as str_append}
use generik_dbhistogram_data.Base.{
  ⊤, ℕ, ◌==◌, Bool, true, false, Option, none, some, List, if◌then◌else◌,
}
use generik_dbhistogram_data.Base.Float.{Float, lit, add, mul, div, le, trunc}
use generik_dbhistogram_data.Cluster.Models.{
  BotState, failed_deploy, same_state, OrderSide, OrderState, pending, EventKind, bot_state_changed,
  needs_manual_action, service, info, error,
}
use generik_dbhistogram_data.Cluster.StateMachine.{Transition, transition, moved, invalid}
use generik_dbhistogram_data.Cluster.Orders.{OrderRecord, limit}
use generik_dbhistogram_data.Cluster.Bots.{BotRecord}
use generik_dbhistogram_data.Cluster.Exec.{
  Exec, invalid_transition, attribute_error, pure, raise, or_raise, try_except, ◌>>=◌, ◌>>◌,
}
use generik_dbhistogram_data.Cluster.World.{
  World, Step, Ambient, PlaceOrderResult, ExchangeRequest, set_bot, log_state, fetch_bot, emit,
  log_api_call, record_weight,
}

pub record RunnerConfig : Type 0 where
  pub entry_weight_cost : ℕ
  pub entry_orders_cost : ℕ
  pub exit_weight_cost : ℕ
  pub exit_orders_cost : ℕ

abbrev pub runner_config : RunnerConfig
runner_config = record {
  entry_weight_cost = 2;
  entry_orders_cost = 1;
  exit_weight_cost = 2;
  exit_orders_cost = 1;
}

module _ {A : Type 0} ⦃F : Float A⦄ where
  unfoldable pub round_qty_down : A → A → A
  round_qty_down qty step =
      if le step (lit 0 0) then qty else mul (trunc (add (div qty step) (lit 1 12))) step

  unfoldable pub round_price_to_tick : A → A → A
  round_price_to_tick price tick =
      if le tick (lit 0 0) then price else mul (trunc (add (div price tick) (lit 1 12))) tick

  -- The order that is stored before it is sent.
  unfoldable pub pending_order : BotRecord A → OrderSide → A → A → Ambient A → OrderRecord A
  pending_order bot side price qty amb = record {
    order_id = none;
    client_order_id = amb.client_order_id;
    bot_id = bot.bot_id;
    symbol = bot.symbol;
    side = side;
    order_type = limit;
    state = pending;
    price = price;
    qty = qty;
    filled_qty = lit 0 0;
    avg_fill_price = lit 0 0;
    submitted_ts = some amb.now_ms;
    last_update_ts = none;
    correlation_id = bot.correlation_id;
    raw_response = none;
  }

-- `weight_used or cost`
abbrev pub or_cost : ℕ → ℕ → ℕ
or_cost weight cost = if weight == 0 then cost else weight

module _ {A : Type 0} where
  -- `self._transition_bot(self.db.get_bot(bot_id), …)` fails where there is no such bot.
  unfoldable pub existing_bot : ℕ → Step A (BotRecord A)
  existing_bot id = fetch_bot id >>= or_raise attribute_error

  -- What a changed state writes.
  unfoldable pub write_state : BotRecord A → BotState → Option String → ℕ → Step A ⊤
  write_state bot new_state reason now = do
    set_bot bot.bot_id λ r. record r { state = new_state }
    log_state (record {
      bot_id = bot.bot_id;
      from_state = some bot.state;
      to_state = new_state;
      reason = reason;
      ts_ms = now;
      correlation_id = some bot.correlation_id;
    })

  unfoldable pub apply_transition : BotRecord A → Option String → ℕ → Transition → Step A ⊤
  apply_transition bot reason now invalid = raise invalid_transition
  apply_transition bot reason now (moved new_state) =
      if same_state new_state bot.state then pure tt else do
        write_state bot new_state reason now
        emit info bot_state_changed service (some bot.bot_id) (some bot.symbol)

  unfoldable pub transition_bot : BotRecord A → BotState → Option String → ℕ → Step A ⊤
  unfolding apply_transition
  transition_bot bot target reason now =
      apply_transition bot reason now (transition bot.state target)

  unfoldable pub fail_deploy : BotRecord A → String → ℕ → Step A ⊤
  fail_deploy bot reason now = do
    try_except (transition_bot bot failed_deploy (some reason) now)
        (set_bot bot.bot_id λ r. record r { notes = some (str_append "failed_deploy:" reason) })
    emit error needs_manual_action service (some bot.bot_id) (some bot.symbol)

  unfoldable pub record_call : BotRecord A → ℕ → PlaceOrderResult A → ℕ → Step A ⊤
  record_call bot cost result now = do
    record_weight (or_cost result.weight_used cost) 1 now
    log_api_call (record {
      weight = or_cost result.weight_used cost;
      status_code = if result.accepted then 200 else 4;
      latency_ms = result.latency_ms;
      bot_id = bot.bot_id;
      error_text = result.error;
    })
