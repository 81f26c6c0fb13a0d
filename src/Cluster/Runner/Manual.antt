-- ===== src/Cluster/Runner/Manual.antt =====
-- `BotRunner.manual_close` of backtest/agartha_cluster/bot_runner.py, which a supervisor asks for.
use Prim.Native.String.{String, ◌++◌ as str_append}
use generik_dbhistogram_data.Base.{⊤, Option, none, some, if◌then◌else◌}
use generik_dbhistogram_data.Base.Float.{Float, lit, sub, mul, le}
use generik_dbhistogram_data.Cluster.Models.{
  manual_closed, sell, submitted, rejected, cancelled, manual_close, supervisor, warning,
}
use generik_dbhistogram_data.Cluster.Bots.{BotRecord, SymbolFilters}
use generik_dbhistogram_data.Cluster.Exec.{client_error, pure, gets, or_raise, ◌>>=◌, ◌>>◌}
use generik_dbhistogram_data.Cluster.World.{
  Step, Ambient, PlaceOrderResult, limit_order, cancel, set_bot, fetch_bot, emit, add_order,
  set_order, record_weight, wait_budget, ask, find_filters,
}
use generik_dbhistogram_data.Cluster.Runner.{
  round_price_to_tick, pending_order, transition_bot, record_call,
}

module _ {A : Type 0} where
  -- The bot's end, which both branches share.
  unfoldable pub mark_closed : BotRecord A → String → Ambient A → Step A ⊤
  mark_closed bot reason amb =
      set_bot bot.bot_id λ r. record r { closed_at = some amb.local_time; notes = some reason }

  unfoldable pub close_flat : Ambient A → BotRecord A → String → Step A (Option (BotRecord A))
  unfolding mark_closed
  close_flat amb bot reason = do
    transition_bot bot manual_closed (some (str_append "manual_close_no_position:" reason))
        amb.now_ms
    mark_closed bot reason amb
    emit warning manual_close supervisor (some bot.bot_id) (some bot.symbol)
    fetch_bot bot.bot_id

  -- `if bot.exit_client_order_id:`
  unfoldable pub cancel_open : Ambient A → BotRecord A → Option String → Step A ⊤
  cancel_open amb bot none = pure tt
  cancel_open amb bot (some id) = do
    ask (cancel bot.symbol id) amb.cancelled
    record_weight 1 0 amb.now_ms
    set_order id cancelled none none none none amb.now_ms

module _ {A : Type 0} ⦃F : Float A⦄ where
  -- The tick size of the symbol's row, or the default of `SymbolFilters`.
  unfoldable pub tick_of : Option (SymbolFilters A) → A
  tick_of none = lit 1 8
  tick_of (some f) = f.tick_size

  unfoldable pub submit_manual : Ambient A → BotRecord A → A → A → Step A (PlaceOrderResult A)
  submit_manual amb bot target qty = do
    add_order (pending_order bot sell target qty amb)
    wait_budget amb 2 1
    ask (limit_order bot.symbol sell target qty amb.client_order_id) amb.placed

  unfoldable pub close_position :
      Ambient A → BotRecord A → String → A → A → Step A (Option (BotRecord A))
  unfolding submit_manual mark_closed cancel_open
  close_position amb bot reason tick qty = do
    cancel_open amb bot bot.exit_client_order_id
    current ← or_raise client_error amb.price
    let target = round_price_to_tick (mul current (sub (lit 1 0) (lit 1 3))) tick
    result ← submit_manual amb bot target qty
    record_call bot 1 result amb.now_ms
    set_order amb.client_order_id (if result.accepted then submitted else rejected) none none
        result.order_id result.raw_response amb.now_ms
    emit warning manual_close supervisor (some bot.bot_id) (some bot.symbol)
    transition_bot bot manual_closed (some (str_append "manual_close:" reason)) amb.now_ms
    mark_closed bot reason amb
    fetch_bot bot.bot_id

  -- `bot.entry_qty is None or bot.entry_qty <= 0`
  unfoldable pub close_with :
      Ambient A → BotRecord A → String → A → Option A → Step A (Option (BotRecord A))
  unfolding close_flat close_position
  close_with amb bot reason tick none = close_flat amb bot reason
  close_with amb bot reason tick (some qty) =
      if le qty (lit 0 0) then close_flat amb bot reason else close_position amb bot reason tick qty

  unfoldable pub manual_close_bot : Ambient A → BotRecord A → String → Step A (Option (BotRecord A))
  unfolding close_with tick_of
  manual_close_bot amb bot reason = do
    filters ← gets λ w. find_filters bot.symbol w.filters
    close_with amb bot reason (tick_of filters) bot.entry_qty
