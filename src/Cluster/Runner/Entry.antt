-- ===== src/Cluster/Runner/Entry.antt =====
-- `BotRunner.place_entry` of backtest/agartha_cluster/bot_runner.py.
use generik_dbhistogram_data.Base.{Option, none, some, if◌then◌else◌}
use generik_dbhistogram_data.Base.Float.{Float, lit, sub, mul, div, lt, le, fmax}
use generik_dbhistogram_data.Cluster.Models.{
  placing_entry, awaiting_entry_fill, buy, submitted, rejected, order_rejected, order_placed,
  binance_rest, info, error,
}
use generik_dbhistogram_data.Cluster.Bots.{BotRecord, SymbolFilters, dict_get, or_zero}
use generik_dbhistogram_data.Cluster.Exec.{client_error, or_raise, ◌>>=◌, ◌>>◌}
use generik_dbhistogram_data.Cluster.World.{
  Step, Ambient, PlaceOrderResult, limit_order, set_bot, fetch_bot, emit, add_order, set_order,
  wait_budget, ask,
}
use generik_dbhistogram_data.Cluster.Runner.{
  RunnerConfig, round_qty_down, round_price_to_tick, pending_order, existing_bot, transition_bot,
  fail_deploy, record_call,
}

module _ {A : Type 0} where
  -- What follows the client's answer.
  unfoldable pub settle_entry :
      BotRecord A → A → A → Ambient A → PlaceOrderResult A → Step A (Option (BotRecord A))
  settle_entry bot target_price qty amb result =
      if result.accepted
      then (do
        set_order amb.client_order_id submitted none none result.order_id result.raw_response
            amb.now_ms
        emit info order_placed binance_rest (some bot.bot_id) (some bot.symbol)
        set_bot bot.bot_id λ r. record r {
          entry_order_id = result.order_id;
          entry_client_order_id = some amb.client_order_id;
          entry_price = some target_price;
          entry_qty = some qty;
          deployed_at = some amb.local_time;
        }
        current ← existing_bot bot.bot_id
        transition_bot current awaiting_entry_fill (some "buy_limit_submitted") amb.now_ms
        fetch_bot bot.bot_id)
      else do
        set_order amb.client_order_id rejected none none none result.raw_response amb.now_ms
        emit error order_rejected binance_rest (some bot.bot_id) (some bot.symbol)
        fail_deploy bot "entry_rejected" amb.now_ms
        fetch_bot bot.bot_id

module _ {A : Type 0} ⦃F : Float A⦄ where
  unfoldable pub entry_price_of : BotRecord A → SymbolFilters A → A → A
  entry_price_of bot filters last_price =
      let offset = or_zero (dict_get "entry_limit_offset_pct" bot.params_snapshot) in
      round_price_to_tick
        (if lt (lit 0 0) offset
          then mul last_price (sub (lit 1 0) (div offset (lit 100 0)))
          else last_price)
        filters.tick_size

  unfoldable pub entry_qty_of : BotRecord A → SymbolFilters A → A → A
  entry_qty_of bot filters target_price =
      round_qty_down (div bot.capital_usdt (fmax target_price (lit 1 12))) filters.step_size

  -- From the stored order to the client's answer.
  unfoldable pub submit_entry :
      RunnerConfig → Ambient A → BotRecord A → A → A → Step A (PlaceOrderResult A)
  submit_entry config amb bot target_price qty = do
    add_order (pending_order bot buy target_price qty amb)
    transition_bot bot placing_entry (some "placing_buy_limit") amb.now_ms
    ask (limit_order bot.symbol buy target_price qty amb.client_order_id) amb.placed

  unfoldable pub place_entry :
      RunnerConfig → Ambient A → BotRecord A → SymbolFilters A → Step A (Option (BotRecord A))
  unfolding entry_price_of entry_qty_of submit_entry settle_entry
  place_entry config amb bot filters = do
    wait_budget amb config.entry_weight_cost config.entry_orders_cost
    last_price ← or_raise client_error amb.price
    if le last_price (lit 0 0)
        then (do fail_deploy bot "no_price_for_entry" amb.now_ms; fetch_bot bot.bot_id)
        else (let target_price = entry_price_of bot filters last_price in
            let qty = entry_qty_of bot filters target_price in
            if lt (mul target_price qty) filters.min_notional
            then (do fail_deploy bot "notional<" amb.now_ms; fetch_bot bot.bot_id)
            else do
              result ← submit_entry config amb bot target_price qty
              record_call bot config.entry_weight_cost result amb.now_ms
              settle_entry bot target_price qty amb result)
