-- ===== src/Cluster/Runner/Fills.antt =====
-- `BotRunner.on_fill` of backtest/agartha_cluster/bot_runner.py, which the stream of the user's data
-- and the reconciler call.
pub mod Effects
pub mod Progress
use Prim.Native.String.{String}
use generik_dbhistogram_data.Base.{⊤, ℕ, Bool, true, false, Option, none, some, List, if◌then◌else◌}
use generik_dbhistogram_data.Base.Float.{Float, lit, sub, mul, le, lt, fmax}
use generik_dbhistogram_data.Cluster.Models.{
  BotState, in_position, closed_win, closed_loss, OrderSide, buy, sell, filled, partially_filled,
  reconciliation_drift, order_filled, order_partially_filled, binance_ws, info, warning,
}
use generik_dbhistogram_data.Cluster.Orders.{
  OrderRow, FillRecord, get_order_by_client_id, sum_fills_for_order,
}
use generik_dbhistogram_data.Cluster.Bots.{BotRecord, or_zero}
use generik_dbhistogram_data.Cluster.Exec.{Exec, pure, gets, ◌>>=◌, ◌>>◌}
use generik_dbhistogram_data.Cluster.World.{
  World, Step, Ambient, set_bot, fetch_bot, emit, add_fill, set_order,
}
use generik_dbhistogram_data.Cluster.Runner.{transition_bot}

-- The arguments of `on_fill`.
pub record FillReport (A : Type 0) : Type 0 where
  pub client_order_id : String
  pub symbol : String
  pub side : OrderSide
  pub price : A
  pub qty : A
  pub fee : A
  pub fee_asset : Option String
  pub ts_ms : ℕ
  pub exchange_fill_id : Option String
  pub raw_payload : Option String

module _ {A : Type 0} where
  unfoldable pub fill_row : FillReport A → OrderRow A → BotRecord A → FillRecord A
  fill_row report row bot = record {
    bot_id = row.order.bot_id;
    order_pk = some row.order_pk;
    exchange_fill_id = report.exchange_fill_id;
    symbol = report.symbol;
    side = report.side;
    price = report.price;
    qty = report.qty;
    fee = report.fee;
    fee_asset = report.fee_asset;
    ts_ms = report.ts_ms;
    is_maker = false;
    correlation_id = some bot.correlation_id;
    raw_payload = report.raw_payload;
  }

module _ {A : Type 0} ⦃F : Float A⦄ where
  -- `total_filled >= original_order_qty * 0.995`
  unfoldable pub is_fully_filled : A → A → Bool
  is_fully_filled total_filled order_qty = le (mul order_qty (lit 995 3)) total_filled

  unfoldable pub enter_position : FillReport A → BotRecord A → Ambient A → A → A → Bool → Step A ⊤
  enter_position report bot amb total vwap full = do
    set_bot bot.bot_id λ r. record r {
      entry_filled_ts = some report.ts_ms;
      entry_price = some vwap;
      entry_qty = some total;
      peak_price = some (fmax (or_zero bot.peak_price) vwap);
    }
    if full then transition_bot bot in_position (some "entry_filled") amb.now_ms else pure tt

  unfoldable pub realized_pnl : BotRecord A → A → A → A
  realized_pnl bot total vwap = mul (sub vwap (or_zero bot.entry_price)) total

  unfoldable pub closed_state : A → BotState
  closed_state pnl = if le (lit 0 0) pnl then closed_win else closed_loss

  unfoldable pub leave_position : FillReport A → BotRecord A → Ambient A → A → A → Bool → Step A ⊤
  unfolding realized_pnl closed_state
  leave_position report bot amb total vwap full = do
    let pnl = realized_pnl bot total vwap
    set_bot bot.bot_id λ r. record r {
      exit_filled_ts = some report.ts_ms;
      exit_price = some vwap;
      exit_qty = some total;
      realized_pnl_usdt = some pnl;
    }
    if full
        then (do
          set_bot bot.bot_id λ r. record r { closed_at = some amb.local_time }
          transition_bot bot (closed_state pnl) (some "exit_filled") amb.now_ms)
        else pure tt

  unfoldable pub move_bot :
      FillReport A → BotRecord A → Ambient A → A → A → Bool → OrderSide → Step A ⊤
  unfolding enter_position leave_position
  move_bot report bot amb total vwap full buy = enter_position report bot amb total vwap full
  move_bot report bot amb total vwap full sell = leave_position report bot amb total vwap full

  -- What follows the stored fill, from the sums over all fills of the order.
  unfoldable pub apply_total :
      FillReport A → OrderRow A → BotRecord A → Ambient A → A × A × A → Step A ⊤
  unfolding move_bot is_fully_filled
  apply_total report row bot amb (total, vwap, fee) = do
    let full = is_fully_filled total row.order.qty
    set_order report.client_order_id (if full then filled else partially_filled) (some total)
        (some vwap) none none amb.now_ms
    emit info (if full then order_filled else order_partially_filled) binance_ws (some bot.bot_id)
        (some report.symbol)
    move_bot report bot amb total vwap full report.side

  unfoldable pub take_fill : FillReport A → OrderRow A → Ambient A → Option (BotRecord A) → Step A ⊤
  unfolding fill_row apply_total
  take_fill report row amb none = pure tt
  take_fill report row amb (some bot) = do
    add_fill (fill_row report row bot)
    sums ← gets λ w. sum_fills_for_order row.order_pk w.orders
    apply_total report row bot amb sums

  unfoldable pub match_order : FillReport A → Ambient A → Option (OrderRow A) → Step A ⊤
  unfolding take_fill
  match_order report amb none =
      emit warning reconciliation_drift binance_ws none (some report.symbol)
  match_order report amb (some row) = fetch_bot row.order.bot_id >>= take_fill report row amb

  unfoldable pub on_fill : FillReport A → Ambient A → Step A ⊤
  unfolding match_order
  on_fill report amb =
      gets (λ w. get_order_by_client_id report.client_order_id w.orders) >>= match_order report amb
