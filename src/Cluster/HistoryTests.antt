-- ===== src/Cluster/HistoryTests.antt =====
-- The theorems on the histories of the cluster, at one in which a bot is created, buys, and sells.
use Prim.Native.String.{String}
use generik_dbhistogram_data.Base.{ℕ, ◌+◌, ◌*◌, true, none, some, List, [], ◌∷◌}
use generik_dbhistogram_data.Base.Lists.{All}
use generik_dbhistogram_data.Base.Whole.{whole}
use generik_dbhistogram_data.Cluster.Models.{BotState, queued, buy}
use generik_dbhistogram_data.Cluster.Bots.{BotRecord, SymbolFilters}
use generik_dbhistogram_data.Cluster.Bots.Log.{IsLogged}
use generik_dbhistogram_data.Cluster.Exec.{returned, raised, not_implemented_error}
use generik_dbhistogram_data.Cluster.World.{World, Ambient, PlaceOrderResult}
use generik_dbhistogram_data.Cluster.Runner.{runner_config}
use generik_dbhistogram_data.Cluster.Runner.Fills.{FillReport}
use generik_dbhistogram_data.Cluster.Runner.Ahead.{IsStored, AllDiffer}
use generik_dbhistogram_data.Cluster.Reconciler.{answered}
use generik_dbhistogram_data.Cluster.Scheduler.{default_config}
use generik_dbhistogram_data.Cluster.Service.{ServiceConfig, TickInputs}
use generik_dbhistogram_data.Cluster.History.{
  Call, create, enter, close, fill, tick, recover, run_calls, run_calls-IsLogged,
  sent_orders-IsStored,
}

abbrev pub empty_world : World ℕ
empty_world = record {
  tables = record { bots = []; next_bot_id = 1; state_log = [] };
  orders = record { orders = []; next_order_pk = 1; fills = [] };
  filters = [];
  throttle = record {
    config = record {
      weight_limit_per_minute = 600;
      orders_limit_per_10s = 20;
      block_when_exceeded = true;
    };
    buckets = [];
    order_ts = [];
  };
  api_calls = [];
  events = [];
  sent = [];
  reconciliations = [];
  queue = record { rows = []; next_id = 1 };
  symbol_params = [];
  service_runs = [];
  last_reconcile = 0;
}

abbrev pub accepted : PlaceOrderResult ℕ
accepted = record {
  accepted = true;
  order_id = some "77";
  status = "NEW";
  avg_fill_price = 0;
  filled_qty = 0;
  raw_response = none;
  error = none;
  weight_used = 2;
  latency_ms = 30;
}

abbrev pub at : ℕ → String → ℕ → Ambient ℕ
at now id price = record {
  now_ms = now;
  local_time = "2026-01-01 00:00:00";
  clock = λ n. now + 100 * n;
  polls = 3;
  client_order_id = id;
  price = some price;
  placed = some accepted;
  cancelled = some accepted;
}

abbrev pub filters : SymbolFilters ℕ
filters = record {
  symbol = "BTCUSDT";
  tick_size = 1;
  step_size = 1;
  min_notional = 5;
  bid_multiplier_up = 5;
  bid_multiplier_down = 0;
  ask_multiplier_up = 5;
  ask_multiplier_down = 0;
}

abbrev first_bot : BotState → BotRecord ℕ
first_bot state = record {
  bot_id = 1;
  symbol = "BTCUSDT";
  state = state;
  capital_usdt = 1000;
  params_snapshot = ("trailing_stop_pct", 10) ∷ [];
  correlation_id = "c";
  entry_order_id = none;
  entry_client_order_id = none;
  entry_price = none;
  entry_qty = none;
  entry_filled_ts = none;
  peak_price = none;
  trail_floor = none;
  exit_order_id = none;
  exit_client_order_id = none;
  exit_price = none;
  exit_qty = none;
  exit_filled_ts = none;
  realized_pnl_usdt = none;
  deployed_at = none;
  closed_at = none;
  notes = none;
}

-- In whole amounts the literal 0.995 is 995.
abbrev bought : FillReport ℕ
bought = record {
  client_order_id = "agc-buy-1";
  symbol = "BTCUSDT";
  side = buy;
  price = 100;
  qty = 9950;
  fee = 0;
  fee_asset = none;
  ts_ms = 3000;
  exchange_fill_id = some "f1";
  raw_payload = none;
}

-- Nothing is due in the queue, and the reconciler runs.
abbrev one_tick : TickInputs ℕ
one_tick = record {
  deploy = at 2500 "" 0;
  correlation_id = "c";
  filters_reply = raised not_implemented_error;
  exits = λ n. at 2500 "agc-sell-1" 100;
  reconcile = at 400000 "" 0;
  account =
      returned (record { timestamp_ms = 2500; balances = []; open_orders = some "agc-buy-1" ∷ [] });
  query = λ symbol id. answered accepted;
}

abbrev pub service_config : ServiceConfig ℕ
service_config = record {
  reconcile_every_seconds = 300;
  capital_usdt_per_bot = 10;
  scheduler = default_config;
  runner = runner_config;
}

-- The bot buys, its order is seen at the exchange, and then it is filled; an order of the same client
-- id is refused by the table.
abbrev calls : List (Ambient ℕ × Call ℕ)
calls =
    (at 1000 "" 0, create "BTCUSDT" 1000 (("trailing_stop_pct", 10) ∷ []) "c" queued)
    ∷ (at 2000 "agc-buy-1" 100, enter (first_bot queued) filters)
    ∷ (at 2500 "" 0, tick one_tick)
    ∷ (at 2600 "" 0, recover 1 (λ symbol id. answered accepted))
    ∷ (at 3000 "" 0, fill bought)
    ∷ (at 4000 "agc-buy-1" 100, enter (first_bot queued) filters)
    ∷ (at 5000 "agc-sell-1" 100, close (record (first_bot queued) { entry_qty = some 10 }) "test")
    ∷ []

run_calls-IsLogged_example : IsLogged (run_calls service_config calls empty_world).tables
run_calls-IsLogged_example =
    run_calls-IsLogged service_config calls empty_world
      (record { fresh_ids = tt; logged = tt; edges = tt })

sent_orders-IsStored_example :
    let w = run_calls service_config calls empty_world in
    All (IsStored w.orders) w.sent × AllDiffer w.sent
sent_orders-IsStored_example = sent_orders-IsStored service_config calls empty_world tt tt
