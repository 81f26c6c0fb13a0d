-- ===== src/Cluster/RunnerTests.antt =====
-- The theorems on waits, on fills, on refused transitions and on the reconciler, at concrete ones.
use Prim.Native.String.{String, ◌++◌ as str_append}
use mathlib.Core.List.{Memᴰ}
use generik_dbhistogram_data.Base.{
  ℕ, ◌+◌, ◌*◌, ◌≡◌, ◌≤◌, ◌↔◌, inl, refl, true, false, none, some, List, [], ◌∷◌, ◌++◌, arith, map,
}
use generik_dbhistogram_data.Base.Lists.{each_cons}
use generik_dbhistogram_data.Base.Whole.{whole}
use generik_dbhistogram_data.Cluster.Models.{
  failed_deploy, in_position, awaiting_entry_fill, submitted, buy, same_state,
}
use generik_dbhistogram_data.Cluster.StateMachine.{can_transition}
use generik_dbhistogram_data.Cluster.Throttle.{ApiThrottle, minute_bucket_of}
use generik_dbhistogram_data.Cluster.Throttle.Wait.{
  granted, wait_for_budget, IsClock, IsPast, Ends, wait_for_budget-Ends, wait_for_budget_granted,
}
use generik_dbhistogram_data.Cluster.Orders.{
  OrderRow, limit, get_order_by_client_id, count_fills_for_order, sum_fills_for_order, sum_of,
  find_order, has_client_id,
}
use generik_dbhistogram_data.Cluster.Bots.{BotRecord, get_bot, find_bot}
use generik_dbhistogram_data.Cluster.Exec.{returned}
use generik_dbhistogram_data.Cluster.World.{World, Ambient, Reconciliation}
use generik_dbhistogram_data.Cluster.Runner.{fail_deploy}
use generik_dbhistogram_data.Cluster.Runner.Errors.{fail_deploy_total}
use generik_dbhistogram_data.Cluster.Runner.Fills.{FillReport, is_fully_filled}
use generik_dbhistogram_data.Cluster.Runner.Fills.Progress.{
  Progress, Follows, advance_all, on_fills, on_fills-Follows,
}
use generik_dbhistogram_data.Cluster.Reconciler.{
  AccountSnapshot, QueryReply, answered, poll_open_orders_for_fills,
}
use generik_dbhistogram_data.Cluster.Reconciler.Snapshot.{run_once}
use generik_dbhistogram_data.Cluster.Reconciler.Compared.{Agree, Reports, run_once-Reports}
use generik_dbhistogram_data.Cluster.Reconciler.Counted.{IsKnown, OnceMore}
use generik_dbhistogram_data.Cluster.Reconciler.Replay.{poll_replays_once}

-- The weight of the minute is used up.
abbrev spent : ApiThrottle
spent = record {
  config = record {
    weight_limit_per_minute = 10;
    orders_limit_per_10s = 2;
    block_when_exceeded = true;
  };
  buckets = record { minute_bucket = 0; weight_used = 10; orders_count = 2 } ∷ [];
  order_ts = 4000 ∷ 5000 ∷ [];
}

-- A reading each 20 seconds, from the sixth second on.
abbrev slow_clock : ℕ → ℕ
slow_clock n = 6000 + 20000 * n

slow_clock-IsClock : IsClock 20000 slow_clock
slow_clock-IsClock = record {
  steady = λ n. omega arith;
  moves = λ n. omega arith;
  bounded = λ n. omega arith;
}

spent-IsPast : IsPast 6000 spent
unfolding minute_bucket_of
spent-IsPast = record { minutes = (omega arith, tt); orders = (omega arith, (omega arith, tt)) }

wait_for_budget-Ends_example :
    Ends 2 1 120000 20000 slow_clock spent (wait_for_budget 2 1 120000 slow_clock 120001 spent)
wait_for_budget-Ends_example =
    wait_for_budget-Ends slow_clock-IsClock 2 1 120000 spent 120001 (omega arith)

wait_for_budget_granted_example :
    (waited : ℕ) × (wait_for_budget 2 1 120000 slow_clock 120001 spent ≡ granted waited)
    × (waited ≤ 160000)
wait_for_budget_granted_example =
    wait_for_budget_granted 20000 slow_clock slow_clock-IsClock 2 1 120000 120001 spent spent-IsPast
      (omega arith) (omega arith) (omega arith) (omega arith)

abbrev waiting_bot : BotRecord ℕ
waiting_bot = record {
  bot_id = 7;
  symbol = "BTCUSDT";
  state = awaiting_entry_fill;
  capital_usdt = 1000;
  params_snapshot = ("trailing_stop_pct", 10) ∷ [];
  correlation_id = "c";
  entry_order_id = some "77";
  entry_client_order_id = some "agc-buy-1";
  entry_price = some 100;
  entry_qty = some 2;
  entry_filled_ts = none;
  peak_price = none;
  trail_floor = none;
  exit_order_id = none;
  exit_client_order_id = none;
  exit_price = none;
  exit_qty = none;
  exit_filled_ts = none;
  realized_pnl_usdt = none;
  deployed_at = none;
  closed_at = none;
  notes = none;
}

abbrev sent_order : OrderRow ℕ
sent_order = record {
  order_pk = 1;
  order = record {
    order_id = some "77";
    client_order_id = "agc-buy-1";
    bot_id = 7;
    symbol = "BTCUSDT";
    side = buy;
    order_type = limit;
    state = submitted;
    price = 100;
    qty = 2;
    filled_qty = 0;
    avg_fill_price = 0;
    submitted_ts = some 5000;
    last_update_ts = none;
    correlation_id = "c";
    raw_response = none;
  };
}

abbrev waiting_world : World ℕ
waiting_world = record {
  tables = record { bots = waiting_bot ∷ []; next_bot_id = 8; state_log = [] };
  orders = record { orders = sent_order ∷ []; next_order_pk = 2; fills = [] };
  filters = [];
  throttle = spent;
  api_calls = [];
  events = [];
  sent = [];
  reconciliations = [];
  queue = record { rows = []; next_id = 1 };
  symbol_params = [];
  service_runs = [];
  last_reconcile = 0;
}

abbrev no_answer : Ambient ℕ
no_answer = record {
  now_ms = 9000;
  local_time = "2026-01-01 00:00:00";
  clock = slow_clock;
  polls = 10;
  client_order_id = "";
  price = none;
  placed = none;
  cancelled = none;
}

-- In whole amounts the literal 0.995 is 995, so the order is filled at 1990.
abbrev portion : ℕ → FillReport ℕ
portion qty = record {
  client_order_id = "agc-buy-1";
  symbol = "BTCUSDT";
  side = buy;
  price = 100;
  qty = qty;
  fee = 0;
  fee_asset = none;
  ts_ms = 8000;
  exchange_fill_id = none;
  raw_payload = none;
}

abbrev nothing_filled : Progress ℕ
nothing_filled = record { total = 0; state = awaiting_entry_fill }

waiting_world-Follows : Follows "agc-buy-1" 1 2 7 waiting_world nothing_filled
unfolding get_order_by_client_id find_order has_client_id get_bot find_bot sum_fills_for_order
    sum_of whole
waiting_world-Follows = record {
  order = sent_order;
  found = refl;
  key = refl;
  qty = refl;
  owner = refl;
  bot = waiting_bot;
  there = refl;
  stands = refl;
  sum = refl;
  buying = inl refl;
}

abbrev portions : List (FillReport ℕ × Ambient ℕ)
portions = (portion 1000, no_answer) ∷ (portion 990, no_answer) ∷ []

on_fills-Follows_example :
    Follows "agc-buy-1" 1 2 7
      (on_fills portions waiting_world)
      (advance_all 2 (map (λ f. f.0) portions) nothing_filled)
on_fills-Follows_example =
    on_fills-Follows "agc-buy-1" 1 2 7 portions waiting_world nothing_filled
      ((refl, refl), ((refl, refl), tt)) waiting_world-Follows

portions_enter : (advance_all 2 (map (λ f. f.0) portions) nothing_filled).state ≡ in_position
unfolding advance_all is_fully_filled whole
portions_enter = refl

waiting_found : get_bot 7 waiting_world.tables ≡ some waiting_bot
unfolding get_bot find_bot
waiting_found = refl

fail_deploy_total_example :
    let r = fail_deploy waiting_bot "entry_rejected" 9000 waiting_world in
    (r.1 ≡ returned tt)
    × (can_transition awaiting_entry_fill failed_deploy ≡ true
        → get_bot 7 r.0.tables ≡ some (record waiting_bot { state = failed_deploy }))
    × (same_state awaiting_entry_fill failed_deploy ≡ false
        → can_transition awaiting_entry_fill failed_deploy ≡ false
        → get_bot 7 r.0.tables
          ≡ some
              (record waiting_bot { notes = some (str_append "failed_deploy:" "entry_rejected") }))
fail_deploy_total_example =
    fail_deploy_total waiting_bot waiting_bot "entry_rejected" 9000 waiting_world waiting_found

abbrev filled_unseen : String → String → QueryReply ℕ
filled_unseen symbol id = answered (record {
  accepted = true;
  order_id = some "77";
  status = "filled";
  avg_fill_price = 100;
  filled_qty = 0;
  raw_response = none;
  error = none;
  weight_used = 2;
  latency_ms = 30;
})

sent_found : get_order_by_client_id "agc-buy-1" waiting_world.orders ≡ some sent_order
unfolding get_order_by_client_id find_order has_client_id
sent_found = refl

rows-IsKnown :
    (o : OrderRow ℕ) → Memᴰ o waiting_world.orders.orders → IsKnown waiting_world.orders o
rows-IsKnown =
    each_cons (IsKnown waiting_world.orders) (sent_order, sent_found, refl) λ o m. elim m [ ]

-- One open order that the tables do not know, and one without a client id.
abbrev seen : AccountSnapshot ℕ
seen = record {
  timestamp_ms = 9000;
  balances = ("USDT", 50) ∷ [];
  open_orders = some "by-hand" ∷ none ∷ [];
}

run_once-Reports_example :
    let (w', outcome) = run_once true no_answer (returned seen) filled_unseen waiting_world in
    (row : Reconciliation ℕ) × (w'.reconciliations ≡ [] ++ row ∷ [])
    × ((row.drift_detected ≡ false) ↔ Agree waiting_world.orders.orders seen)
    × Reports waiting_world.orders.orders seen row outcome
run_once-Reports_example = run_once-Reports true no_answer seen filled_unseen waiting_world

poll_replays_once_example : OnceMore (count_fills_for_order 1 waiting_world.orders) (
    count_fills_for_order 1
      (poll_open_orders_for_fills true no_answer filled_unseen waiting_world).0.orders)
poll_replays_once_example =
    poll_replays_once true no_answer filled_unseen waiting_world 1 rows-IsKnown
