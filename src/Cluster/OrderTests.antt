-- ===== src/Cluster/OrderTests.antt =====
-- The theorems on the table of orders, at one order.
use generik_dbhistogram_data.Base.{ℕ, ◌≡◌, refl, none, some, [], ◌∷◌}
use generik_dbhistogram_data.Cluster.Models.{buy, pending}
use generik_dbhistogram_data.Cluster.Orders.{OrderRecord, OrderTables, limit, insert_order}

abbrev entry_order : OrderRecord ℕ
entry_order = record {
  order_id = none;
  client_order_id = "agc-buy-1";
  bot_id = 7;
  symbol = "BTCUSDT";
  side = buy;
  order_type = limit;
  state = pending;
  price = 100;
  qty = 2;
  filled_qty = 0;
  avg_fill_price = 0;
  submitted_ts = some 5000;
  last_update_ts = none;
  correlation_id = "c";
  raw_response = none;
}

abbrev no_orders : OrderTables ℕ
no_orders = record { orders = []; next_order_pk = 1; fills = [] }

abbrev one_order : OrderTables ℕ
one_order = record {
  orders = record { order_pk = 1; order = entry_order } ∷ [];
  next_order_pk = 2;
  fills = [];
}

entry_inserted : insert_order entry_order no_orders ≡ some (one_order, 1)
unfolding insert_order
entry_inserted = refl
