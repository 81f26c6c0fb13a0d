-- ===== src/Cluster/World.antt =====
-- What the service of backtest/agartha_cluster, its runner and its reconciler share: the tables of
-- their `ClusterDB`, with the runtime dict of each symbol's parameters, the throttle, the event log, and the requests that its `LiveClient` was
-- given. The client is a part of the network: what it answers to a request is an argument, `none` for
-- an exception. So are the client ids drawn from `uuid4` and the readings of the clock.
use Prim.Native.String.{String}
use text.Mathlib.Text.{◌==◌ as str_eq}
use generik_dbhistogram_data.Base.{
  ⊤, ℕ, Bool, Option, none, some, List, [], ◌∷◌, ◌++◌, if◌then◌else◌,
}
use generik_dbhistogram_data.Cluster.Models.{
  OrderSide, OrderState, Event, EventSource, EventLevel, EventKind,
}
use generik_dbhistogram_data.Cluster.Throttle.{ApiThrottle, record_use}
use generik_dbhistogram_data.Cluster.Throttle.Wait.{
  Wait, granted, timed_out, out_of_fuel, wait_for_budget,
}
use generik_dbhistogram_data.Cluster.Queue.{DeployQueue}
use generik_dbhistogram_data.Cluster.Orders.{
  OrderRecord, OrderTables, FillRecord, insert_order, update_order_state, insert_fill,
}
use generik_dbhistogram_data.Cluster.Bots.{
  BotRecord, BotTables, StateLogRow, SymbolFilters, update_bot, append_state_log, get_bot,
}
use generik_dbhistogram_data.Cluster.Exec.{
  Exec, timeout_error, unfinished, integrity_error, client_error, pure, raise, gets, or_raise,
  modify, ◌>>=◌, ◌>>◌,
}

-- What a `place_limit` or a `cancel_order` is called with.
pub data ExchangeRequest (A : Type 0) : Type 0 where
  limit_order : String → OrderSide → A → A → String → ExchangeRequest A
  cancel : String → String → ExchangeRequest A

pub record PlaceOrderResult (A : Type 0) : Type 0 where
  pub accepted : Bool
  pub order_id : Option String
  pub status : String
  pub avg_fill_price : A
  pub filled_qty : A
  pub raw_response : Option String
  pub error : Option String
  pub weight_used : ℕ
  pub latency_ms : ℕ

-- A row of `api_calls`, without the texts that only describe the request.
pub record ApiCall : Type 0 where
  pub weight : ℕ
  pub status_code : ℕ
  pub latency_ms : ℕ
  pub bot_id : ℕ
  pub error_text : Option String

-- A row of `reconciliation_snapshots`, without the JSON of the snapshot.
pub record Reconciliation (A : Type 0) : Type 0 where
  pub ts_ms : ℕ
  pub open_orders_count : ℕ
  pub positions_count : ℕ
  pub total_equity_usdt : A
  pub drift_detected : Bool

-- A row of `service_runs`, of which only these columns are compared.
pub record ServiceRun : Type 0 where
  pub run_id : ℕ
  pub stopped_at : Option String
  pub stop_reason : Option String

pub record World (A : Type 0) : Type 0 where
  pub tables : BotTables A
  pub orders : OrderTables A
  pub filters : List (SymbolFilters A)
  pub throttle : ApiThrottle
  pub api_calls : List ApiCall
  pub events : List Event
  pub sent : List (ExchangeRequest A)
  pub reconciliations : List (Reconciliation A)
  pub queue : DeployQueue
  pub symbol_params : List (String × List (String × A))
  pub service_runs : List ServiceRun
  pub last_reconcile : ℕ

-- What one call of the runner meets: the time, the clock readings of a wait and the number of polls,
-- the client id drawn, and the client's answers to `get_price`, `place_limit` and `cancel_order`.
pub record Ambient (A : Type 0) : Type 0 where
  pub now_ms : ℕ
  pub local_time : String
  pub clock : ℕ → ℕ
  pub polls : ℕ
  pub client_order_id : String
  pub price : Option A
  pub placed : Option (PlaceOrderResult A)
  pub cancelled : Option (PlaceOrderResult A)

abbrev pub Step : Type 0 → Type 0 → Type 0
Step A B = Exec (World A) B

module _ {A : Type 0} where
  unfoldable pub set_bot : ℕ → (BotRecord A → BotRecord A) → Step A ⊤
  set_bot id f = modify λ w. record w { tables = update_bot id f w.tables }

  unfoldable pub log_state : StateLogRow → Step A ⊤
  log_state row = modify λ w. record w { tables = append_state_log row w.tables }

  unfoldable pub fetch_bot : ℕ → Step A (Option (BotRecord A))
  fetch_bot id = gets λ w. get_bot id w.tables

  unfoldable pub emit : EventLevel → EventKind → EventSource → Option ℕ → Option String → Step A ⊤
  emit level kind source bot_id symbol = modify λ w. record w {
    events =
        w.events
        ++ record { source = source; level = level; kind = kind; bot_id = bot_id; symbol = symbol }
          ∷ [];
  }

  unfoldable pub log_api_call : ApiCall → Step A ⊤
  log_api_call call = modify λ w. record w { api_calls = w.api_calls ++ call ∷ [] }

  -- The tables after an `insert_order`, or its exception.
  unfoldable pub stored : Option (OrderTables A × ℕ) → Step A ⊤
  stored none = raise integrity_error
  stored (some (t, pk)) = modify λ w. record w { orders = t }

  unfoldable pub add_order : OrderRecord A → Step A ⊤
  unfolding stored
  add_order o = gets (λ w. insert_order o w.orders) >>= stored

  unfoldable pub set_order :
      String → OrderState → Option A → Option A → Option String → Option String → ℕ → Step A ⊤
  set_order id state filled avg order_id raw now =
      modify
        λ w. record w { orders = update_order_state id state filled avg order_id raw now w.orders }

  unfoldable pub add_fill : FillRecord A → Step A ⊤
  add_fill f = modify λ w. record w { orders = insert_fill f w.orders }

  unfoldable pub record_weight : ℕ → ℕ → ℕ → Step A ⊤
  record_weight weight orders now =
      modify λ w. record w { throttle = (record_use weight orders now w.throttle).0 }

  unfoldable pub waited : Wait → Step A ⊤
  waited (granted ms) = pure tt
  waited timed_out = raise timeout_error
  waited out_of_fuel = raise unfinished

  -- `throttle.wait_for_budget`, with its default of 120 seconds.
  unfoldable pub wait_budget : Ambient A → ℕ → ℕ → Step A ⊤
  unfolding waited
  wait_budget amb weight orders =
      gets (λ w. wait_for_budget weight orders 120000 amb.clock amb.polls w.throttle) >>= waited

  -- The request is out, whatever the client answers.
  unfoldable pub ask : ExchangeRequest A → Option (PlaceOrderResult A) → Step A (PlaceOrderResult A)
  ask request answer = do
    modify λ w. record w { sent = w.sent ++ request ∷ [] }
    or_raise client_error answer

  unfoldable pub find_filters : String → List (SymbolFilters A) → Option (SymbolFilters A)
  find_filters symbol [] = none
  find_filters symbol (f ∷ fs) = if str_eq f.symbol symbol then some f else find_filters symbol fs
