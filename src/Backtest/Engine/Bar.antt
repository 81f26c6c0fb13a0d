-- ===== src/Backtest/Engine/Bar.antt =====
-- One bar of the loop of `run_backtest` in backtest/engine.py, its orders and its checkpoint.
use generik_dbhistogram_data.Base.{
  ℕ, ◌+◌, ◌*◌, Bool, true, Option, none, some, List, [], ◌∷◌, ◌++◌, if◌then◌else◌, max, ◌||◌,
}
use generik_dbhistogram_data.Base.Float.{Float, sub, mul, fmin}
use generik_dbhistogram_data.Backtest.Broker.{
  Side, buy, sell, other, BrokerState, SpotBroker, Fill, mark_equity, execute_market,
}
use generik_dbhistogram_data.Backtest.Engine.{
  Candle, Signal, StrategyContext, Strategy, EventType, fill, order_rejected, hold, snapshot, Event,
  EventsMode, full, lite, minimal, EngineConfig, Core, Checkpoint, Logs, Emission, positive,
  has_passed, bar_due, time_due, anchored, checkpointing_enabled, offset_before, is_clamped,
}

-- `candle.get("price_source", candle["close"])`
unfoldable pub price_of : {A D : Type 0} → Candle A D → A
price_of c = elim c.price_source [ none ↦ c.close | some p ↦ p ]

unfoldable pub snapshot_due : ℕ → ℕ → Option ℕ → Bool
unfolding has_passed
snapshot_due seconds ts none = true
snapshot_due seconds ts (some last) = has_passed (max 1 seconds * 1000) ts (some last)

-- `last_exec_ts = candle_ts`
unfoldable pub mark_executed : {A S : Type 0} → ℕ → Core A S → Core A S
mark_executed ts c = record c { last_exec_ts = some ts }

-- What a bar adds to the logs.
unfoldable pub append : {A E : Type 0} → Emission A → Logs A E → Logs A E
append e l = record l {
  events = l.events ++ e.events;
  equity_curve = l.equity_curve ++ e.equity ∷ [];
  trade_pnls = l.trade_pnls ++ e.trade_pnls;
}

module _ {A : Type 0} ⦃F : Float A⦄ where
  -- The trade bookkeeping after a fill: the pending entry, and the profit of a closed trade.
  unfoldable pub close_trade : Fill A → Option (A × A) → Option (A × A) × List A
  close_trade f none = (none, [])
  close_trade f (some (entry_price, entry_qty)) =
      (none, mul (sub f.price entry_price) (fmin entry_qty f.qty) ∷ [])

  unfoldable pub book_trade : Side → Fill A → Option (A × A) → Option (A × A) × List A
  unfolding close_trade
  book_trade buy f entry = (some (f.price, f.qty), [])
  book_trade sell f entry = close_trade f entry
  book_trade other f entry = (entry, [])

  -- The event of a bar, without an order's side, price and quantity.
  unfoldable pub bar_event : EventType → ℕ → ℕ → A → BrokerState A → Event A
  bar_event type seq ts equity b = record {
    seq = seq;
    event_time = ts;
    event_type = type;
    side = none;
    price = none;
    qty = none;
    cash = b.cash;
    equity = equity;
    position_qty = b.position_qty;
  }

module _ {A S : Type 0} ⦃F : Float A⦄ where
  -- The branch of any other signal.
  unfoldable pub after_hold : EventsMode → ℕ → ℕ → A → S → Core A S → Core A S × Emission A
  unfolding bar_event snapshot_due
  after_hold full seconds ts equity s c =
      let seq' = c.seq + 1 in
      (
        record c { strategy = s; seq = seq' },
        record {
          events = bar_event hold seq' ts equity c.broker.state ∷ [];
          equity = equity;
          trade_pnls = [];
        },
      )
  after_hold lite seconds ts equity s c =
      let seq' = c.seq + 1 in
      if snapshot_due seconds ts c.last_snapshot_ts
      then (
        record c { strategy = s; seq = seq'; last_snapshot_ts = some ts },
        record {
          events = bar_event snapshot seq' ts equity c.broker.state ∷ [];
          equity = equity;
          trade_pnls = [];
        },
      )
      else (record c { strategy = s }, record { events = []; equity = equity; trade_pnls = [] })
  after_hold minimal seconds ts equity s c =
      (record c { strategy = s }, record { events = []; equity = equity; trade_pnls = [] })

module _ {A D S E M : Type 0} ⦃F : Float A⦄ (strat : Strategy A D S E M) where
  -- The branch of a signal that is an order; `s` is the strategy after `on_bar`.
  unfoldable pub after_order :
      ℕ
      → A
      → A
      → Signal A M
      → StrategyContext A D
      → S
      → Core A S
      → SpotBroker A × Option (Fill A)
      → Core A S × Emission A
  unfolding bar_event
  after_order ts px equity signal ctx s c (b, none) =
      let seq' = c.seq + 1 in
      let e = bar_event order_rejected seq' ts (mark_equity px b.state) b.state in
      (
        record c { broker = b; strategy = s; seq = seq' },
        record {
          events = record e { side = some signal.action } ∷ [];
          equity = equity;
          trade_pnls = [];
        },
      )
  after_order ts px equity signal ctx s c (b, some f) =
      let seq' = c.seq + 1 in
      let (entry, pnls) = book_trade f.side f c.last_trade_entry in
      let e = bar_event fill seq' ts (mark_equity px b.state) b.state in
      (
        record c {
          broker = b;
          strategy = strat.on_fill f signal ctx s;
          seq = seq';
          last_trade_entry = entry;
        },
        record {
          events = record e { side = some f.side; price = some f.price; qty = some f.qty } ∷ [];
          equity = equity;
          trade_pnls = pnls;
        },
      )

  unfoldable pub after_signal :
      EngineConfig
      → ℕ
      → A
      → A
      → StrategyContext A D
      → Core A S
      → S
      → Signal A M
      → Side
      → Core A S × Emission A
  unfolding after_order after_hold
  after_signal cfg ts px equity ctx c s signal other =
      after_hold cfg.events_mode cfg.snapshot_seconds ts equity s c
  after_signal cfg ts px equity ctx c s signal side =
      after_order ts px equity signal ctx s c (execute_market side px signal.size_pct c.broker)

  -- From `px = ...` to the end of the loop's body, for the bar `candle` of index `i`.
  unfoldable pub process_bar :
      EngineConfig → List (Candle A D) → ℕ → Candle A D → Core A S → Core A S × Emission A
  unfolding after_signal price_of
  process_bar cfg candles i candle c =
      let px = price_of candle in
      let equity = mark_equity px c.broker.state in
      let ctx : StrategyContext A D = record {
        index = i;
        candle = candle;
        candles = candles;
        cash = c.broker.state.cash;
        position_qty = c.broker.state.position_qty;
        avg_entry = c.broker.state.avg_entry;
        equity = equity;
      } in
      let (s, signal) = strat.on_bar ctx c.strategy in
      after_signal cfg candle.open_time px equity ctx c s signal signal.action

  -- The checkpoint of a bar, taken before its signal.
  unfoldable pub take_checkpoint : ℕ → ℕ → Core A S → Checkpoint A E
  unfolding offset_before
  take_checkpoint i ts c = record {
    sim_ts = ts;
    candle_offset = offset_before i;
    broker_state = c.broker.state;
    strategy_state = strat.export_state c.strategy;
    seq = c.seq;
    last_exec_ts = c.last_exec_ts;
    last_snapshot_ts = c.last_snapshot_ts;
    last_trade_entry = c.last_trade_entry;
  }

  -- The trigger: count the bar, and write a checkpoint if either threshold is reached.
  unfoldable pub run_trigger : EngineConfig → ℕ → ℕ → Core A S → Logs A E → Logs A E
  unfolding take_checkpoint bar_due time_due anchored positive
  run_trigger cfg i ts c l =
      let bars = l.bars_since_cp + 1 in
      let every_s = positive cfg.checkpoint_every_sim_seconds in
      if bar_due (positive cfg.checkpoint_every_bars) bars
        || time_due every_s l.last_checkpoint_sim_ts ts
      then record l {
        checkpoints = l.checkpoints ++ take_checkpoint i ts c ∷ [];
        bars_since_cp = 0;
        last_checkpoint_sim_ts = some ts;
      }
      else record l {
        bars_since_cp = bars;
        last_checkpoint_sim_ts = anchored every_s l.last_checkpoint_sim_ts ts;
      }

  -- `if checkpointing_enabled: ...`
  unfoldable pub triggered : EngineConfig → ℕ → ℕ → Core A S → Logs A E → Logs A E
  triggered cfg i ts c l = if checkpointing_enabled cfg then run_trigger cfg i ts c l else l

  -- The body of the loop for one bar that is not skipped by a resume.
  unfoldable pub step_bar :
      EngineConfig → List (Candle A D) → ℕ → Candle A D → Core A S × Logs A E → Core A S × Logs A E
  step_bar cfg candles i candle (c, l) =
      if is_clamped cfg c.last_exec_ts candle.open_time
      then (c, l)
      else let c' = mark_executed candle.open_time c in
        let (c'', e) = process_bar cfg candles i candle c' in
        (c'', append e (triggered cfg i candle.open_time c' l))
