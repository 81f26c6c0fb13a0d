-- ===== src/Backtest/Engine/Run.antt =====
-- A whole run of `run_backtest` in backtest/engine.py, from the start or from a checkpoint. The
-- candles are given with their indicators; the metrics of the result are not computed here.
use generik_dbhistogram_data.Base.{
  ℕ, suc, ◌+◌, Bool, false, Option, none, some, List, [], ◌∷◌, leb, if◌then◌else◌,
}
use generik_dbhistogram_data.Base.Lists.{get_elem?}
use generik_dbhistogram_data.Base.Float.{Float, lit, le, fmax}
use generik_dbhistogram_data.Backtest.Broker.{BrokerState, new_broker, mark_equity}
use generik_dbhistogram_data.Backtest.Engine.{
  Candle, Strategy, EngineConfig, Core, Checkpoint, Logs, resume,
}
use generik_dbhistogram_data.Backtest.Engine.Bar.{price_of, bar_event, step_bar}

-- The entries of a dict of the broker's state; a missing key is `none`.
pub record BrokerSeed (A : Type 0) : Type 0 where
  pub cash : Option A
  pub position_qty : Option A
  pub avg_entry : Option A

-- The money knobs of `EngineConfig` and its `initial_state`.
pub record Opening (A E : Type 0) : Type 0 where
  pub initial_cash : A
  pub fee_rate : A
  pub slippage_bps : A
  pub broker_seed : BrokerSeed A
  pub strategy_seed : E

-- `d.get(key, default)`
unfoldable pub get {ℓ} : {T : Type ℓ} → Option T → T → T
get none default = default
get (some v) default = v

module _ {A : Type 0} ⦃F : Float A⦄ where
  unfoldable pub seed_broker : BrokerSeed A → BrokerState A → BrokerState A
  unfolding get
  seed_broker seed s =
      let qty = fmax (lit 0 0) (get seed.position_qty s.position_qty) in
      let avg = fmax (lit 0 0) (get seed.avg_entry s.avg_entry) in
      record {
        cash = get seed.cash s.cash;
        position_qty = qty;
        avg_entry = if le qty (lit 0 0) then lit 0 0 else avg;
      }

  unfoldable pub seed_of : BrokerState A → BrokerSeed A
  seed_of s = record {
    cash = some s.cash;
    position_qty = some s.position_qty;
    avg_entry = some s.avg_entry;
  }

  -- The price at which a resume is booked: that of the next candle, or 0.0 behind the last one.
  unfoldable pub resume_price : {D : Type 0} → List (Candle A D) → Option ℕ → A
  unfolding price_of
  resume_price candles offset =
      let next : ℕ = elim offset [ none ↦ 0 | some k ↦ suc k ] in
      elim (get_elem? candles next) [ none ↦ lit 0 0 | some c ↦ price_of c ]

unfoldable pub empty_logs : {A E : Type 0} → Logs A E
empty_logs = record {
  events = [];
  equity_curve = [];
  trade_pnls = [];
  checkpoints = [];
  bars_since_cp = 0;
  last_checkpoint_sim_ts = none;
}

-- `skip_until_index >= 0 and i <= skip_until_index`
unfoldable pub is_skipped : Option ℕ → ℕ → Bool
is_skipped none i = false
is_skipped (some k) i = leb i k

module _ {A D S E M : Type 0} ⦃F : Float A⦄ (strat : Strategy A D S E M) where
  unfoldable pub start_core : Opening A E → List (Candle A D) → Core A S
  start_core o candles =
      let b = new_broker o.initial_cash o.fee_rate o.slippage_bps in
      record {
        broker = record b { state = seed_broker o.broker_seed b.state };
        strategy = strat.import_state o.strategy_seed (strat.on_start candles);
        seq = 0;
        last_trade_entry = none;
        last_exec_ts = none;
        last_snapshot_ts = none;
      }

  -- The locals after a resume; the event of the resume has taken one sequence number.
  unfoldable pub resume_core : Checkpoint A E → Core A S → Core A S
  resume_core cp c = record {
    broker = record (c.broker) { state = seed_broker (seed_of cp.broker_state) c.broker.state };
    strategy = strat.import_state cp.strategy_state c.strategy;
    seq = cp.seq + 1;
    last_trade_entry = cp.last_trade_entry;
    last_exec_ts = cp.last_exec_ts;
    last_snapshot_ts = cp.last_snapshot_ts;
  }

  unfoldable pub resume_logs : List (Candle A D) → Checkpoint A E → Core A S → Logs A E
  unfolding resume_price bar_event empty_logs
  resume_logs candles cp c =
      let equity = mark_equity (resume_price candles cp.candle_offset) c.broker.state in
      record empty_logs { events = bar_event resume c.seq cp.sim_ts equity c.broker.state ∷ [] }

  -- The loop from index `i` on.
  unfoldable pub run_bars :
      EngineConfig
      → List (Candle A D)
      → Option ℕ
      → ℕ
      → List (Candle A D)
      → Core A S × Logs A E
      → Core A S × Logs A E
  run_bars cfg candles skip i [] st = st
  run_bars cfg candles skip i (candle ∷ rest) st =
      run_bars cfg candles skip (suc i) rest
        (if is_skipped skip i then st else step_bar strat cfg candles i candle st)

  unfoldable pub run_backtest : EngineConfig → Opening A E → List (Candle A D) → Core A S × Logs A E
  run_backtest cfg o candles =
      run_bars cfg candles none 0 candles (start_core o candles, empty_logs)

  -- A run with `resume_from_checkpoint`.
  unfoldable pub resume_backtest :
      EngineConfig → Opening A E → Checkpoint A E → List (Candle A D) → Core A S × Logs A E
  resume_backtest cfg o cp candles =
      let c = resume_core cp (start_core o candles) in
      run_bars cfg candles cp.candle_offset 0 candles (c, resume_logs candles cp c)
