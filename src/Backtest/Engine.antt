-- ===== src/Backtest/Engine.antt =====
-- The loop of `run_backtest` of backtest/engine.py with its checkpoints, and the data of
-- backtest/checkpoint.py, strategy_base.py and events.py that it uses. Parameters are the type of
-- numbers `A`, what else a candle's dict holds (`D`, the indicators among it), the mutable state of
-- a strategy object (`S`), the dict of an exported state (`E`) and a signal's metadata (`M`).
pub mod Bar
pub mod Run
pub mod Shift
pub mod Solvency
pub mod Loop
pub mod Checkpoints
pub mod Reentry
pub mod Resume
use Prim.Native.String.{String}
use generik_dbhistogram_data.Base.{
  ℕ, suc, ◌+◌, ◌*◌, ◌-◌, Bool, true, false, Option, none, some, List, [], ◌∷◌, ◌++◌, ltb, leb,
  if◌then◌else◌, max, ◌&&◌, ◌||◌,
}
use generik_dbhistogram_data.Base.Float.{Float, lit, sub, mul, lt, le, fmax, fmin}
use generik_dbhistogram_data.Backtest.Broker.{
  Side, buy, sell, other, BrokerState, SpotBroker, Fill, new_broker, mark_equity, execute_market,
}

pub record Candle (A D : Type 0) : Type 0 where
  pub open_time : ℕ
  pub close : A
  pub price_source : Option A
  pub rest : D

-- `Signal`; an action that is neither "buy" nor "sell" is `other`.
pub record Signal (A M : Type 0) : Type 0 where
  pub action : Side
  pub size_pct : A
  pub reason : String
  pub metadata : M

pub record StrategyContext (A D : Type 0) : Type 0 where
  pub index : ℕ
  pub candle : Candle A D
  pub candles : List (Candle A D)
  pub cash : A
  pub position_qty : A
  pub avg_entry : A
  pub equity : A

-- The methods of `StrategyBase`. A call that mutates the object returns its new state; `on_start`
-- stands for the constructor and the call of `on_start` behind it.
pub record Strategy (A D S E M : Type 0) : Type 0 where
  pub on_start : List (Candle A D) → S
  pub on_bar : StrategyContext A D → S → S × Signal A M
  pub on_fill : Fill A → Signal A M → StrategyContext A D → S → S
  pub export_state : S → E
  pub import_state : E → S → S

pub data EventType : Type 0 where
  fill order_rejected hold snapshot resume : EventType

-- An event without its payload and trial id.
pub record Event (A : Type 0) : Type 0 where
  pub seq : ℕ
  pub event_time : ℕ
  pub event_type : EventType
  pub side : Option Side
  pub price : Option A
  pub qty : Option A
  pub cash : A
  pub equity : A
  pub position_qty : A

pub data EventsMode : Type 0 where
  full lite minimal : EventsMode

-- The knobs of `EngineConfig` that the loop reads; a None is `none`.
pub record EngineConfig : Type 0 where
  pub loop_seconds : Option ℕ
  pub events_mode : EventsMode
  pub snapshot_seconds : ℕ
  pub checkpoint_every_bars : Option ℕ
  pub checkpoint_every_sim_seconds : Option ℕ
  pub has_checkpoints_dir : Bool

-- What a bar reads and changes besides the logs: the locals of `run_backtest` that a checkpoint saves.
pub record Core (A S : Type 0) : Type 0 where
  pub broker : SpotBroker A
  pub strategy : S
  pub seq : ℕ
  pub last_trade_entry : Option (A × A)
  pub last_exec_ts : Option ℕ
  pub last_snapshot_ts : Option ℕ

-- `Checkpoint`, without run id, creation time and engine stamps. A `candle_offset` of `none` is -1.
pub record Checkpoint (A E : Type 0) : Type 0 where
  pub sim_ts : ℕ
  pub candle_offset : Option ℕ
  pub broker_state : BrokerState A
  pub strategy_state : E
  pub seq : ℕ
  pub last_exec_ts : Option ℕ
  pub last_snapshot_ts : Option ℕ
  pub last_trade_entry : Option (A × A)

-- The lists that the loop appends to, and the two counters of the checkpoint trigger.
pub record Logs (A E : Type 0) : Type 0 where
  pub events : List (Event A)
  pub equity_curve : List A
  pub trade_pnls : List A
  pub checkpoints : List (Checkpoint A E)
  pub bars_since_cp : ℕ
  pub last_checkpoint_sim_ts : Option ℕ

-- What one processed bar emits.
pub record Emission (A : Type 0) : Type 0 where
  pub events : List (Event A)
  pub equity : A
  pub trade_pnls : List A

-- `if value is not None and value > 0`
unfoldable pub positive : Option ℕ → Option ℕ
positive none = none
positive (some n) = if ltb 0 n then some n else none

-- The clamp: the bar comes too early after the last executed one.
unfoldable pub too_early : Option ℕ → Option ℕ → ℕ → Bool
too_early none last ts = false
too_early (some seconds) none ts = false
too_early (some seconds) (some last) ts = ltb ts (last + seconds * 1000)

unfoldable pub is_clamped : EngineConfig → Option ℕ → ℕ → Bool
unfolding positive too_early
is_clamped cfg last_exec_ts ts = too_early (positive cfg.loop_seconds) last_exec_ts ts

-- `now - last >= step`, where `last` may be None
unfoldable pub has_passed : ℕ → ℕ → Option ℕ → Bool
has_passed step now none = false
has_passed step now (some last) = leb (last + step) now

-- `bars_since_cp >= cp_every_bars`
unfoldable pub bar_due : Option ℕ → ℕ → Bool
bar_due none bars = false
bar_due (some every) bars = leb every bars

unfoldable pub time_due : Option ℕ → Option ℕ → ℕ → Bool
unfolding has_passed
time_due none last ts = false
time_due (some every) last ts = has_passed (every * 1000) ts last

-- The first bar anchors the clock of the time trigger.
unfoldable pub anchored : Option ℕ → Option ℕ → ℕ → Option ℕ
anchored none last ts = last
anchored (some every) none ts = some ts
anchored (some every) (some last) ts = some last

unfoldable pub is_some {ℓ} : {T : Type ℓ} → Option T → Bool
is_some none = false
is_some (some t) = true

unfoldable pub checkpointing_enabled : EngineConfig → Bool
unfolding positive is_some
checkpointing_enabled cfg =
    cfg.has_checkpoints_dir
    && (is_some (positive cfg.checkpoint_every_bars)
        || is_some (positive cfg.checkpoint_every_sim_seconds))

-- `i - 1`
unfoldable pub offset_before : ℕ → Option ℕ
offset_before ℕ.zero = none
offset_before (suc i) = some i
