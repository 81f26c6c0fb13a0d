-- ===== src/Backtest/Strategies/Agartha/Restart.antt =====
-- A backtest of the strategy that is resumed from a checkpoint.
use mathlib.Core.List.{Memᴰ}
use generik_dbhistogram_data.Base.{◌≡◌, refl, none, Option, List}
use generik_dbhistogram_data.Base.Lists.{All}
use generik_dbhistogram_data.Base.Float.{Float, IsOrderedFloat}
use generik_dbhistogram_data.Backtest.Broker.{new_broker}
use generik_dbhistogram_data.Backtest.Broker.Solvency.{NonNeg, IsFair}
use generik_dbhistogram_data.Backtest.Engine.{Candle, EngineConfig, Checkpoint, positive}
use generik_dbhistogram_data.Backtest.Engine.Run.{
  Opening, get, resume_logs, run_backtest, resume_backtest,
}
use generik_dbhistogram_data.Backtest.Engine.Checkpoints.{TakenAt}
use generik_dbhistogram_data.Backtest.Engine.Shift.{Alike}
use generik_dbhistogram_data.Backtest.Engine.Solvency.{PosPrice}
use generik_dbhistogram_data.Backtest.Engine.Reentry.{start, reached, resumed}
use generik_dbhistogram_data.Backtest.Engine.Resume.{resume_repeats_run}
use generik_dbhistogram_data.Backtest.Strategies.Agartha.{
  AgarthaParams, AgarthaState, AgarthaExport, get_or,
}
use generik_dbhistogram_data.Backtest.Strategies.Agartha.Methods.{
  export_state, import_state, agartha,
}

module _ {A : Type 0} ⦃F : Float A⦄ where
  -- All of the state goes into a checkpoint, and whatever object imports it gets all of it.
  import-export : (s t : AgarthaState A) → import_state (export_state s) t ≡ s
  unfolding import_state export_state get_or
  import-export s t = refl

module _ {A : Type 0} ⦃F : Float A⦄ (L : IsOrderedFloat F) (p : AgarthaParams A)
    (cfg : EngineConfig) (o : Opening A (AgarthaExport A))
    (candles : List (Candle A (Option A))) where
  -- Without a loop clamp, with candles of positive prices and a fair broker whose cash is not
  -- negative: a run of the Agartha strategy that is resumed from one of its checkpoints ends like
  -- the run that was not interrupted, its cycles, peak and pending limit included, and appends the
  -- same from that bar on, but that its sequence numbers are one higher.
  pub agartha_repeats_run :
      (cp : Checkpoint A (AgarthaExport A))
      → IsFair (new_broker o.initial_cash o.fee_rate o.slippage_bps)
      → NonNeg (get o.broker_seed.cash o.initial_cash)
      → All PosPrice candles
      → positive cfg.loop_seconds ≡ none
      → Memᴰ cp (run_backtest (agartha p) cfg o candles).1.checkpoints
      → (t : TakenAt (agartha p) cfg candles (start (agartha p) cfg o candles) cp) × Alike
          (agartha p)
          (reached (agartha p) cfg o candles t.pre).1
          (resume_logs (agartha p) candles cp (resumed (agartha p) cfg o candles cp))
          (run_backtest (agartha p) cfg o candles)
          (resume_backtest (agartha p) cfg o cp candles)
  unfolding agartha
  agartha_repeats_run cp fair cash priced unclocked m =
      resume_repeats_run L (agartha p) cfg o candles cp fair cash priced unclocked
        (λ s. import-export s _) m
