-- ===== src/Backtest/WalkForward/Runs.antt =====
-- `_run_fold` and `run_walk_forward` without an orchestrator: the runs of each fold, one after the
-- other. The two calls that they make of the engine's drivers are arguments, and so is the
-- aggregation of the results; a call that raises ends it all with `none`.
pub mod Order
pub mod Course
pub mod Followed
use Prim.Native.String.{String}
use generik_dbhistogram_data.Base.{
  ℕ, Bool, true, false, Option, none, some, List, [], ◌∷◌, ◌++◌, map, leb, if◌then◌else◌,
}
use generik_dbhistogram_data.Backtest.WalkForward.{
  WalkForwardWindow, WalkForwardConfig, RunConfig, build_windows, train_cfg, test_cfg,
}

infixl 10 ◌>>=◌
abbrev ◌>>=◌ : {A C : Type 0} → Option A → (A → Option C) → Option C
none >>= f = none
some a >>= f = f a

-- `execute_and_persist` and `optimize_strategy`, which write to the database: `W` is all that they
-- read and write, `P` a strategy's parameters, `M` the metrics of a run.
pub record Drivers (B P M W : Type 0) : Type 0 where
  pub execute_and_persist : RunConfig B → String → P → W → Option ((Option ℕ × M) × W)
  pub run_optuna_for_fold : String → RunConfig B → String → W → Option (P × W)

pub record FoldJob (B P : Type 0) : Type 0 where
  pub window : WalkForwardWindow
  pub strategy_name : String
  pub base_strategy_params : P
  pub engine_config : RunConfig B
  pub db_path : String
  pub optimize_per_fold : Bool

pub record FoldResult (P M : Type 0) : Type 0 where
  pub fold_index : ℕ
  pub train_window : ℕ × ℕ
  pub test_window : ℕ × ℕ
  pub params : P
  pub train_run_id : Option ℕ
  pub test_run_id : Option ℕ
  pub train_metrics : M
  pub test_metrics : M

pub record WalkForwardResult (P M G : Type 0) : Type 0 where
  pub windows : List WalkForwardWindow
  pub fold_results : List (FoldResult P M)
  pub aggregated : G

module _ {P M : Type 0} where
  -- `sort(key=lambda d: d["fold_index"])`, which is stable.
  unfoldable pub put_fold : FoldResult P M → List (FoldResult P M) → List (FoldResult P M)
  put_fold r [] = r ∷ []
  put_fold r (s ∷ rs) = if leb r.fold_index s.fold_index then r ∷ s ∷ rs else s ∷ put_fold r rs

  unfoldable pub sort_folds : List (FoldResult P M) → List (FoldResult P M)
  sort_folds [] = []
  sort_folds (r ∷ rs) = put_fold r (sort_folds rs)

module _ {B P : Type 0} where
  -- The job of a window: `template` is what all jobs share.
  unfoldable pub fold_job_of : FoldJob B P → WalkForwardWindow → FoldJob B P
  fold_job_of template window = record template { window = window }

  -- The dict that `_run_fold` returns, from the ids and metrics of the two runs.
  unfoldable pub payload_of :
      {M : Type 0} → FoldJob B P → P → Option ℕ × M → Option ℕ × M → FoldResult P M
  payload_of job params (train_id, train_metrics) (test_id, test_metrics) = record {
    fold_index = job.window.fold_index;
    train_window = (job.window.train_start_ts, job.window.train_end_ts);
    test_window = (job.window.test_start_ts, job.window.test_end_ts);
    params = params;
    train_run_id = train_id;
    test_run_id = test_id;
    train_metrics = train_metrics;
    test_metrics = test_metrics;
  }

module _ {B P M W : Type 0} (drivers : Drivers B P M W) where
  -- The parameters that both runs of the fold get.
  unfoldable pub fold_params : FoldJob B P → W → Option (P × W)
  fold_params job w =
      if job.optimize_per_fold
      then drivers.run_optuna_for_fold job.strategy_name
          (train_cfg job.engine_config job.db_path job.window) job.db_path w
      else some (job.base_strategy_params, w)

  unfoldable pub run_fold : FoldJob B P → W → Option (FoldResult P M × W)
  run_fold job w = do
    (params, w1) ← fold_params job w
    (trained, w2) ←
        drivers.execute_and_persist (train_cfg job.engine_config job.db_path job.window)
          job.strategy_name params w1
    (tested, w3) ←
        drivers.execute_and_persist (test_cfg job.engine_config job.db_path job.window)
          job.strategy_name params w2
    some (payload_of job params trained tested, w3)

  unfoldable pub run_folds : List (FoldJob B P) → W → Option (List (FoldResult P M) × W)
  run_folds [] w = some ([], w)
  run_folds (job ∷ jobs) w = do
    (result, w1) ← run_fold job w
    (results, w2) ← run_folds jobs w1
    some (result ∷ results, w2)

  unfoldable pub run_walk_forward :
      {G : Type 0}
      → (List (FoldResult P M) → G)
      → WalkForwardConfig
      → FoldJob B P
      → W
      → Option (WalkForwardResult P M G × W)
  run_walk_forward aggregate cfg template w = do
    windows ← build_windows cfg
    (results, w1) ← run_folds (map (fold_job_of template) windows) w
    some (
      record {
        windows = windows;
        fold_results = sort_folds results;
        aggregated = aggregate (sort_folds results);
      },
      w1,
    )
