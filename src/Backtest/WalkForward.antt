-- ===== src/Backtest/WalkForward.antt =====
-- backtest/walkforward_runner.py: the folds of a rolling evaluation, and the candles that the two runs
-- of a fold read.
pub mod Folds
pub mod Samples
pub mod Runs
use Prim.Native.String.{String}
use generik_dbhistogram_data.Base.{
  ℕ, zero, suc, ◌+◌, ◌-◌, ◌*◌, Bool, true, false, ◌&&◌, ◌||◌, Option, none, some, List, [], ◌∷◌,
  ◌++◌, ltb, leb, if◌then◌else◌,
}

pub record WalkForwardWindow : Type 0 where
  pub train_start_ts : ℕ
  pub train_end_ts : ℕ
  pub test_start_ts : ℕ
  pub test_end_ts : ℕ
  pub fold_index : ℕ

pub record WalkForwardConfig : Type 0 where
  pub full_start_ts : ℕ
  pub full_end_ts : ℕ
  pub train_window_ms : ℕ
  pub test_window_ms : ℕ
  pub step_ms : ℕ
  pub anchored : Bool

-- `__post_init__`, `none` where it raises.
unfoldable pub checked : WalkForwardConfig → Option WalkForwardConfig
checked cfg =
    if leb cfg.full_end_ts cfg.full_start_ts
    then none
    else if leb cfg.train_window_ms 0
    then none
    else if leb cfg.test_window_ms 0
    then none
    else if leb cfg.step_ms 0
    then none
    else some cfg

unfoldable pub train_start_of : WalkForwardConfig → ℕ → ℕ
train_start_of cfg fold =
    if cfg.anchored then cfg.full_start_ts else cfg.full_start_ts + fold * cfg.step_ms

unfoldable pub train_end_of : WalkForwardConfig → ℕ → ℕ
train_end_of cfg fold =
    if cfg.anchored
    then cfg.full_start_ts + cfg.train_window_ms + fold * cfg.step_ms
    else train_start_of cfg fold + cfg.train_window_ms

unfoldable pub window_of : WalkForwardConfig → ℕ → WalkForwardWindow
window_of cfg fold = record {
  train_start_ts = train_start_of cfg fold;
  train_end_ts = train_end_of cfg fold;
  test_start_ts = train_end_of cfg fold;
  test_end_ts = train_end_of cfg fold + cfg.test_window_ms;
  fold_index = fold;
}

-- The loop, with the fuel for its turns first; `none` where that does not do.
unfoldable pub fold_loop :
    WalkForwardConfig → ℕ → ℕ → List WalkForwardWindow → Option (List WalkForwardWindow)
fold_loop cfg zero fold windows = none
fold_loop cfg (suc fuel) fold windows =
    elim (ltb cfg.full_end_ts (window_of cfg fold).test_end_ts
      || leb (window_of cfg fold).train_end_ts (window_of cfg fold).train_start_ts) [
        | true ↦ some windows
        | false ↦ fold_loop cfg fuel (suc fold) (windows ++ window_of cfg fold ∷ [])
      ]

unfoldable pub build_windows : WalkForwardConfig → Option (List WalkForwardWindow)
build_windows cfg = fold_loop cfg (suc cfg.full_end_ts) 0 []

-- `EngineConfig`, as far as the folds set it: `base` is the rest of it.
pub record RunConfig (B : Type 0) : Type 0 where
  pub base : B
  pub db_path : String
  pub start_ts : Option ℕ
  pub end_ts : Option ℕ

module _ {B : Type 0} where
  unfoldable pub engine_cfg_for_window : RunConfig B → String → ℕ → ℕ → RunConfig B
  engine_cfg_for_window cfg db start_ts end_ts = record cfg {
    db_path = db;
    start_ts = some start_ts;
    end_ts = some (end_ts - 1);
  }

  -- The two configurations of `_run_fold`.
  unfoldable pub train_cfg : RunConfig B → String → WalkForwardWindow → RunConfig B
  train_cfg cfg db w = engine_cfg_for_window cfg db w.train_start_ts w.train_end_ts

  unfoldable pub test_cfg : RunConfig B → String → WalkForwardWindow → RunConfig B
  test_cfg cfg db w = engine_cfg_for_window cfg db w.test_start_ts w.test_end_ts

  -- The bounds in the `WHERE` clause of `query_klines`: a run reads the candles of these open times.
  unfoldable pub reads : RunConfig B → ℕ → Bool
  reads cfg open_time =
      elim cfg.start_ts [ none ↦ true | some start ↦ leb start open_time ]
      && elim cfg.end_ts [ none ↦ true | some end ↦ leb open_time end ]
