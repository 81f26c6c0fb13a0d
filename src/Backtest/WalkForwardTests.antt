-- ===== src/Backtest/WalkForwardTests.antt =====
-- The theorems on the folds, at a range of 100 ms: three folds that train on 40 ms and test on 20.
use mathlib.Core.List.{Memᴰ}
use generik_dbhistogram_data.Base.{
  ℕ, suc, ◌+◌, ◌*◌, ◌≤◌, ◌<◌, ◌≡◌, ◌↔◌, refl, true, false, none, some, List, [], ◌∷◌, arith,
}
use generik_dbhistogram_data.Backtest.WalkForward.{
  WalkForwardWindow, WalkForwardConfig, RunConfig, checked, train_start_of, train_end_of, window_of,
  fold_loop, build_windows, engine_cfg_for_window, train_cfg, test_cfg, reads,
}
use generik_dbhistogram_data.Backtest.WalkForward.Folds.{windows_from, build_windows-Lists}
use generik_dbhistogram_data.Backtest.WalkForward.Runs.{
  Drivers, FoldJob, FoldResult, run_walk_forward,
}
use generik_dbhistogram_data.Backtest.WalkForward.Runs.Course.{Outcome}
use generik_dbhistogram_data.Backtest.WalkForward.Runs.Followed.{run_walk_forward-Outcome}
use generik_dbhistogram_data.Backtest.WalkForward.Samples.{tests_after_training, tested_once}

abbrev rolling : WalkForwardConfig
rolling = record {
  full_start_ts = 0;
  full_end_ts = 100;
  train_window_ms = 40;
  test_window_ms = 20;
  step_ms = 20;
  anchored = false;
}

abbrev expanding : WalkForwardConfig
expanding = record rolling { anchored = true }

abbrev window : ℕ → ℕ → ℕ → WalkForwardWindow
window start end fold = record {
  train_start_ts = start;
  train_end_ts = end;
  test_start_ts = end;
  test_end_ts = end + 20;
  fold_index = fold;
}

abbrev three : List WalkForwardWindow
three = window 0 40 0 ∷ window 20 60 1 ∷ window 40 80 2 ∷ []

checked-rolling : checked rolling ≡ some rolling
unfolding checked
checked-rolling = refl

empty_range_raises : checked (record rolling { full_end_ts = 0 }) ≡ none
unfolding checked
empty_range_raises = refl

rolling_windows : build_windows rolling ≡ some three
unfolding build_windows fold_loop window_of train_start_of train_end_of
rolling_windows = refl

expanding_windows :
    build_windows expanding ≡ some (window 0 40 0 ∷ window 0 60 1 ∷ window 0 80 2 ∷ [])
unfolding build_windows fold_loop window_of train_start_of train_end_of
expanding_windows = refl

abbrev base_run : RunConfig ℕ
base_run = record { base = 0; db_path = "klines.db"; start_ts = none; end_ts = none }

trains_on_39 : reads (train_cfg base_run "klines.db" (window 0 40 0)) 39 ≡ true
unfolding reads train_cfg engine_cfg_for_window
trains_on_39 = refl

tests_on_40 : reads (test_cfg base_run "klines.db" (window 0 40 0)) 40 ≡ true
unfolding reads test_cfg engine_cfg_for_window
tests_on_40 = refl

build_windows-Lists_example :
    (count : ℕ) × (build_windows rolling ≡ some (windows_from rolling 0 count))
    × ((k : ℕ) → (k < count) ↔ (0 + 40 + 20 + k * 20 ≤ 100))
build_windows-Lists_example = build_windows-Lists rolling checked-rolling

tests_after_training_example : (0 ≤ 39) × (39 < 40) × (40 < 100)
tests_after_training_example =
    tests_after_training base_run "klines.db" rolling three (window 0 40 0) 39 40 checked-rolling
      rolling_windows (Memᴰ.head refl) trains_on_39 tests_on_40

tested_once_example : window 0 40 0 ≡ window 0 40 0
tested_once_example =
    tested_once base_run "klines.db" rolling three (window 0 40 0) (window 0 40 0) 40
      checked-rolling (omega arith) rolling_windows (Memᴰ.head refl) (Memᴰ.head refl) tests_on_40
      tests_on_40

-- The world counts the calls; the metrics of a run are its parameters, and a tuning gives 9.
abbrev counting : Drivers ℕ ℕ ℕ ℕ
counting = record {
  execute_and_persist = λ c s p w. some ((some w, p), suc w);
  run_optuna_for_fold = λ s c db w. some (9, suc w);
}

abbrev template : FoldJob ℕ ℕ
template = record {
  window = window 0 40 0;
  strategy_name = "dorothy";
  base_strategy_params = 5;
  engine_config = base_run;
  db_path = "klines.db";
  optimize_per_fold = true;
}

abbrev zero_summary : List (FoldResult ℕ ℕ) → ℕ
zero_summary rs = 0

run_walk_forward-Outcome_example :
    (vs : List WalkForwardWindow) × (build_windows rolling ≡ some vs)
    × Outcome counting zero_summary template vs 1
        (run_walk_forward counting zero_summary rolling template 1)
run_walk_forward-Outcome_example =
    run_walk_forward-Outcome counting zero_summary rolling template 1 checked-rolling
