-- ===== src/Backtest/WalkForward/Runs/Course.antt =====
-- The course of `run_walk_forward`: which calls of the drivers are made, with which candles, in which
-- order, and with which parameters, also where one of them raises.
use generik_dbhistogram_data.Base.{
  ℕ, ◌≤◌, ◌<◌, ◌≡◌, ◌↔◌, ◌⊎◌, true, false, Option, none, some, List, [], ◌∷◌,
}
use generik_dbhistogram_data.Backtest.WalkForward.{WalkForwardWindow, RunConfig, reads}
use generik_dbhistogram_data.Backtest.WalkForward.Runs.{
  Drivers, FoldJob, FoldResult, WalkForwardResult,
}
use generik_dbhistogram_data.Backtest.WalkForward.Runs.Order.{Tells}

-- The configuration is that of the job, but reads the candles from `start` to `end`, without `end`.
abbrev pub IsFor : {B P : Type 0} → FoldJob B P → ℕ → ℕ → RunConfig B → Type 0
IsFor job start end c =
    (c.base ≡ job.engine_config.base)
    × (c.db_path ≡ job.db_path)
    × ((t : ℕ) → (reads c t ≡ true) ↔ ((start ≤ t) × (t < end)))

module _ {B P M W : Type 0} (drivers : Drivers B P M W) where
  -- The parameters of a fold: what the tuner found in the candles of the training, or the given ones.
  abbrev pub Tunes : FoldJob B P → W → Option (P × W) → Type 0
  Tunes job w outcome =
      ((job.optimize_per_fold ≡ true)
        × ((c : RunConfig B) × IsFor job job.window.train_start_ts job.window.train_end_ts c
            × (drivers.run_optuna_for_fold job.strategy_name c job.db_path w ≡ outcome)))
      ⊎ ((job.optimize_per_fold ≡ false) × (outcome ≡ some (job.base_strategy_params, w)))

  -- A run of the job's strategy on the candles from `start` to `end`.
  abbrev pub Runs : FoldJob B P → ℕ → ℕ → P → W → Option ((Option ℕ × M) × W) → Type 0
  Runs job start end params w outcome =
      (c : RunConfig B) × IsFor job start end c
      × (drivers.execute_and_persist c job.strategy_name params w ≡ outcome)

  abbrev pub Trains : FoldJob B P → P → W → Option ((Option ℕ × M) × W) → Type 0
  Trains job = Runs job job.window.train_start_ts job.window.train_end_ts

  abbrev pub Tests : FoldJob B P → P → W → Option ((Option ℕ × M) × W) → Type 0
  Tests job = Runs job job.window.test_start_ts job.window.test_end_ts

  -- A fold gets its parameters, trains with them, and tests with the same; what it reports is what
  -- these calls gave. Without a result the first call that raised was one of the three.
  abbrev pub FoldCourse : FoldJob B P → W → Option (FoldResult P M × W) → Type 0
  FoldCourse job w none =
      Tunes job w none
      ⊎ ((p : P) × (w1 : W) × Tunes job w (some (p, w1))
          × (Trains job p w1 none
              ⊎ ((m : Option ℕ × M) × (w2 : W) × Trains job p w1 (some (m, w2))
                  × Tests job p w2 none)))
  FoldCourse job w (some (r, w3)) =
      Tells job.window r
      × ((w1 : W) × (w2 : W) × Tunes job w (some (r.params, w1))
          × Trains job r.params w1 (some ((r.train_run_id, r.train_metrics), w2))
          × Tests job r.params w2 (some ((r.test_run_id, r.test_metrics), w3)))

  -- The folds of the windows, one after the other, up to the first that raises.
  abbrev pub Courses :
      FoldJob B P → List WalkForwardWindow → W → Option (List (FoldResult P M) × W) → Type 0
  Courses job [] w none = ⊥
  Courses job [] w (some ([], w')) = w' ≡ w
  Courses job [] w (some (r ∷ rs, w')) = ⊥
  Courses job (v ∷ vs) w none =
      FoldCourse (record job { window = v }) w none
      ⊎ ((r : FoldResult P M) × (w1 : W) × FoldCourse (record job { window = v }) w (some (r, w1))
          × Courses job vs w1 none)
  Courses job (v ∷ vs) w (some ([], w')) = ⊥
  Courses job (v ∷ vs) w (some (r ∷ rs, w')) =
      (w1 : W) × FoldCourse (record job { window = v }) w (some (r, w1))
      × Courses job vs w1 (some (rs, w'))

  -- The outcome of `run_walk_forward` for these windows.
  abbrev pub Outcome :
      {G : Type 0}
      → (List (FoldResult P M) → G)
      → FoldJob B P
      → List WalkForwardWindow
      → W
      → Option (WalkForwardResult P M G × W)
      → Type 0
  Outcome aggregate job vs w none = Courses job vs w none
  Outcome aggregate job vs w (some (o, w')) =
      (o.windows ≡ vs)
      × Courses job vs w (some (o.fold_results, w'))
      × (o.aggregated ≡ aggregate o.fold_results)
