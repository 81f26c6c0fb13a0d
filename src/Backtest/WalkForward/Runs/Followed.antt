-- ===== src/Backtest/WalkForward/Runs/Followed.antt =====
-- `run_walk_forward` takes the course that it is to take.
use generik_dbhistogram_data.Base.{
  ℕ, zero, suc, ◌<◌, ◌≡◌, refl, subst, Option, none, some, List, [], ◌∷◌, map, arith, inl, inr,
  Bool-cases, Option-cases,
}
use generik_dbhistogram_data.Base.Lists.{All}
use generik_dbhistogram_data.Backtest.WalkForward.{
  WalkForwardWindow, WalkForwardConfig, checked, build_windows, engine_cfg_for_window, train_cfg,
  test_cfg, reads,
}
use generik_dbhistogram_data.Backtest.WalkForward.Folds.{
  IsChecked, checked-IsChecked, windows_from, build_windows-Lists, train_start-lt-end, test_lasts,
  test_end_lem,
}
use generik_dbhistogram_data.Backtest.WalkForward.Runs.{
  Drivers, FoldJob, FoldResult, fold_params, payload_of, run_fold, run_folds, fold_job_of,
  run_walk_forward,
}
use generik_dbhistogram_data.Backtest.WalkForward.Runs.Order.{EachTells, sort_folds-EachTells}
use generik_dbhistogram_data.Backtest.WalkForward.Runs.Course.{
  IsFor, Tunes, Trains, Tests, FoldCourse, Courses, Outcome,
}

-- A window of which neither part is empty.
abbrev IsProper : WalkForwardWindow → Type 0
IsProper v = (v.train_start_ts < v.train_end_ts) × (v.test_start_ts < v.test_end_ts)

module _ {B P M W : Type 0} (drivers : Drivers B P M W) where
  Courses-EachTells :
      (job : FoldJob B P) (vs : List WalkForwardWindow) (w w' : W) (rs : List (FoldResult P M))
      → Courses drivers job vs w (some (rs, w'))
      → EachTells vs rs
  Courses-EachTells job [] w w' [] c = tt
  Courses-EachTells job [] w w' (r ∷ rs) c = c
  Courses-EachTells job (v ∷ vs) w w' [] c = c
  Courses-EachTells job (v ∷ vs) w w' (r ∷ rs) (w1, c, d) =
      (c.0, Courses-EachTells job vs w1 w' rs d)

  engine_cfg-IsFor :
      (job : FoldJob B P) (start end : ℕ)
      → start < end
      → IsFor job start end (engine_cfg_for_window job.engine_config job.db_path start end)
  unfolding engine_cfg_for_window reads
  engine_cfg-IsFor job start end h = (refl, refl, λ t. (λ r. ground arith, λ (a, b). ground arith))

  fold_params-Tunes :
      (job : FoldJob B P) (w : W)
      → IsProper job.window
      → Tunes drivers job w (fold_params drivers job w)
  unfolding fold_params train_cfg
  fold_params-Tunes job w p = elim (Bool-cases job.optimize_per_fold) [
    | inl tuned ↦ rw tuned (inl (refl, (_, engine_cfg-IsFor job _ _ p.0, refl)))
    | inr given ↦ rw given (inr (refl, refl))
  ]

  train-Trains :
      (job : FoldJob B P) (p : P) (w : W) (o : Option ((Option ℕ × M) × W))
      → IsProper job.window
      → drivers.execute_and_persist
          (train_cfg job.engine_config job.db_path job.window)
          job.strategy_name
          p
          w
        ≡ o
      → Trains drivers job p w o
  unfolding train_cfg
  train-Trains job p w o proper e = (_, engine_cfg-IsFor job _ _ proper.0, e)

  test-Tests :
      (job : FoldJob B P) (p : P) (w : W) (o : Option ((Option ℕ × M) × W))
      → IsProper job.window
      → drivers.execute_and_persist
          (test_cfg job.engine_config job.db_path job.window)
          job.strategy_name
          p
          w
        ≡ o
      → Tests drivers job p w o
  unfolding test_cfg
  test-Tests job p w o proper e = (_, engine_cfg-IsFor job _ _ proper.1, e)

  run_fold-FoldCourse :
      (job : FoldJob B P) (w : W)
      → IsProper job.window
      → FoldCourse drivers job w (run_fold drivers job w)
  unfolding run_fold payload_of
  run_fold-FoldCourse job w proper = elim (Option-cases (fold_params drivers job w)) [
    | inl e ↦ rw e (inl (subst (Tunes drivers job w) e (fold_params-Tunes job w proper)))
    | inr ((p, w1), e) ↦
        let tunes = subst (Tunes drivers job w) e (fold_params-Tunes job w proper) in
        elim (Option-cases (
          drivers.execute_and_persist (train_cfg job.engine_config job.db_path job.window)
            job.strategy_name p w1)) [
              | inl f ↦ rw (e, f) (inr (p, w1, tunes, inl (train-Trains job p w1 none proper f)))
              | inr ((m, w2), f) ↦
                  let trains = train-Trains job p w1 (some (m, w2)) proper f in
                  elim (Option-cases (
                    drivers.execute_and_persist (test_cfg job.engine_config job.db_path job.window)
                      job.strategy_name p w2)) [
                        | inl g ↦
                            rw (e, f, g)
                              (inr (
                                p,
                                w1,
                                tunes,
                                inr (m, w2, trains, test-Tests job p w2 none proper g),
                              ))
                        | inr ((n, w3), g) ↦
                            rw (e, f, g)
                              (
                                (refl, refl, refl),
                                (
                                  w1,
                                  w2,
                                  tunes,
                                  trains,
                                  test-Tests job p w2 (some (n, w3)) proper g,
                                ),
                              )
                      ]
            ]
  ]

  run_folds-Courses :
      (job : FoldJob B P) (vs : List WalkForwardWindow) (w : W)
      → All IsProper vs
      → Courses drivers job vs w (run_folds drivers (map (fold_job_of job) vs) w)
  unfolding run_folds fold_job_of
  run_folds-Courses job [] w proper = refl
  run_folds-Courses job (v ∷ vs) w proper =
      let this = run_fold-FoldCourse (record job { window = v }) w proper.0 in
      elim (Option-cases (run_fold drivers (record job { window = v }) w)) [
        | inl e ↦ rw e (inl (subst (FoldCourse drivers (record job { window = v }) w) e this))
        | inr ((r, w1), e) ↦
            let first = subst (FoldCourse drivers (record job { window = v }) w) e this in
            let later = run_folds-Courses job vs w1 proper.1 in
            elim (Option-cases (run_folds drivers (map (fold_job_of job) vs) w1)) [
              | inl f ↦ rw (e, f) (inr (r, w1, first, subst (Courses drivers job vs w1) f later))
              | inr ((rs, w2), f) ↦ rw (e, f) (w1, first, subst (Courses drivers job vs w1) f later)
            ]
      ]

windows_from-IsProper :
    (cfg : WalkForwardConfig) (k count : ℕ)
    → IsChecked cfg
    → All IsProper (windows_from cfg k count)
windows_from-IsProper cfg k zero c = tt
windows_from-IsProper cfg k (suc count) c = (
  (train_start-lt-end cfg k c.1, omega (arith, test_lasts cfg k, test_end_lem cfg k, c.2)),
  windows_from-IsProper cfg (suc k) count c,
)

module _ {B P M W : Type 0} (drivers : Drivers B P M W) where
  -- The configuration passed its checks, and nothing is known of the drivers, which may raise:
  -- run_walk_forward handles the windows of build_windows in their order. For each it gets parameters,
  -- from the tuner on the candles of the training or as they were given, runs the strategy with them
  -- on the candles of the training, and then with the same parameters on those of the test, each call
  -- from the state that the one before left. It returns what these calls gave, one result for each
  -- window, in order; or it raises with the first call that does.
  pub run_walk_forward-Outcome :
      {G : Type 0} (aggregate : List (FoldResult P M) → G) (cfg : WalkForwardConfig)
      (job : FoldJob B P) (w : W)
      → checked cfg ≡ some cfg
      → (vs : List WalkForwardWindow) × (build_windows cfg ≡ some vs)
        × Outcome drivers aggregate job vs w (run_walk_forward drivers aggregate cfg job w)
  unfolding run_walk_forward
  run_walk_forward-Outcome aggregate cfg job w h =
      let (count, listed, _) = build_windows-Lists cfg h in
      let vs = windows_from cfg 0 count in
      let course =
        run_folds-Courses drivers job vs w
          (windows_from-IsProper cfg 0 count (checked-IsChecked cfg h)) in
      (
        vs,
        listed,
        elim (Option-cases (run_folds drivers (map (fold_job_of job) vs) w)) [
          | inl e ↦ rw (listed, e) (subst (Courses drivers job vs w) e course)
          | inr ((rs, w1), e) ↦
              let c = subst (Courses drivers job vs w) e course in
              rw
                (
                  listed,
                  e,
                  sort_folds-EachTells cfg 0 count rs (Courses-EachTells drivers job vs w w1 rs c),
                )
                (refl, c, refl)
        ],
      )
