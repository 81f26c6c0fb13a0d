-- ===== src/Backtest/Engine/Reentry.antt =====
-- Where a resumed run re-enters the loop, and the bar that the loop clamp makes it skip.
use mathlib.Core.List.{Memᴰ}
use generik_dbhistogram_data.Base.{
  ℕ, suc, ◌<◌, ◌≡◌, refl, sym, ap, ◌∙◌, subst, true, false, none, some, List, ◌∷◌, ◌++◌, arith,
}
use generik_dbhistogram_data.Base.Lists.{length}
use generik_dbhistogram_data.Base.Float.{Float}
use generik_dbhistogram_data.Backtest.Engine.{
  Candle, Strategy, EngineConfig, Core, Checkpoint, Logs, positive, too_early, is_clamped,
}
use generik_dbhistogram_data.Backtest.Engine.Bar.{mark_executed, take_checkpoint, step_bar}
use generik_dbhistogram_data.Backtest.Engine.Run.{
  Opening, is_skipped, empty_logs, start_core, resume_core, resume_logs, run_bars, run_backtest,
  resume_backtest,
}
use generik_dbhistogram_data.Backtest.Engine.Loop.{bars, step, bars_resumed, bars_split}
use generik_dbhistogram_data.Backtest.Engine.Checkpoints.{TakenAt, checkpoints-TakenAt}

module _ {A D S E M : Type 0} ⦃F : Float A⦄ (strat : Strategy A D S E M) (cfg : EngineConfig)
    (o : Opening A E) (candles : List (Candle A D)) where
  abbrev pub start : Core A S × Logs A E
  start = (start_core strat o candles, empty_logs)

  -- the state in which the run reaches the bar behind `pre`
  abbrev pub reached : List (Candle A D) → Core A S × Logs A E
  reached pre = run_bars strat cfg candles none 0 pre start

  unclamped : (ts : ℕ) → positive cfg.loop_seconds ≡ none → is_clamped cfg (some ts) ts ≡ false
  unfolding is_clamped too_early
  unclamped ts h = rw h refl

  pub step_marked :
      (i : ℕ) (candle : Candle A D) (c : Core A S) (l : Logs A E)
      → positive cfg.loop_seconds ≡ none
      → is_clamped cfg c.last_exec_ts candle.open_time ≡ false
      → step_bar strat cfg candles i candle (c, l)
        ≡ step_bar strat cfg candles i candle (mark_executed candle.open_time c, l)
  unfolding step_bar mark_executed
  step_marked i candle c l h due = rw (due, unclamped candle.open_time h) refl

  abbrev pub resumed : Checkpoint A E → Core A S
  resumed cp = resume_core strat cp start.0

  -- the state in which the loop of the resumed run starts
  abbrev pub restart : Checkpoint A E → Core A S × Logs A E
  restart cp = (resumed cp, resume_logs strat candles cp (resumed cp))

  pub full_run :
      (cp : Checkpoint A E) (t : TakenAt strat cfg candles start cp)
      → run_backtest strat cfg o candles
        ≡ bars strat cfg candles
            (suc (length t.pre))
            t.post
            (step strat cfg candles (length t.pre) t.candle (reached t.pre))
  unfolding run_backtest run_bars is_skipped
  full_run cp t =
      ap (λ r. run_bars strat cfg candles none 0 r start) t.split
      ∙ bars_split strat cfg candles 0 (length t.pre) t.pre (t.candle ∷ t.post) start (omega arith)

  pub resumed_run :
      (cp : Checkpoint A E) (t : TakenAt strat cfg candles start cp)
      → resume_backtest strat cfg o cp candles
        ≡ bars strat cfg candles
            (suc (length t.pre))
            t.post
            (step strat cfg candles (length t.pre) t.candle (restart cp))
  unfolding resume_backtest take_checkpoint run_bars is_skipped
  resumed_run cp t =
      ap (λ r. run_bars strat cfg candles cp.candle_offset 0 r (restart cp)) t.split
      ∙ ap
          (λ c.
            run_bars strat cfg candles c.candle_offset 0 (t.pre ++ t.candle ∷ t.post) (restart cp))
          t.taken
      ∙ bars_resumed strat cfg candles t.pre (t.candle ∷ t.post) (restart cp)

  clamped : (ts n : ℕ) → cfg.loop_seconds ≡ some n → 0 < n → is_clamped cfg (some ts) ts ≡ true
  unfolding is_clamped too_early positive
  clamped ts n h p = rw h (ground arith)

  step_clamped :
      (i : ℕ) (candle : Candle A D) (c : Core A S) (l : Logs A E)
      → is_clamped cfg c.last_exec_ts candle.open_time ≡ true
      → step strat cfg candles i candle (c, l) ≡ (c, l)
  unfolding step_bar
  step_clamped i candle c l early = rw early refl

  saved_exec_ts :
      (cp : Checkpoint A E) (t : TakenAt strat cfg candles start cp)
      → (resumed cp).last_exec_ts ≡ some t.candle.open_time
  unfolding resume_core take_checkpoint mark_executed
  saved_exec_ts cp t = ap (λ c. c.last_exec_ts) t.taken

  -- With a loop clamp, each checkpoint of an uninterrupted run was taken at a bar which that run
  -- processed, and the run resumed from it does not process that bar: it goes on with the next one
  -- in the state and the logs that it has after the resume.
  pub resume_skips_bar :
      (cp : Checkpoint A E) (n : ℕ)
      → cfg.loop_seconds ≡ some n
      → 0 < n
      → Memᴰ cp (run_backtest strat cfg o candles).1.checkpoints
      → (t : TakenAt strat cfg candles start cp) × (resume_backtest strat cfg o cp candles
          ≡ run_bars strat cfg candles none (suc (length t.pre)) t.post (restart cp))
  unfolding run_backtest empty_logs
  resume_skips_bar cp n clock some_seconds m =
      let t = checkpoints-TakenAt strat cfg candles start cp refl m in
      (
        t,
        resumed_run cp t
            ∙ ap (run_bars strat cfg candles none (suc (length t.pre)) t.post) (
                step_clamped (length t.pre) t.candle (resumed cp) _ (
                  subst (λ last. is_clamped cfg last t.candle.open_time ≡ true)
                    (sym (saved_exec_ts cp t)) (clamped t.candle.open_time n clock some_seconds))),
      )
