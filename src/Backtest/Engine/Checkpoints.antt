-- ===== src/Backtest/Engine/Checkpoints.antt =====
-- Where the checkpoints of a run come from.
use mathlib.Core.List.{Memᴰ, append_assoc, append-nil}
use generik_dbhistogram_data.Base.{
  ℕ, ◌+◌, ◌≡◌, refl, sym, ◌∙◌, subst, Bool, false, none, some, List, [], ◌∷◌, ◌++◌, arith, inl, inr,
  ◌⊎◌, ◌||◌, Bool-cases, if◌then◌else◌,
}
use generik_dbhistogram_data.Base.Lists.{length, mem-append_cases}
use generik_dbhistogram_data.Base.Float.{Float}
use generik_dbhistogram_data.Backtest.Engine.{
  Candle, Strategy, EngineConfig, Core, Checkpoint, Logs, Emission, is_clamped,
  checkpointing_enabled, positive, bar_due, time_due, anchored,
}
use generik_dbhistogram_data.Backtest.Engine.Bar.{
  mark_executed, take_checkpoint, run_trigger, triggered, process_bar, append, step_bar,
}
use generik_dbhistogram_data.Backtest.Engine.Run.{is_skipped, run_bars}
use generik_dbhistogram_data.Backtest.Engine.Loop.{bars_split}

module _ {A D S E M : Type 0} ⦃F : Float A⦄ (strat : Strategy A D S E M) (cfg : EngineConfig)
    (candles : List (Candle A D)) where
  append_checkpoints : (e : Emission A) (l : Logs A E) → (append e l).checkpoints ≡ l.checkpoints
  unfolding append
  append_checkpoints e l = refl

  run_trigger_checkpoints :
      (i ts : ℕ) (c : Core A S) (l : Logs A E) (cp : Checkpoint A E)
      → Memᴰ cp (run_trigger strat cfg i ts c l).checkpoints
      → Memᴰ cp l.checkpoints ⊎ (cp ≡ take_checkpoint strat i ts c)
  unfolding run_trigger
  run_trigger_checkpoints i ts c l cp m =
      elim (Bool-cases (
        bar_due (positive cfg.checkpoint_every_bars) (l.bars_since_cp + 1)
        || time_due (positive cfg.checkpoint_every_sim_seconds) l.last_checkpoint_sim_ts ts)) [
          | inl due ↦
              mem-append_cases l.checkpoints (subst (λ b. Memᴰ cp (chosen b).checkpoints) due m)
          | inr not_due ↦ inl (subst (λ b. Memᴰ cp (chosen b).checkpoints) not_due m)
        ]
    where
      chosen : Bool → Logs A E
      chosen b =
          if b
          then record l {
            checkpoints = l.checkpoints ++ take_checkpoint strat i ts c ∷ [];
            bars_since_cp = 0;
            last_checkpoint_sim_ts = some ts;
          }
          else record l {
            bars_since_cp = l.bars_since_cp + 1;
            last_checkpoint_sim_ts =
                anchored (positive cfg.checkpoint_every_sim_seconds) l.last_checkpoint_sim_ts ts;
          }

  triggered_checkpoints :
      (i ts : ℕ) (c : Core A S) (l : Logs A E) (cp : Checkpoint A E)
      → Memᴰ cp (triggered strat cfg i ts c l).checkpoints
      → Memᴰ cp l.checkpoints ⊎ (cp ≡ take_checkpoint strat i ts c)
  unfolding triggered
  triggered_checkpoints i ts c l cp m = elim (Bool-cases (checkpointing_enabled cfg)) [
    | inl on ↦
        run_trigger_checkpoints i ts c l cp (subst (λ b. Memᴰ cp (chosen b).checkpoints) on m)
    | inr off ↦ inl (subst (λ b. Memᴰ cp (chosen b).checkpoints) off m)
  ]
    where
      chosen : Bool → Logs A E
      chosen b = if b then run_trigger strat cfg i ts c l else l

  -- A bar's checkpoints are the old ones and, if the clamp lets the bar pass, at most its own.
  step_checkpoints :
      (i : ℕ) (candle : Candle A D) (c : Core A S) (l : Logs A E) (cp : Checkpoint A E)
      → Memᴰ cp (step_bar strat cfg candles i candle (c, l)).1.checkpoints
      → Memᴰ cp l.checkpoints
        ⊎ ((is_clamped cfg c.last_exec_ts candle.open_time ≡ false)
            × (cp ≡ take_checkpoint strat i candle.open_time (mark_executed candle.open_time c)))
  unfolding step_bar append
  step_checkpoints i candle c l cp m =
      elim (Bool-cases (is_clamped cfg c.last_exec_ts candle.open_time)) [
        | inl early ↦ inl (subst (λ b. Memᴰ cp (chosen b).1.checkpoints) early m)
        | inr due ↦
            elim (triggered_checkpoints i candle.open_time (mark_executed candle.open_time c) l cp
              (subst (λ b. Memᴰ cp (chosen b).1.checkpoints) due m)) [
                | inl old ↦ inl old
                | inr e ↦ inr (due, e)
              ]
      ]
    where
      chosen : Bool → Core A S × Logs A E
      chosen b =
          if b
          then (c, l)
          else let c' = mark_executed candle.open_time c in
            let (c'', e) = process_bar strat cfg candles i candle c' in
            (c'', append e (triggered strat cfg i candle.open_time c' l))

  -- The checkpoint was taken at the bar `candle` behind `pre`, which the clamp let pass.
  pub record TakenAt (start : Core A S × Logs A E) (cp : Checkpoint A E) : Type 0 where
    pub pre : List (Candle A D)
    pub candle : Candle A D
    pub post : List (Candle A D)
    pub split : candles ≡ pre ++ candle ∷ post
    pub due :
        is_clamped cfg (run_bars strat cfg candles none 0 pre start).0.last_exec_ts candle.open_time
        ≡ false
    pub taken :
        cp
        ≡ take_checkpoint strat
            (length pre)
            candle.open_time
            (mark_executed candle.open_time (run_bars strat cfg candles none 0 pre start).0)

  bars_snoc :
      (pre : List (Candle A D)) (candle : Candle A D) (st : Core A S × Logs A E)
      → run_bars strat cfg candles none 0 (pre ++ candle ∷ []) st
        ≡ step_bar strat cfg candles (length pre) candle (run_bars strat cfg candles none 0 pre st)
  unfolding run_bars is_skipped
  bars_snoc pre candle st =
      bars_split strat cfg candles 0 (length pre) pre (candle ∷ []) st (omega arith)

  checkpoints_from :
      (start : Core A S × Logs A E) (pre rest : List (Candle A D)) (cp : Checkpoint A E)
      → candles ≡ pre ++ rest
      → ((c : Checkpoint A E)
          → Memᴰ c (run_bars strat cfg candles none 0 pre start).1.checkpoints
          → TakenAt start c)
      → Memᴰ cp (run_bars strat cfg candles none 0 (pre ++ rest) start).1.checkpoints
      → TakenAt start cp
  checkpoints_from start pre [] cp e old m = old cp (
      subst (λ p. Memᴰ cp (run_bars strat cfg candles none 0 p start).1.checkpoints)
        (append-nil pre) m)
  checkpoints_from start pre (candle ∷ rest) cp e old m =
      checkpoints_from start (pre ++ candle ∷ []) rest cp
        (e ∙ sym (append_assoc pre (candle ∷ []) rest))
        (λ c n.
          elim (step_checkpoints (length pre) candle _ _ c
            (subst (λ st. Memᴰ c st.1.checkpoints) (bars_snoc pre candle start) n)) [
              | inl before ↦ old c before
              | inr (due, taken) ↦ record {
                pre = pre;
                candle = candle;
                post = rest;
                split = e;
                due = due;
                taken = taken;
              }
            ])
        (subst (λ p. Memᴰ cp (run_bars strat cfg candles none 0 p start).1.checkpoints)
          (sym (append_assoc pre (candle ∷ []) rest)) m)

  pub checkpoints-TakenAt :
      (start : Core A S × Logs A E) (cp : Checkpoint A E)
      → start.1.checkpoints ≡ []
      → Memᴰ cp (run_bars strat cfg candles none 0 candles start).1.checkpoints
      → TakenAt start cp
  unfolding run_bars
  checkpoints-TakenAt start cp none_yet m =
      checkpoints_from start [] candles cp refl (λ c n. elim (subst (λ l. Memᴰ c l) none_yet n) [ ])
        m
