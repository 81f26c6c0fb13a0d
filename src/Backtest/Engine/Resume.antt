-- ===== src/Backtest/Engine/Resume.antt =====
-- A run that is resumed from one of its checkpoints does what the uninterrupted run did.
use mathlib.Core.List.{Memᴰ}
use generik_dbhistogram_data.Base.{
  ℕ, suc, ◌≡◌, refl, sym, ap, ◌∙◌, subst, none, List, [], ◌∷◌, ◌++◌,
}
use generik_dbhistogram_data.Base.Lists.{All, length}
use generik_dbhistogram_data.Base.Float.{Float, IsOrderedFloat}
use generik_dbhistogram_data.Backtest.Broker.{new_broker}
use generik_dbhistogram_data.Backtest.Broker.Solvency.{NonNeg, IsFair}
use generik_dbhistogram_data.Backtest.Engine.{
  Candle, Strategy, EngineConfig, Core, Checkpoint, positive,
}
use generik_dbhistogram_data.Backtest.Engine.Bar.{mark_executed, take_checkpoint}
use generik_dbhistogram_data.Backtest.Engine.Run.{
  Opening, get, empty_logs, resume_core, resume_logs, run_backtest, resume_backtest,
}
use generik_dbhistogram_data.Backtest.Engine.Loop.{step, bars-Alike, step-Alike}
use generik_dbhistogram_data.Backtest.Engine.Checkpoints.{TakenAt, checkpoints-TakenAt}
use generik_dbhistogram_data.Backtest.Engine.Shift.{shift, GrownAlike-start, Alike}
use generik_dbhistogram_data.Backtest.Engine.Solvency.{
  start_core-IsSound, IsSound, PosPrice, seed_broker_solvent, run_bars-IsSound,
}
use generik_dbhistogram_data.Backtest.Engine.Reentry.{
  start, reached, resumed, restart, step_marked, full_run, resumed_run,
}

module _ {A D S E M : Type 0} ⦃F : Float A⦄ (L : IsOrderedFloat F) (strat : Strategy A D S E M)
    (cfg : EngineConfig) (o : Opening A E) (candles : List (Candle A D)) where
  -- A checkpoint of a state with a sound broker gives that state back.
  resume_core_restores :
      (i ts : ℕ) (c s : Core A S)
      → IsSound s.broker.fee_rate s.broker.slippage_bps c.broker
      → strat.import_state (strat.export_state c.strategy) s.strategy ≡ c.strategy
      → resume_core strat (take_checkpoint strat i ts (mark_executed ts c)) s
        ≡ shift (mark_executed ts c)
  unfolding resume_core take_checkpoint mark_executed shift
  resume_core_restores i ts c s v restores =
      rw
        (
          seed_broker_solvent L c.broker.state s.broker.state v.solvent,
          restores,
          sym v.same_fee,
          sym v.same_bps,
        )
        refl

  priced_before : (pre rest : List (Candle A D)) → All PosPrice (pre ++ rest) → All PosPrice pre
  priced_before [] rest p = tt
  priced_before (c ∷ pre) rest p = (p.0, priced_before pre rest p.1)

  -- What a checkpoint that was taken at a known bar leads to.
  resumed_at :
      (cp : Checkpoint A E) (t : TakenAt strat cfg candles (start strat cfg o candles) cp)
      → IsFair (new_broker o.initial_cash o.fee_rate o.slippage_bps)
      → NonNeg (get o.broker_seed.cash o.initial_cash)
      → All PosPrice candles
      → positive cfg.loop_seconds ≡ none
      → ((s : S)
          → strat.import_state (strat.export_state s) (start strat cfg o candles).0.strategy ≡ s)
      → resume_core strat cp (start strat cfg o candles).0
        ≡ shift (mark_executed t.candle.open_time (reached strat cfg o candles t.pre).0)
  resumed_at cp t fair cash priced unclocked restores =
      ap (λ c. resume_core strat c (start strat cfg o candles).0) t.taken
      ∙ resume_core_restores (length t.pre) t.candle.open_time (reached strat cfg o candles t.pre).0
          (start strat cfg o candles).0
          (run_bars-IsSound L strat cfg candles 0 t.pre (start strat cfg o candles) _ _
            (priced_before t.pre (t.candle ∷ t.post) (subst (All PosPrice) t.split priced))
            (start_core-IsSound L strat o candles fair cash))
          (restores (reached strat cfg o candles t.pre).0.strategy)

  -- The two runs are alike after the bar of the checkpoint.
  Alike-after_bar :
      (cp : Checkpoint A E) (t : TakenAt strat cfg candles (start strat cfg o candles) cp)
      → positive cfg.loop_seconds ≡ none
      → resumed strat cfg o candles cp
        ≡ shift (mark_executed t.candle.open_time (reached strat cfg o candles t.pre).0)
      → Alike strat
          (reached strat cfg o candles t.pre).1
          (resume_logs strat candles cp (resumed strat cfg o candles cp))
          (step strat cfg candles (length t.pre) t.candle (reached strat cfg o candles t.pre))
          (step strat cfg candles (length t.pre) t.candle (restart strat cfg o candles cp))
  Alike-after_bar cp t unclocked e =
      subst
        (λ st.
          Alike strat (reached strat cfg o candles t.pre).1
            (resume_logs strat candles cp (resumed strat cfg o candles cp)) st
            (step strat cfg candles (length t.pre) t.candle (restart strat cfg o candles cp)))
        (sym (
          step_marked strat cfg o candles (length t.pre) t.candle
            (reached strat cfg o candles t.pre).0 (reached strat cfg o candles t.pre).1 unclocked
            t.due))
        (step-Alike strat cfg candles (length t.pre) t.candle _ _ _ _
          (record { core = e; logs = GrownAlike-start _ _ }))

  -- Without a loop clamp, with candles of positive prices, a fair broker with cash that is not
  -- negative, and a strategy whose `import_state` restores what `export_state` gave: each checkpoint
  -- of an uninterrupted run was taken at a bar, and the run resumed from it ends in the same broker,
  -- strategy and trade state as the uninterrupted run, with a sequence number one higher (that of
  -- the resume event); from that bar on it has appended the same events, but for that difference in
  -- their numbers, and the same equities and trade profits.
  pub resume_repeats_run :
      (cp : Checkpoint A E)
      → IsFair (new_broker o.initial_cash o.fee_rate o.slippage_bps)
      → NonNeg (get o.broker_seed.cash o.initial_cash)
      → All PosPrice candles
      → positive cfg.loop_seconds ≡ none
      → ((s : S)
          → strat.import_state (strat.export_state s) (start strat cfg o candles).0.strategy ≡ s)
      → Memᴰ cp (run_backtest strat cfg o candles).1.checkpoints
      → (t : TakenAt strat cfg candles (start strat cfg o candles) cp) × Alike strat
          (reached strat cfg o candles t.pre).1
          (resume_logs strat candles cp (resumed strat cfg o candles cp))
          (run_backtest strat cfg o candles)
          (resume_backtest strat cfg o cp candles)
  unfolding run_backtest empty_logs
  resume_repeats_run cp fair cash priced unclocked restores m =
      let t = checkpoints-TakenAt strat cfg candles (start strat cfg o candles) cp refl m in
      (
        t,
        rw (full_run strat cfg o candles cp t, resumed_run strat cfg o candles cp t)
            (bars-Alike strat cfg candles (suc (length t.pre)) t.post _ _ _ _ (
              Alike-after_bar cp t unclocked
                (resumed_at cp t fair cash priced unclocked restores))),
      )
