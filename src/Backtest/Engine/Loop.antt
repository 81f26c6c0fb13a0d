-- ===== src/Backtest/Engine/Loop.antt =====
-- The loop over the bars: two runs in step, skipped bars, and a loop in two parts.
use generik_dbhistogram_data.Base.{
  ℕ, suc, ◌+◌, ◌≤◌, ◌<◌, ◌≡◌, refl, sym, ◌∙◌, subst, true, false, none, some, List, [], ◌∷◌, ◌++◌,
  arith, leb,
}
use generik_dbhistogram_data.Base.Lists.{length}
use generik_dbhistogram_data.Base.Float.{Float}
use generik_dbhistogram_data.Backtest.Engine.{
  Candle, Strategy, EngineConfig, Core, Logs, offset_before,
}
use generik_dbhistogram_data.Backtest.Engine.Bar.{step_bar}
use generik_dbhistogram_data.Backtest.Engine.Run.{is_skipped, run_bars}
use generik_dbhistogram_data.Backtest.Engine.Shift.{Alike, step_bar-Alike}

not_below : (i k : ℕ) → k < i → leb i k ≡ false
not_below i k h = ground arith

below : (i k : ℕ) → i ≤ k → leb i k ≡ true
below i k h = ground arith

module _ {A D S E M : Type 0} ⦃F : Float A⦄ (strat : Strategy A D S E M) (cfg : EngineConfig)
    (candles : List (Candle A D)) where
  -- one bar, and the loop without a resume
  abbrev pub step : ℕ → Candle A D → Core A S × Logs A E → Core A S × Logs A E
  step = step_bar strat cfg candles

  abbrev pub bars : ℕ → List (Candle A D) → Core A S × Logs A E → Core A S × Logs A E
  bars = run_bars strat cfg candles none

  pub step-Alike :
      (i : ℕ) (candle : Candle A D) (b b' : Logs A E) (u v : Core A S × Logs A E)
      → Alike strat b b' u v
      → Alike strat b b' (step i candle u) (step i candle v)
  step-Alike i candle b b' (c, l) (d, m) a =
      subst (λ x. Alike strat b b' (step i candle (c, l)) (step i candle (x, m))) (sym a.core)
        (step_bar-Alike strat cfg candles i candle c b l b' m a.logs)

  pub bars-Alike :
      (i : ℕ) (rest : List (Candle A D)) (b b' : Logs A E) (u v : Core A S × Logs A E)
      → Alike strat b b' u v
      → Alike strat b b' (bars i rest u) (bars i rest v)
  unfolding run_bars is_skipped
  bars-Alike i [] b b' u v a = a
  bars-Alike i (c ∷ rest) b b' u v a =
      bars-Alike (suc i) rest b b' (step i c u) (step i c v) (step-Alike i c b b' u v a)

  -- Past the skipped indices the loop is the one without a resume.
  pub bars_past :
      (k i : ℕ) (rest : List (Candle A D)) (st : Core A S × Logs A E)
      → k < i
      → run_bars strat cfg candles (some k) i rest st ≡ bars i rest st
  unfolding run_bars is_skipped
  bars_past k i [] st h = refl
  bars_past k i (c ∷ rest) st h =
      rw (not_below i k h) (bars_past k (suc i) rest (step i c st) (omega arith))

  skipped :
      (k i : ℕ) (c : Candle A D) (rest : List (Candle A D)) (st : Core A S × Logs A E)
      → i ≤ k
      → run_bars strat cfg candles (some k) i (c ∷ rest) st
        ≡ run_bars strat cfg candles (some k) (suc i) rest st
  unfolding run_bars is_skipped
  skipped k i c rest st h = rw (below i k h) refl

  pub bars_skip :
      (k i : ℕ) (pre rest : List (Candle A D)) (st : Core A S × Logs A E)
      → i + length pre ≡ suc k
      → run_bars strat cfg candles (some k) i (pre ++ rest) st ≡ bars (suc k) rest st
  unfolding run_bars is_skipped
  bars_skip k i [] rest st h =
      subst (λ j. run_bars strat cfg candles (some k) i rest st ≡ bars j rest st) (omega arith)
        (bars_past k i rest st (omega arith))
  bars_skip k i (c ∷ pre) rest st h =
      skipped k i c (pre ++ rest) st (omega arith) ∙ bars_skip k (suc i) pre rest st (omega arith)

  -- The offset of a checkpoint at the bar behind `pre` leads the resumed loop to that bar.
  pub bars_resumed :
      (pre rest : List (Candle A D)) (st : Core A S × Logs A E)
      → run_bars strat cfg candles (offset_before (length pre)) 0 (pre ++ rest) st
        ≡ bars (length pre) rest st
  unfolding offset_before
  bars_resumed [] rest st = refl
  bars_resumed (c ∷ pre) rest st = bars_skip (length pre) 0 (c ∷ pre) rest st (omega arith)

  pub bars_split :
      (i j : ℕ) (pre rest : List (Candle A D)) (st : Core A S × Logs A E)
      → i + length pre ≡ j
      → bars i (pre ++ rest) st ≡ bars j rest (bars i pre st)
  unfolding run_bars is_skipped
  bars_split i j [] rest st h = subst (λ k. bars i rest st ≡ bars k rest st) (omega arith) refl
  bars_split i j (c ∷ pre) rest st h = bars_split (suc i) j pre rest (step i c st) (omega arith)
