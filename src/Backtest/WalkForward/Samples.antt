-- ===== src/Backtest/WalkForward/Samples.antt =====
-- Which candles the runs of a fold read: what is tested was not trained on.
use Prim.Native.String.{String}
use native.Mathlib.Nat.{suc-mul}
use mathlib.Core.List.{Memᴰ}
use generik_dbhistogram_data.Base.{
  ℕ, zero, suc, ◌+◌, ◌≤◌, ◌<◌, ◌≡◌, sym, ap, ◌∙◌, subst, true, some, List, ltb, arith, inl, inr,
  Bool-cases,
}
use generik_dbhistogram_data.Backtest.WalkForward.{
  WalkForwardWindow, WalkForwardConfig, RunConfig, checked, window_of, build_windows,
  engine_cfg_for_window, train_cfg, test_cfg, reads,
}
use generik_dbhistogram_data.Backtest.WalkForward.Folds.{
  windows_from, test_end, IsChecked, checked-IsChecked, test_end_lem, train_start-lt-end,
  mul_step_mono, train_start-ge-full_start, test_lasts, test_follows, build_windows-Lists,
}

mem-windows_from :
    (cfg : WalkForwardConfig) (w : WalkForwardWindow) (fold count : ℕ)
    → Memᴰ w (windows_from cfg fold count)
    → (k : ℕ) × (w ≡ window_of cfg k) × (k < fold + count)
mem-windows_from cfg w fold zero m = elim m [ ]
mem-windows_from cfg w fold (suc count) (Memᴰ.head e) = (fold, e, omega arith)
mem-windows_from cfg w fold (suc count) (Memᴰ.tail m) =
    let (k, e, l) = mem-windows_from cfg w (suc fold) count m in (k, e, omega (arith, l))

some-inj {ℓ} : {A : Type ℓ} {a b : A} → some a ≡ some b → a ≡ b
some-inj e = cc

-- A listed window is that of a fold whose test ends within the full range.
fold_of_window :
    (cfg : WalkForwardConfig) (ws : List WalkForwardWindow) (w : WalkForwardWindow)
    → checked cfg ≡ some cfg
    → build_windows cfg ≡ some ws
    → Memᴰ w ws
    → (k : ℕ) × (w ≡ window_of cfg k) × (test_end cfg k ≤ cfg.full_end_ts)
fold_of_window cfg ws w h b m =
    let (count, e, all_fit) = build_windows-Lists cfg h in
    let (k, f, l) =
      mem-windows_from cfg w 0 count (subst (λ x. Memᴰ w x) (some-inj (sym b ∙ e)) m) in
    (k, f, (all_fit k).0 (omega (arith, l)))

module _ {B : Type 0} (base : RunConfig B) (db : String) where
  -- The bounds that the runs of a fold read between.
  reads_between :
      (start end t : ℕ)
      → start < end
      → reads (engine_cfg_for_window base db start end) t ≡ true
      → (start ≤ t) × (t < end)
  unfolding reads engine_cfg_for_window
  reads_between start end t h r = ground arith

  train_bounds :
      (cfg : WalkForwardConfig) (k t : ℕ)
      → IsChecked cfg
      → reads (train_cfg base db (window_of cfg k)) t ≡ true
      → (cfg.full_start_ts ≤ t) × (t < (window_of cfg k).train_end_ts)
  unfolding train_cfg
  train_bounds cfg k t c r =
      let (after_start, before_end) =
        reads_between (window_of cfg k).train_start_ts (window_of cfg k).train_end_ts t
          (train_start-lt-end cfg k c.1) r in
      (omega (arith, train_start-ge-full_start cfg k), before_end)

  test_bounds :
      (cfg : WalkForwardConfig) (k u : ℕ)
      → IsChecked cfg
      → reads (test_cfg base db (window_of cfg k)) u ≡ true
      → ((window_of cfg k).test_start_ts ≤ u)
        × (u < test_end cfg k)
        × (test_end cfg k ≤ u + cfg.test_window_ms)
  unfolding test_cfg
  test_bounds cfg k u c r =
      let (after_start, before_end) =
        reads_between (window_of cfg k).test_start_ts (window_of cfg k).test_end_ts u
          (omega (arith, test_lasts cfg k, test_end_lem cfg k, c.2)) r in
      (after_start, omega (arith, test_end_lem cfg k), omega (arith, test_lasts cfg k))

  -- The configuration passed its checks, and build_windows lists the window: the candles of its test
  -- are later than those of its training, and both lie within the full range.
  pub tests_after_training :
      (cfg : WalkForwardConfig) (ws : List WalkForwardWindow) (w : WalkForwardWindow) (t u : ℕ)
      → checked cfg ≡ some cfg
      → build_windows cfg ≡ some ws
      → Memᴰ w ws
      → reads (train_cfg base db w) t ≡ true
      → reads (test_cfg base db w) u ≡ true
      → (cfg.full_start_ts ≤ t) × (t < u) × (u < cfg.full_end_ts)
  tests_after_training cfg ws w t u h b m train test =
      let (k, e, fits) = fold_of_window cfg ws w h b m in
      let c = checked-IsChecked cfg h in
      let (from_start, trained) =
        train_bounds cfg k t c (subst (λ x. reads (train_cfg base db x) t ≡ true) e train) in
      let (tested, before_end, _) =
        test_bounds cfg k u c (subst (λ x. reads (test_cfg base db x) u ≡ true) e test) in
      (from_start, omega (arith, test_follows cfg k), omega arith)

  test_before :
      (cfg : WalkForwardConfig) (j k u : ℕ)
      → IsChecked cfg
      → cfg.test_window_ms ≤ cfg.step_ms
      → j < k
      → reads (test_cfg base db (window_of cfg j)) u ≡ true
      → reads (test_cfg base db (window_of cfg k)) u ≡ true
      → ⊥
  test_before cfg j k u c s l rj rk = omega (
    arith,
    test_bounds cfg j u c rj,
    test_bounds cfg k u c rk,
    mul_step_mono (suc j) k cfg.step_ms l,
    suc-mul j cfg.step_ms,
    s,
  )

  same_fold :
      (cfg : WalkForwardConfig) (j k u : ℕ)
      → IsChecked cfg
      → cfg.test_window_ms ≤ cfg.step_ms
      → reads (test_cfg base db (window_of cfg j)) u ≡ true
      → reads (test_cfg base db (window_of cfg k)) u ≡ true
      → j ≡ k
  same_fold cfg j k u c s rj rk = elim (Bool-cases (ltb j k)) [
    | inl before ↦ absurd (test_before cfg j k u c s (ground arith) rj rk)
    | inr not_before ↦ elim (Bool-cases (ltb k j)) [
      | inl after ↦ absurd (test_before cfg k j u c s (ground arith) rk rj)
      | inr not_after ↦ ground arith
    ]
  ]

  -- The configuration passed its checks, and its step is at least as long as a test: no two windows
  -- that build_windows lists test the same candle.
  pub tested_once :
      (cfg : WalkForwardConfig) (ws : List WalkForwardWindow) (v w : WalkForwardWindow) (u : ℕ)
      → checked cfg ≡ some cfg
      → cfg.test_window_ms ≤ cfg.step_ms
      → build_windows cfg ≡ some ws
      → Memᴰ v ws
      → Memᴰ w ws
      → reads (test_cfg base db v) u ≡ true
      → reads (test_cfg base db w) u ≡ true
      → v ≡ w
  tested_once cfg ws v w u h s b m n test_v test_w =
      let (j, e, _) = fold_of_window cfg ws v h b m in
      let (k, f, _) = fold_of_window cfg ws w h b n in
      let in_j = subst (λ x. reads (test_cfg base db x) u ≡ true) e test_v in
      let in_k = subst (λ x. reads (test_cfg base db x) u ≡ true) f test_w in
      e ∙ ap (window_of cfg) (same_fold cfg j k u (checked-IsChecked cfg h) s in_j in_k) ∙ sym f
