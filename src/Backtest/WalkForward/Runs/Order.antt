-- ===== src/Backtest/WalkForward/Runs/Order.antt =====
-- The results of the folds are in the order of their windows, and the sort keeps them so.
use generik_dbhistogram_data.Base.{ℕ, zero, suc, ◌≡◌, refl, ap, ◌∙◌, List, [], ◌∷◌, arith}
use generik_dbhistogram_data.Backtest.WalkForward.{WalkForwardWindow, WalkForwardConfig, window_of}
use generik_dbhistogram_data.Backtest.WalkForward.Folds.{windows_from}
use generik_dbhistogram_data.Backtest.WalkForward.Runs.{FoldResult, put_fold, sort_folds}

window_index : (cfg : WalkForwardConfig) (k : ℕ) → (window_of cfg k).fold_index ≡ k
unfolding window_of
window_index cfg k = refl

module _ {P M : Type 0} where
  -- The result is that of the window's fold.
  abbrev pub Tells : WalkForwardWindow → FoldResult P M → Type 0
  Tells w r =
      (r.fold_index ≡ w.fold_index)
      × (r.train_window ≡ (w.train_start_ts, w.train_end_ts))
      × (r.test_window ≡ (w.test_start_ts, w.test_end_ts))

  -- One result for each window, in the same order.
  abbrev pub EachTells : List WalkForwardWindow → List (FoldResult P M) → Type 0
  EachTells [] [] = Unit
  EachTells [] (r ∷ rs) = ⊥
  EachTells (w ∷ ws) [] = ⊥
  EachTells (w ∷ ws) (r ∷ rs) = Tells w r × EachTells ws rs

  put_fold_first :
      (cfg : WalkForwardConfig) (r : FoldResult P M) (k count : ℕ) (rs : List (FoldResult P M))
      → r.fold_index ≡ k
      → EachTells (windows_from cfg (suc k) count) rs
      → put_fold r rs ≡ r ∷ rs
  unfolding put_fold
  put_fold_first cfg r k count [] e t = refl
  put_fold_first cfg r k zero (s ∷ rs) e t = absurd t
  put_fold_first cfg r k (suc count) (s ∷ rs) e t = ground (arith, t.0.0, window_index cfg (suc k))

  pub sort_folds-EachTells :
      (cfg : WalkForwardConfig) (k count : ℕ) (rs : List (FoldResult P M))
      → EachTells (windows_from cfg k count) rs
      → sort_folds rs ≡ rs
  unfolding sort_folds
  sort_folds-EachTells cfg k count [] t = refl
  sort_folds-EachTells cfg k zero (r ∷ rs) t = absurd t
  sort_folds-EachTells cfg k (suc count) (r ∷ rs) t =
      ap (put_fold r) (sort_folds-EachTells cfg (suc k) count rs t.1)
      ∙ put_fold_first cfg r k count rs (t.0.0 ∙ window_index cfg k) t.1
