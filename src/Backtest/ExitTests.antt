-- ===== src/Backtest/ExitTests.antt =====
-- The theorems on the exit planner, in whole amounts.
use generik_dbhistogram_data.Base.{ℕ, ◌≡◌, refl, false, []}
use generik_dbhistogram_data.Base.Float.{lt}
use generik_dbhistogram_data.Base.Whole.{whole, whole-IsOrderedFloat}
use generik_dbhistogram_data.Backtest.Broker.Solvency.{NonNeg}
use generik_dbhistogram_data.Backtest.ExitPlanner.{ExitQuery, compute_trail_floor}
use generik_dbhistogram_data.Backtest.ExitPlanner.Floor.{trail_floor_bounds}

abbrev query : ExitQuery ℕ
query = record {
  current_price = 150;
  entry_price = 100;
  peak_price = 200;
  trailing_stop_pct = 100;
  breakeven_lock_pct = 100;
  filters = record {
    tick_size = 1;
    bid_multiplier_down = 0;
    bid_multiplier_up = 5;
    ask_multiplier_down = 0;
    ask_multiplier_up = 5;
    min_notional = 1;
  };
  recent_highs = [];
  crest_pullback_pct = 15;
  aggressive_limit_offset_ticks = 1;
}

trail_floor_bounds_example :
    NonNeg {A = ℕ} (compute_trail_floor 200 100 100 100)
    × (lt {A = ℕ} 200 (compute_trail_floor 200 100 100 100) ≡ false)
unfolding whole
trail_floor_bounds_example = trail_floor_bounds whole-IsOrderedFloat 200 100 refl refl refl 100 100
