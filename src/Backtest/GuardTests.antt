-- ===== src/Backtest/GuardTests.antt =====
-- The theorems on the resource guard, in whole percents.
use generik_dbhistogram_data.Base.{ℕ, ◌≡◌, refl, true, none, some, List, [], ◌∷◌, arith}
use generik_dbhistogram_data.Base.Whole.{whole}
use generik_dbhistogram_data.Backtest.Guards.{
  ResourceGuardConfig, Snapshot, new_guard, is_high, sustained, last_windows,
}
use generik_dbhistogram_data.Backtest.Guards.History.{expected}
use generik_dbhistogram_data.Backtest.Guards.Hysteresis.{watch, observed, guard_follows_history}

abbrev two_windows : ResourceGuardConfig ℕ
two_windows = record {
  cpu_cap_pct = 80;
  ram_cap_pct = 80;
  sample_sec = 5;
  high_watermark_windows = 2;
  recover_windows = 3;
  scale_up_headroom_pct = 15;
}

abbrev samples : List (Snapshot ℕ)
samples = some (90, 10) ∷ none ∷ some (20, 85) ∷ some (20, 30) ∷ some (20, 30) ∷ []

-- Throttled after two high samples, and not yet recovered after two low ones.
still_throttled : expected 2 3 (observed two_windows samples []) ≡ true
unfolding expected observed is_high sustained last_windows whole
still_throttled = refl

guard_follows_history_example :
    (watch samples (new_guard two_windows true)).throttle
    ≡ expected 2 3 (observed two_windows samples [])
guard_follows_history_example =
    guard_follows_history two_windows (omega arith) (omega arith) true samples
