-- ===== src/Backtest/IntegrityTests.antt =====
-- The theorems on gaps, at a small table.
use Prim.Native.String.{String}
use mathlib.Core.List.{Memᴰ}
use generik_dbhistogram_data.Base.{ℕ, ◌≡◌, refl, true, none, List, [], ◌∷◌}
use generik_dbhistogram_data.Base.Lists.{All}
use generik_dbhistogram_data.Backtest.Integrity.{
  Kline, Window, selects, not_before, not_after, find_gaps,
}
use generik_dbhistogram_data.Backtest.Integrity.Gaps.{Avoids, find_gaps-Avoids}

abbrev kline : ℕ → Kline
kline t = record { symbol = "BTCUSDT"; interval = "1m"; open_time = t }

abbrev stored : List Kline
stored = kline 300000 ∷ kline 0 ∷ kline 60000 ∷ []

abbrev all_time : Window
all_time = record { symbol = "BTCUSDT"; interval = "1m"; start_ts = none; end_ts = none }

abbrev plain : String → String
plain s = s

in_window : selects all_time (kline 60000) ≡ true
unfolding selects not_before not_after
in_window = refl

find_gaps-Avoids_example : All (Avoids 60000) (find_gaps plain all_time 1000 stored)
find_gaps-Avoids_example =
    find_gaps-Avoids plain all_time 1000 stored (kline 60000)
      (Memᴰ.tail (Memᴰ.tail (Memᴰ.head refl))) in_window
