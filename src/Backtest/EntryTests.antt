-- ===== src/Backtest/EntryTests.antt =====
-- The theorems on the entry filter, in whole prices.
use generik_dbhistogram_data.Base.{ℕ, ◌≡◌, true, List, [], ◌∷◌, arith}
use generik_dbhistogram_data.Base.Whole.{whole}
use generik_dbhistogram_data.Backtest.EntryFilter.{
  EntryGateConfig, Candle, required, evaluate_entry_gate, on_tick, new_monitor,
}
use generik_dbhistogram_data.Backtest.EntryFilter.Memory.{
  Feed, operating_candle, macro_candle, tick, operating_of, macro_of, hear_all, on_tick_remembers,
}

abbrev gate : EntryGateConfig ℕ
gate = record {
  donchian_lookback = 2;
  donchian_tolerance_pct = 100;
  macro_ma_lookback = 2;
  macro_ma_source = "close";
  macro_drop_pct = 0;
  require_momentum_uptick = true;
  momentum_source = "close";
}

abbrev bar : ℕ → ℕ → Candle ℕ
bar low close = ("low", low) ∷ ("close", close) ∷ []

abbrev bars : List (Candle ℕ)
bars = bar 9 12 ∷ bar 8 10 ∷ bar 3 9 ∷ []

-- Three candles of each kind, of which deques of two keep two.
abbrev feeds : List (Feed ℕ)
feeds =
    operating_candle (bar 3 9)
    ∷ macro_candle (bar 3 9)
    ∷ tick 5
    ∷ macro_candle (bar 8 10)
    ∷ operating_candle (bar 8 10)
    ∷ operating_candle (bar 9 12)
    ∷ macro_candle (bar 9 12)
    ∷ []

on_tick_remembers_example :
    (on_tick 13 (hear_all feeds (new_monitor gate 2 2))).1
    ≡ evaluate_entry_gate gate (operating_of feeds []) (macro_of feeds []) 13
unfolding required
on_tick_remembers_example = on_tick_remembers gate 2 2 feeds 13 (omega arith) (omega arith)
