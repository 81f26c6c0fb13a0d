-- ===== src/Backtest/Integrity.antt =====
-- backtest/data_integrity.py: what is stored of a symbol's candles, and where they have gaps. The
-- table `klines` is the list of its rows; ORDER BY is an insertion sort.
pub mod Gaps
use Prim.Native.String.{String}
use text.Mathlib.Text.{◌==◌ as str_eq}
use generik_dbhistogram_data.Base.{
  ℕ, zero, suc, ◌+◌, ◌-◌, ◌/◌, Bool, true, false, ◌&&◌, Option, none, some, List, [], ◌∷◌, ◌++◌,
  map, ltb, leb, if◌then◌else◌, max, min,
}
use generik_dbhistogram_data.Base.Lists.{length, keep}

pub record Kline : Type 0 where
  pub symbol : String
  pub interval : String
  pub open_time : ℕ

-- The arguments that the queries share; a bound of None is `none`.
pub record Window : Type 0 where
  pub symbol : String
  pub interval : String
  pub start_ts : Option ℕ
  pub end_ts : Option ℕ

-- The entries of `_INTERVAL_TO_MS`.
abbrev pub interval_to_ms : List (String × ℕ)
interval_to_ms =
    ("1s", 1000)
    ∷ ("1m", 60000)
    ∷ ("3m", 180000)
    ∷ ("5m", 300000)
    ∷ ("15m", 900000)
    ∷ ("30m", 1800000)
    ∷ ("1h", 3600000)
    ∷ ("2h", 7200000)
    ∷ ("4h", 14400000)
    ∷ ("6h", 21600000)
    ∷ ("8h", 28800000)
    ∷ ("12h", 43200000)
    ∷ ("1d", 86400000)
    ∷ ("3d", 259200000)
    ∷ ("1w", 604800000)
    ∷ []

-- `dict.get(key, default)`
unfoldable pub lookup : String → ℕ → List (String × ℕ) → ℕ
lookup key default [] = default
lookup key default ((name, ms) ∷ entries) =
    if str_eq name key then ms else lookup key default entries

-- `normal` is `strip().lower()`.
unfoldable pub interval_step_ms : (String → String) → String → ℕ
unfolding lookup
interval_step_ms normal interval = lookup (normal interval) 60000 interval_to_ms

unfoldable pub not_before : Option ℕ → ℕ → Bool
not_before none t = true
not_before (some start) t = leb start t

unfoldable pub not_after : Option ℕ → ℕ → Bool
not_after none t = true
not_after (some end) t = leb t end

-- The `WHERE` clause.
unfoldable pub selects : Window → Kline → Bool
selects w k =
    str_eq k.symbol w.symbol
    && str_eq k.interval w.interval
    && not_before w.start_ts k.open_time
    && not_after w.end_ts k.open_time

unfoldable pub open_times : Window → List Kline → List ℕ
open_times w rows = map (λ (k : Kline). k.open_time) (keep (selects w) rows)

unfoldable pub insert : ℕ → List ℕ → List ℕ
insert t [] = t ∷ []
insert t (u ∷ us) = if leb t u then t ∷ u ∷ us else u ∷ insert t us

-- `ORDER BY open_time ASC`
unfoldable pub ascending : List ℕ → List ℕ
unfolding insert
ascending [] = []
ascending (t ∷ ts) = insert t (ascending ts)

-- The loop of `find_gaps`, from the previous time on.
unfoldable pub gap_loop : ℕ → ℕ → Option ℕ → List (ℕ × ℕ) → List ℕ → List (ℕ × ℕ)
gap_loop step max_gaps prev gaps [] = gaps
gap_loop step max_gaps none gaps (ts ∷ rest) = gap_loop step max_gaps (some ts) gaps rest
gap_loop step max_gaps (some prev) gaps (ts ∷ rest) = elim (ltb (prev + step) ts) [
  | false ↦ gap_loop step max_gaps (some ts) gaps rest
  | true ↦
      let gaps' = gaps ++ (prev + step, ts - step) ∷ [] in
      elim (leb max_gaps (length gaps')) [
        | true ↦ gaps'
        | false ↦ gap_loop step max_gaps (some ts) gaps' rest
      ]
]

unfoldable pub find_gaps : (String → String) → Window → ℕ → List Kline → List (ℕ × ℕ)
find_gaps normal w max_gaps rows =
    gap_loop (interval_step_ms normal w.interval) max_gaps none [] (ascending (open_times w rows))

pub record WindowStats : Type 0 where
  pub symbol : String
  pub interval : String
  pub count : ℕ
  pub min_open_time : Option ℕ
  pub max_open_time : Option ℕ
  pub expected_step_ms : ℕ

-- SQL's MIN and MAX, NULL for no rows.
unfoldable pub best : (ℕ → ℕ → ℕ) → List ℕ → Option ℕ
best f [] = none
best f (t ∷ ts) = elim (best f ts) [ none ↦ some t | some u ↦ some (f t u) ]

unfoldable pub window_stats : (String → String) → Window → List Kline → WindowStats
unfolding best
window_stats normal w rows = record {
  symbol = w.symbol;
  interval = w.interval;
  count = length (open_times w rows);
  min_open_time = best min (open_times w rows);
  max_open_time = best max (open_times w rows);
  expected_step_ms = interval_step_ms normal w.interval;
}

unfoldable pub next_continuous_open_time :
    (String → String) → String → String → List Kline → Option ℕ
next_continuous_open_time normal symbol interval rows =
    let w : Window = record {
      symbol = symbol;
      interval = interval;
      start_ts = none;
      end_ts = none;
    } in
    let stats = window_stats normal w rows in
    elim stats.max_open_time [ none ↦ none | some last ↦ some (last + stats.expected_step_ms) ]
