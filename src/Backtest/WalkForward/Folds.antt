-- ===== src/Backtest/WalkForward/Folds.antt =====
-- Which folds `build_windows` lists.
use mathlib.Core.List.{append_assoc, append-nil}
use generik_dbhistogram_data.Base.{
  ℕ, zero, suc, ◌+◌, ◌*◌, ◌≤◌, ◌<◌, ◌≡◌, ◌↔◌, refl, ap, ◌∙◌, subst, true, false, ◌||◌, Option, some,
  List, [], ◌∷◌, ◌++◌, ltb, leb, arith, inl, inr, ◌⊎◌, Bool-cases,
}
use generik_dbhistogram_data.Backtest.WalkForward.{
  WalkForwardWindow, WalkForwardConfig, checked, train_start_of, train_end_of, window_of, fold_loop,
  build_windows,
}

-- The windows of `count` folds from `fold` on.
abbrev pub windows_from : WalkForwardConfig → ℕ → ℕ → List WalkForwardWindow
windows_from cfg fold zero = []
windows_from cfg fold (suc count) = window_of cfg fold ∷ windows_from cfg (suc fold) count

-- When a fold's test ends.
abbrev pub test_end : WalkForwardConfig → ℕ → ℕ
test_end cfg k = cfg.full_start_ts + cfg.train_window_ms + cfg.test_window_ms + k * cfg.step_ms

-- What `checked` lets through.
abbrev pub IsChecked : WalkForwardConfig → Type 0
IsChecked cfg =
    (cfg.full_start_ts < cfg.full_end_ts)
    × (0 < cfg.train_window_ms)
    × (0 < cfg.test_window_ms)
    × (0 < cfg.step_ms)

pub checked-IsChecked : (cfg : WalkForwardConfig) → checked cfg ≡ some cfg → IsChecked cfg
unfolding checked
checked-IsChecked cfg h = ground arith

pub test_end_lem :
    (cfg : WalkForwardConfig) (k : ℕ) → (window_of cfg k).test_end_ts ≡ test_end cfg k
unfolding window_of train_end_of train_start_of
test_end_lem cfg k = elim (Bool-cases cfg.anchored) [
  | inl a ↦ rw a (omega arith)
  | inr r ↦ rw r (omega arith)
]

pub train_start-ge-full_start :
    (cfg : WalkForwardConfig) (k : ℕ) → cfg.full_start_ts ≤ (window_of cfg k).train_start_ts
unfolding window_of train_start_of
train_start-ge-full_start cfg k = ground arith

-- A test starts where the training ends, and lasts its milliseconds.
pub test_lasts :
    (cfg : WalkForwardConfig) (k : ℕ)
    → (window_of cfg k).test_start_ts + cfg.test_window_ms ≡ test_end cfg k
unfolding window_of train_end_of train_start_of
test_lasts cfg k = test_end_lem cfg k

pub test_follows :
    (cfg : WalkForwardConfig) (k : ℕ)
    → (window_of cfg k).test_start_ts ≡ (window_of cfg k).train_end_ts
unfolding window_of
test_follows cfg k = refl

pub train_start-lt-end :
    (cfg : WalkForwardConfig) (k : ℕ)
    → 0 < cfg.train_window_ms
    → (window_of cfg k).train_start_ts < (window_of cfg k).train_end_ts
unfolding window_of train_end_of train_start_of
train_start-lt-end cfg k h = elim (Bool-cases cfg.anchored) [
  | inl a ↦ rw a (omega (arith, h))
  | inr r ↦ rw r (omega (arith, h))
]

le_mul_step : (k step : ℕ) → 0 < step → k ≤ k * step
le_mul_step k zero h = omega arith
le_mul_step k (suc s) h = ground arith

pub mul_step_mono : (j k step : ℕ) → j ≤ k → j * step ≤ k * step
mul_step_mono j k step h = grind arith

fits_before : (cfg : WalkForwardConfig) (j k : ℕ) → j ≤ k → test_end cfg j ≤ test_end cfg k
fits_before cfg j k h = omega (arith, mul_step_mono j k cfg.step_ms h)

-- The loop goes on exactly while the test of the fold ends within the range.
stops_iff :
    (cfg : WalkForwardConfig) (k : ℕ)
    → IsChecked cfg
    → (ltb cfg.full_end_ts (window_of cfg k).test_end_ts
        || leb (window_of cfg k).train_end_ts (window_of cfg k).train_start_ts)
      ≡ ltb cfg.full_end_ts (test_end cfg k)
stops_iff cfg k c = ground (arith, test_end_lem cfg k, train_start-lt-end cfg k c.1)

-- The loop's result lists the folds from `fold` on that end within the range.
abbrev Lists :
    WalkForwardConfig → ℕ → List WalkForwardWindow → Option (List WalkForwardWindow) → Type 0
Lists cfg fold windows result =
    (count : ℕ) × (result ≡ some (windows ++ windows_from cfg fold count))
    × (cfg.full_end_ts < test_end cfg (fold + count))
    × ((k : ℕ) → k < fold + count → (k < fold) ⊎ (test_end cfg k ≤ cfg.full_end_ts))

past_end :
    (cfg : WalkForwardConfig) (fold : ℕ)
    → IsChecked cfg
    → cfg.full_end_ts ≤ fold
    → ltb cfg.full_end_ts (test_end cfg fold) ≡ true
past_end cfg fold c h = ground (arith, le_mul_step fold cfg.step_ms c.3, c.1)

at_end :
    (cfg : WalkForwardConfig) (k : ℕ)
    → ltb cfg.full_end_ts (test_end cfg k) ≡ true
    → cfg.full_end_ts < test_end cfg k
at_end cfg k h = ground arith

within :
    (cfg : WalkForwardConfig) (j k : ℕ)
    → j ≤ k
    → ltb cfg.full_end_ts (test_end cfg k) ≡ false
    → test_end cfg j ≤ cfg.full_end_ts
within cfg j k h fits = ground (arith, fits_before cfg j k h)

stop-Lists :
    (cfg : WalkForwardConfig) (fuel fold : ℕ) (windows : List WalkForwardWindow)
    → IsChecked cfg
    → ltb cfg.full_end_ts (test_end cfg fold) ≡ true
    → Lists cfg fold windows (fold_loop cfg (suc fuel) fold windows)
unfolding fold_loop
stop-Lists cfg fuel fold windows c past = (
  0,
  rw (fold_loop, stops_iff cfg fold c, past, append-nil windows) refl,
  subst (λ n. cfg.full_end_ts < test_end cfg n) (omega arith) (at_end cfg fold past),
  λ k l. inl (omega arith),
)

go_on-Lists :
    (cfg : WalkForwardConfig) (fuel fold : ℕ) (windows : List WalkForwardWindow)
    → IsChecked cfg
    → ltb cfg.full_end_ts (test_end cfg fold) ≡ false
    → Lists cfg
        (suc fold)
        (windows ++ window_of cfg fold ∷ [])
        (fold_loop cfg fuel (suc fold) (windows ++ window_of cfg fold ∷ []))
    → Lists cfg fold windows (fold_loop cfg (suc fuel) fold windows)
unfolding fold_loop
go_on-Lists cfg fuel fold windows c fits (count, e, past, below) = (
  suc count,
  rw (fold_loop, stops_iff cfg fold c, fits)
      (e
        ∙ ap (λ ws. some ws)
            (append_assoc windows (window_of cfg fold ∷ []) (windows_from cfg (suc fold) count))),
  subst (λ n. cfg.full_end_ts < test_end cfg n) (omega arith) past,
  λ k l. inr (elim (below k (omega arith)) [
    | inl early ↦ within cfg k fold (omega arith) fits
    | inr known ↦ known
  ]),
)

-- Enough fuel for the folds from `fold` on gives them all.
fold_loop-Lists :
    (cfg : WalkForwardConfig)
    → IsChecked cfg
    → (fuel fold : ℕ) (windows : List WalkForwardWindow) → cfg.full_end_ts ≤ fold + fuel
    → Lists cfg fold windows (fold_loop cfg (suc fuel) fold windows)
fold_loop-Lists cfg c zero fold windows h =
    stop-Lists cfg zero fold windows c (past_end cfg fold c (omega arith))
fold_loop-Lists cfg c (suc fuel) fold windows h =
    elim (Bool-cases (ltb cfg.full_end_ts (test_end cfg fold))) [
      | inl past ↦ stop-Lists cfg (suc fuel) fold windows c past
      | inr fits ↦
          go_on-Lists cfg (suc fuel) fold windows c fits (
            fold_loop-Lists cfg c fuel (suc fold) (windows ++ window_of cfg fold ∷ [])
              (omega arith))
    ]

fits-below :
    (cfg : WalkForwardConfig) (count k : ℕ)
    → cfg.full_end_ts < test_end cfg count
    → test_end cfg k ≤ cfg.full_end_ts
    → k < count
fits-below cfg count k past fits = elim (Bool-cases (ltb k count)) [
  | inl early ↦ ground arith
  | inr late ↦ absurd (omega (arith, fits_before cfg count k (ground arith)))
]

from_start :
    (cfg : WalkForwardConfig) (result : Option (List WalkForwardWindow))
    → Lists cfg 0 [] result
    → (count : ℕ) × (result ≡ some (windows_from cfg 0 count))
      × ((k : ℕ) → (k < count) ↔ (test_end cfg k ≤ cfg.full_end_ts))
from_start cfg result (count, e, past, below) = (
  count,
  e,
  λ k. (
    λ l. elim (below k (omega arith)) [ inl none_before ↦ absurd (omega arith) | inr fits ↦ fits ],
    λ fits.
        fits-below cfg count k (subst (λ n. cfg.full_end_ts < test_end cfg n) (omega arith) past)
          fits,
  ),
)

-- The loop of build_windows ends. It lists, in order and numbered from 0, the windows of the folds
-- whose test ends within the full range, and the windows of no other fold, if the configuration
-- passed its checks.
pub build_windows-Lists :
    (cfg : WalkForwardConfig)
    → checked cfg ≡ some cfg
    → (count : ℕ) × (build_windows cfg ≡ some (windows_from cfg 0 count))
      × ((k : ℕ)
          → (k < count) ↔ (
              cfg.full_start_ts + cfg.train_window_ms + cfg.test_window_ms + k * cfg.step_ms
              ≤ cfg.full_end_ts))
unfolding build_windows
build_windows-Lists cfg h =
    from_start cfg (build_windows cfg)
      (fold_loop-Lists cfg (checked-IsChecked cfg h) cfg.full_end_ts 0 [] (omega arith))
