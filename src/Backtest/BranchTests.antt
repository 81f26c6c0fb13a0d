-- ===== src/Backtest/BranchTests.antt =====
-- The theorems on the wave scheduler, at three branches on two processors.
use generik_dbhistogram_data.Base.{
  ℕ, ◌≤◌, ◌==◌, ◌≡◌, ◌⊎◌, Bool, true, false, Option, none, some, List, [], ◌∷◌, arith, max,
  if◌then◌else◌,
}
use generik_dbhistogram_data.Base.Lists.{length, All, count_if}
use generik_dbhistogram_data.Base.Whole.{whole}
use generik_dbhistogram_data.Backtest.Branches.{
  BranchSpec, SchedulerConfig, Host, Run, Readings, begin, launched, run_branches, half_or_one,
}
use generik_dbhistogram_data.Backtest.Branches.Polls.{AllEnd, IsReal}
use generik_dbhistogram_data.Backtest.Branches.Invariant.{IsCalm}
use generik_dbhistogram_data.Backtest.Branches.Waves.{
  Reached, most_jobs, active-le-most_jobs, run_branches-Finishes,
}

abbrev branch : BranchSpec
branch = record { name = "m01"; command = "python" ∷ []; log_path = "m01.log" }

abbrev three : List BranchSpec
three = branch ∷ record branch { name = "m02" } ∷ record branch { name = "m03" } ∷ []

abbrev wave_config : SchedulerConfig ℕ
wave_config = record {
  cpu_cap_pct = 100;
  ram_cap_pct = 80;
  guard_sample_sec = 5;
  guard_high_windows = 2;
  guard_recover_windows = 2;
  initial_concurrency = 1;
}

abbrev idle : Readings ℕ
idle = record {
  at_snapshot = 1;
  snapshot_reading = some (20, 20);
  at_throttle = 2;
  throttle_reading = some (20, 20);
  at_scale_up = 3;
  scale_up_reading = some (20, 20);
}

-- Each process ends at its second poll.
abbrev two_polls : ℕ → ℕ → Option ℕ
two_polls k n = if n == 1 then some 0 else none

abbrev host : Host ℕ ℕ
host = record {
  cpu_count = 2;
  floor = λ a. a;
  has_psutil = true;
  readings = λ n. idle;
  exit = two_polls;
}

two_polls-AllEnd : AllEnd host 1
two_polls-AllEnd k = cc

active-le-most_jobs_example :
    (length (launched host 0 (begin wave_config host three)).0.active
      ≤ most_jobs host wave_config three)
    × (((launched host 0 (begin wave_config host three)).1 ≡ false)
        ⊎ (length (launched host 0 (begin wave_config host three)).0.active
            ≤ max
                (length (begin wave_config host three).active)
                (half_or_one (most_jobs host wave_config three))))
    × All IsCalm (launched host 0 (begin wave_config host three)).0.log
active-le-most_jobs_example = active-le-most_jobs host wave_config three Reached.begun

run_branches-Finishes_example :
    (t : Run ℕ ℕ) × (run_branches 7 wave_config host three ≡ some t)
    × ((p : BranchSpec → Bool) → count_if (λ r. p r.branch) t.results ≡ count_if p three)
    × All (IsReal host) t.results
run_branches-Finishes_example =
    run_branches-Finishes host wave_config three 1 7 two_polls-AllEnd (omega arith)
