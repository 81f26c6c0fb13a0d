-- ===== src/Backtest/Branches/Turns.antt =====
-- One turn of the loop: what it keeps, and that it leaves less work.
use generik_dbhistogram_data.Base.{ℕ, ◌≤◌, ◌<◌, ◌≡◌, refl, true, List, max, arith}
use generik_dbhistogram_data.Base.Lists.{length, All-append}
use generik_dbhistogram_data.Base.Float.{Float}
use generik_dbhistogram_data.Backtest.Branches.{
  BranchSpec, Host, Run, half_or_one, has_work, start_due, poll_active, log_events, adapt, launched,
  turn,
}
use generik_dbhistogram_data.Backtest.Branches.Starts.{start_due-cost, start_due-le, start_due-runs}
use generik_dbhistogram_data.Backtest.Branches.Polls.{AllEnd}
use generik_dbhistogram_data.Backtest.Branches.Invariant.{
  limited_bounds, work, IsSound, IsLimited, settle-runs, poll_active-IsSound, poll_active-IsLimited,
  start_due-IsSound, start_due-IsLimited, work-poll_active, events-IsCalm,
}

module _ {A C : Type 0} ⦃F : Float A⦄ (host : Host A C) where
  -- A turn's state before its starts.
  ready : ℕ → Run A C → Run A C
  ready n s = log_events (adapt (host.readings n) s).0

  ready-launched : (n : ℕ) (s : Run A C) → (launched host n s).0 ≡ start_due (ready n s)
  unfolding ready launched
  ready-launched n s = refl

  ready_bounds :
      (n most : ℕ) (s : Run A C)
      → 1 ≤ most
      → s.max_concurrent ≡ most
      → (1 ≤ (ready n s).dynamic_concurrent)
        × ((ready n s).dynamic_concurrent ≤ most)
        × ((launched host n s).1 ≡ true → (ready n s).dynamic_concurrent ≤ half_or_one most)
  unfolding ready launched log_events adapt
  ready_bounds n most s h e = rw e (limited_bounds most _ _ h)

  ready-IsSound :
      (life : ℕ) (branches : List BranchSpec) (n : ℕ) (s : Run A C)
      → IsSound host life branches s
      → IsSound host life branches (ready n s)
  unfolding ready adapt log_events
  ready-IsSound life branches n s v = record { young = v.young; counted = v.counted; real = v.real }

  ready-IsLimited : (most n : ℕ) (s : Run A C) → IsLimited most s → IsLimited most (ready n s)
  unfolding ready adapt log_events
  ready-IsLimited most n s v = record {
    same = v.same;
    bounded = v.bounded;
    calm = All-append _ s.log _ v.calm (events-IsCalm C _ _ _ _);
  }

  pub launched-IsLimited :
      (most n : ℕ) (s : Run A C)
      → 1 ≤ most
      → IsLimited most s
      → IsLimited most (launched host n s).0
  launched-IsLimited most n s h v = rw (ready-launched n s) (
      start_due-IsLimited most (ready n s) (ready_bounds n most s h v.same).1
        (ready-IsLimited most n s v))

  -- While the guard throttles, starts end at half of the most.
  pub throttled-le-half :
      (most n : ℕ) (s : Run A C)
      → 1 ≤ most
      → s.max_concurrent ≡ most
      → (launched host n s).1 ≡ true
      → length (launched host n s).0.active ≤ max (length s.active) (half_or_one most)
  unfolding ready log_events adapt
  throttled-le-half most n s h e t =
      rw (ready-launched n s)
        (ground (arith, start_due-le (ready n s), (ready_bounds n most s h e).2 t))

  -- After the starts something runs.
  launched-runs :
      (n : ℕ) (s : Run A C)
      → 1 ≤ s.max_concurrent
      → has_work s ≡ true
      → 0 < length (launched host n s).0.active
  unfolding ready log_events has_work adapt
  launched-runs n s h w =
      rw (ready-launched n s)
        (start_due-runs (ready n s) (ready_bounds n s.max_concurrent s h refl).0 w)

  work-launched : (life n : ℕ) (s : Run A C) → work life (launched host n s).0 ≡ work life s
  unfolding ready log_events adapt
  work-launched life n s = rw (ready-launched n s) (start_due-cost life (ready n s))

  turn_polls :
      (n : ℕ) (s : Run A C)
      → 1 ≤ s.max_concurrent
      → has_work s ≡ true
      → turn host n s ≡ poll_active host (launched host n s).0
  unfolding turn
  turn_polls n s h w = settle-runs host _ (launched host n s).0 (launched-runs n s h w)

  pub turn-IsLimited :
      (most n : ℕ) (s : Run A C)
      → 1 ≤ most
      → IsLimited most s
      → has_work s ≡ true
      → IsLimited most (turn host n s)
  turn-IsLimited most n s h v w =
      rw (turn_polls n s (omega (arith, v.same)) w)
        (poll_active-IsLimited host most (launched host n s).0 (launched-IsLimited most n s h v))

  -- A turn keeps what is sound and leaves less work.
  pub turn-IsSound :
      (life : ℕ) (branches : List BranchSpec) (n : ℕ) (s : Run A C)
      → AllEnd host life
      → 1 ≤ s.max_concurrent
      → IsSound host life branches s
      → has_work s ≡ true
      → IsSound host life branches (turn host n s) × (work life (turn host n s) < work life s)
  turn-IsSound life branches n s ends h v w =
      let t = (launched host n s).0 in
      let u = sound_start in
      rw (turn_polls n s h w) (
        poll_active-IsSound host life branches t ends u,
        omega (
          arith,
          work-poll_active host life t ends u.young (launched-runs n s h w),
          work-launched life n s,
        ),
      )
    where
      sound_start : IsSound host life branches (launched host n s).0
      sound_start =
          rw (ready-launched n s)
            (start_due-IsSound host life branches (ready n s) (ready-IsSound life branches n s v))
