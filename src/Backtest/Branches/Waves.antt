-- ===== src/Backtest/Branches/Waves.antt =====
-- Whole runs of the wave scheduler.
use generik_dbhistogram_data.Base.{
  ℕ, zero, suc, ◌+◌, ◌*◌, ◌≤◌, ◌<◌, ◌≡◌, refl, ◌⊎◌, inl, inr, Bool, true, false, some, List, [],
  ◌∷◌, max, Bool-cases, arith,
}
use generik_dbhistogram_data.Base.Lists.{length, All, count_if}
use generik_dbhistogram_data.Base.Float.{Float}
use generik_dbhistogram_data.Backtest.Branches.{
  BranchSpec, SchedulerConfig, Host, Run, has_work, begin, launched, turn, loop, run_branches,
  compute_max_concurrency, half_or_one,
}
use generik_dbhistogram_data.Backtest.Branches.Starts.{cost}
use generik_dbhistogram_data.Backtest.Branches.Polls.{AllEnd, IsReal}
use generik_dbhistogram_data.Backtest.Branches.Invariant.{IsCalm, IsSound, IsLimited, work}
use generik_dbhistogram_data.Backtest.Branches.Turns.{
  launched-IsLimited, throttled-le-half, turn-IsLimited, turn-IsSound,
}

unless : {P : Type 0} (b : Bool) → (b ≡ true → P) → (b ≡ false) ⊎ P
unless true f = inr (f refl)
unless false f = inl refl

cost_eq : (life : ℕ) (bs : List BranchSpec) → cost life bs ≡ length bs * (life + 1)
cost_eq life [] = omega arith
cost_eq life (b ∷ bs) = grind (arith, cost_eq life bs)

module _ {A C : Type 0} ⦃F : Float A⦄ (host : Host A C) where
  loop-Ends :
      (life most : ℕ) (branches : List BranchSpec) (fuel n : ℕ) (s : Run A C)
      → AllEnd host life
      → 1 ≤ most
      → IsLimited most s
      → IsSound host life branches s
      → work life s < fuel
      → (t : Run A C) × (loop fuel host n s ≡ some t)
        × IsSound host life branches t
        × (has_work t ≡ false)
  unfolding loop
  loop-Ends life most branches zero n s ends h l v f = absurd (omega arith)
  loop-Ends life most branches (suc fuel) n s ends h l v f = elim (Bool-cases (has_work s)) [
    | inl w ↦
        let k = turn-IsSound host life branches n s ends (omega (arith, l.same)) v w in
        rw (w, loop)
          (loop-Ends life most branches fuel (suc n) (turn host n s) ends h
            (turn-IsLimited host most n s h l w) k.0 (omega (arith, k.1)))
    | inr w ↦ rw (w, loop) (s, refl, v, w)
  ]

  -- The states at the top of the loop's turns.
  pub data Reached (config : SchedulerConfig A) (branches : List BranchSpec)
      : ℕ → Run A C → Type 0 where
    begun : Reached config branches 0 (begin config host branches)
    turned :
        {n : ℕ} {s : Run A C}
        → Reached config branches n s
        → has_work s ≡ true
        → Reached config branches (suc n) (turn host n s)

module _ {A C : Type 0} ⦃F : Float A⦄ (host : Host A C) (config : SchedulerConfig A)
    (branches : List BranchSpec) where
  -- The number of jobs that may run at once.
  abbrev pub most_jobs : ℕ
  most_jobs = compute_max_concurrency host (length branches) config.cpu_cap_pct

  some_room : 1 ≤ most_jobs
  unfolding compute_max_concurrency
  some_room = ground arith

  begin-IsLimited : IsLimited most_jobs (begin config host branches)
  unfolding begin
  begin-IsLimited = record { same = refl; bounded = omega arith; calm = (tt, tt) }

  Reached-IsLimited :
      {n : ℕ} {s : Run A C} → Reached host config branches n s → IsLimited most_jobs s
  Reached-IsLimited Reached.begun = begin-IsLimited
  Reached-IsLimited (Reached.turned {n} {s} r w) =
      turn-IsLimited host most_jobs n s some_room (Reached-IsLimited r) w

  -- Whenever the loop has made its starts, no more jobs run than the processors allow, and than there
  -- were before or half of that while the guard throttles; and the log has no backoff.
  pub active-le-most_jobs :
      {n : ℕ} {s : Run A C}
      → Reached host config branches n s
      → (length (launched host n s).0.active ≤ most_jobs)
        × (((launched host n s).1 ≡ false)
            ⊎ (length (launched host n s).0.active ≤ max (length s.active) (half_or_one most_jobs)))
        × All IsCalm (launched host n s).0.log
  active-le-most_jobs {n} {s} r =
      let v = Reached-IsLimited r in
      let u = launched-IsLimited host most_jobs n s some_room v in
      (
        u.bounded,
        unless (launched host n s).1 (throttled-le-half host most_jobs n s some_room v.same),
        u.calm,
      )

  begin-IsSound : (life : ℕ) → IsSound host life branches (begin config host branches)
  unfolding begin
  begin-IsSound life = record { young = tt; counted = λ p. omega arith; real = tt }

  all_reported :
      (life : ℕ) (t : Run A C)
      → IsSound host life branches t
      → has_work t ≡ false
      → (p : BranchSpec → Bool) → count_if (λ r. p r.branch) t.results ≡ count_if p branches
  unfolding has_work
  all_reported life t v w p = ground (arith, v.counted p)

  fuel_enough :
      (life fuel : ℕ)
      → length branches * (life + 1) < fuel
      → work life (begin config host branches) < fuel
  unfolding begin
  fuel_enough life fuel f = omega (arith, cost_eq life branches)

  -- If each process ends within `life` polls, the run ends, within a turn more than `life + 1` for
  -- each branch. Each branch is then reported as often as it was given, with an exit code that its
  -- process answered.
  pub run_branches-Finishes :
      (life fuel : ℕ)
      → AllEnd host life
      → length branches * (life + 1) < fuel
      → (t : Run A C) × (run_branches fuel config host branches ≡ some t)
        × ((p : BranchSpec → Bool) → count_if (λ r. p r.branch) t.results ≡ count_if p branches)
        × All (IsReal host) t.results
  unfolding run_branches
  run_branches-Finishes life fuel ends f =
      let (t, e, v, w) =
        loop-Ends host life most_jobs branches fuel 0 (begin config host branches) ends some_room
          begin-IsLimited (begin-IsSound life) (fuel_enough life fuel f) in
      (t, e, all_reported life t v w, v.real)
