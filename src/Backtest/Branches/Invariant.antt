-- ===== src/Backtest/Branches/Invariant.antt =====
-- What starts and polls keep: the branches that are accounted for, and the limits.
use generik_dbhistogram_data.Base.{
  ⊤, ℕ, ◌+◌, ◌≤◌, ◌<◌, ◌≡◌, Bool, true, List, [], ◌∷◌, map, arith, ◌∙◌,
}
use generik_dbhistogram_data.Base.Lists.{length, All, All-append, count_if, count_if-append}
use generik_dbhistogram_data.Backtest.Guards.{GuardEvent}
use generik_dbhistogram_data.Backtest.Branches.{
  BranchSpec, Finished, LogEntry, guard_event, finished, scheduler_backoff, Host, Run, limited,
  half_or_one, start, start_due, collect, poll_active, settle,
}
use generik_dbhistogram_data.Backtest.Branches.Starts.{
  weigh, cost, IsYoung, start_while_inv, start_due-IsYoung, start_due-le, start_due-count,
  start_due_rest,
}
use generik_dbhistogram_data.Backtest.Branches.Polls.{
  AllEnd, IsReal, collect-weigh, collect-le, collect-count, collect-IsReal,
}

abbrev pub IsCalm : {C : Type 0} → LogEntry C → Type 0
IsCalm (scheduler_backoff n) = ⊥
IsCalm e = ⊤

pub limited_bounds :
    (most suggested : ℕ) (throttled : Bool)
    → 1 ≤ most
    → (1 ≤ limited most suggested throttled)
      × (limited most suggested throttled ≤ most)
      × (throttled ≡ true → limited most suggested throttled ≤ half_or_one most)
unfolding limited half_or_one
limited_bounds most suggested throttled h = (ground arith, ground arith, λ t. ground arith)

pub events-IsCalm :
    (C : Type 0) (d a q : ℕ) (es : List GuardEvent)
    → All {A = LogEntry C} IsCalm (map (λ e. guard_event e d a q) es)
events-IsCalm C d a q [] = tt
events-IsCalm C d a q (e ∷ es) = (tt, events-IsCalm C d a q es)

module _ {C : Type 0} where
  finished-IsCalm : (rs : List (Finished C)) → All IsCalm (map finished rs)
  finished-IsCalm [] = tt
  finished-IsCalm (r ∷ rs) = (tt, finished-IsCalm rs)

-- The polls that are left, in which a branch that waits counts with all of its own.
abbrev pub work : {A C : Type 0} → ℕ → Run A C → ℕ
work life s = weigh life s.active + cost life s.pending

module _ {A C : Type 0} where
  -- How many branches that pass a test are waiting, running or reported.
  abbrev pub tally : (BranchSpec → Bool) → Run A C → ℕ
  tally p s =
      count_if p s.pending
      + count_if (λ j. p j.branch) s.active
      + count_if (λ r. p r.branch) s.results

  pub record IsSound (host : Host A C) (life : ℕ) (branches : List BranchSpec) (s : Run A C)
      : Type 0 where
    pub young : IsYoung life s.active
    pub counted : (p : BranchSpec → Bool) → tally p s ≡ count_if p branches
    pub real : All (IsReal host) s.results

  -- What holds also where processes never end.
  pub record IsLimited (most : ℕ) (s : Run A C) : Type 0 where
    pub same : s.max_concurrent ≡ most
    pub bounded : length s.active ≤ most
    pub calm : All IsCalm s.log

  pub settle-runs :
      (host : Host A C) (throttled : Bool) (s : Run A C)
      → 0 < length s.active
      → settle host throttled s ≡ poll_active host s
  unfolding settle
  settle-runs host throttled s h = ground arith

  start_due-IsCalm : (s : Run A C) → All IsCalm s.log → All IsCalm (start_due s).log
  unfolding start_due start
  start_due-IsCalm s h =
      start_while_inv (λ t. All IsCalm t.log) s.dynamic_concurrent
        (λ b bs t e g. All-append _ t.log _ g (tt, tt)) s.pending s h

  pub poll_active-IsSound :
      (host : Host A C) (life : ℕ) (branches : List BranchSpec) (s : Run A C)
      → AllEnd host life
      → IsSound host life branches s
      → IsSound host life branches (poll_active host s)
  unfolding poll_active
  poll_active-IsSound host life branches s ends v = record {
    young = (collect-weigh host life s.active ends v.young).0;
    counted = λ p. omega (
      arith,
      collect-count host p s.active,
      count_if-append (λ r. p r.branch) s.results (collect host s.active).1,
      v.counted p,
    );
    real = All-append _ s.results _ v.real (collect-IsReal host s.active);
  }

  pub poll_active-IsLimited :
      (host : Host A C) (most : ℕ) (s : Run A C)
      → IsLimited most s
      → IsLimited most (poll_active host s)
  unfolding poll_active
  poll_active-IsLimited host most s v = record {
    same = v.same;
    bounded = omega (arith, collect-le host s.active, v.bounded);
    calm = All-append _ s.log _ v.calm (finished-IsCalm (collect host s.active).1);
  }

  pub start_due-IsSound :
      (host : Host A C) (life : ℕ) (branches : List BranchSpec) (s : Run A C)
      → IsSound host life branches s
      → IsSound host life branches (start_due s)
  start_due-IsSound host life branches s v =
      let rest = start_due_rest s in
      record {
        young = start_due-IsYoung life s v.young;
        counted = λ p. rw rest.0 (omega (arith, start_due-count p s, v.counted p));
        real = rw rest.0 v.real;
      }

  pub start_due-IsLimited :
      (most : ℕ) (s : Run A C)
      → s.dynamic_concurrent ≤ most
      → IsLimited most s
      → IsLimited most (start_due s)
  start_due-IsLimited most s d v = record {
    same = (start_due_rest s).1 ∙ v.same;
    bounded = ground (arith, start_due-le s, v.bounded);
    calm = start_due-IsCalm s v.calm;
  }

  pub work-poll_active :
      (host : Host A C) (life : ℕ) (s : Run A C)
      → AllEnd host life
      → IsYoung life s.active
      → 0 < length s.active
      → work life (poll_active host s) < work life s
  unfolding poll_active
  work-poll_active host life s ends y h = omega (arith, (collect-weigh host life s.active ends y).1)
