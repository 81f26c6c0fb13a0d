-- ===== src/Backtest/Branches/Starts.antt =====
-- What `start_while` does to the branches that wait, the jobs that run, and the log.
use generik_dbhistogram_data.Base.{
  ℕ, ◌+◌, ◌-◌, ◌≤◌, ◌<◌, ◌≡◌, refl, inl, inr, Bool, true, List, [], ◌∷◌, ◌++◌, ltb, max, Bool-cases,
  arith,
}
use generik_dbhistogram_data.Base.Lists.{
  length, length-append, All, All-append, count_if, count_if-append,
}
use generik_dbhistogram_data.Backtest.Branches.{
  BranchSpec, Job, Run, start, start_while, start_due, has_work,
}

-- The turns that the jobs may still take, if each ends within `life` polls.
abbrev pub weigh : ℕ → List Job → ℕ
weigh life [] = 0
weigh life (j ∷ js) = (life + 1 - j.polls) + weigh life js

abbrev pub cost : ℕ → List BranchSpec → ℕ
cost life [] = 0
cost life (b ∷ bs) = life + 1 + cost life bs

abbrev pub IsYoung : ℕ → List Job → Type 0
IsYoung life js = All (λ j. j.polls ≤ life) js

pub weigh-append :
    (life : ℕ) (xs ys : List Job) → weigh life (xs ++ ys) ≡ weigh life xs + weigh life ys
weigh-append life [] ys = omega arith
weigh-append life (x ∷ xs) ys = omega (arith, weigh-append life xs ys)

module _ {A C : Type 0} where
  -- What each start keeps, `start_while` keeps.
  pub start_while_inv :
      (P : Run A C → Type 0) (n : ℕ)
      → ((b : BranchSpec) (bs : List BranchSpec) (s : Run A C)
          → ltb (length s.active) n ≡ true
          → P (record s { pending = b ∷ bs })
          → P (record (start b s) { pending = bs }))
      → (branches : List BranchSpec) (s : Run A C) → P (record s { pending = branches })
      → P (start_while n branches s)
  unfolding start_while
  start_while_inv P n keep [] s h = h
  start_while_inv P n keep (b ∷ bs) s h = elim (Bool-cases (ltb (length s.active) n)) [
    | inl e ↦ rw e (start_while_inv P n keep bs (start b s) (keep b bs s e h))
    | inr e ↦ rw e h
  ]

  abbrev job_of : BranchSpec → Run A C → Job
  job_of b s = record { branch = b; proc = s.next_proc; polls = 0 }

  pub start_due-cost :
      (life : ℕ) (s : Run A C)
      → weigh life (start_due s).active + cost life (start_due s).pending
        ≡ weigh life s.active + cost life s.pending
  unfolding start_due
  start_due-cost life s =
      start_while_inv
        (λ t. weigh life t.active + cost life t.pending ≡ weigh life s.active + cost life s.pending)
        s.dynamic_concurrent step s.pending s refl
    where
      step :
          (b : BranchSpec) (bs : List BranchSpec) (t : Run A C)
          → ltb (length t.active) s.dynamic_concurrent ≡ true
          → weigh life t.active + cost life (b ∷ bs) ≡ weigh life s.active + cost life s.pending
          → weigh life (t.active ++ job_of b t ∷ []) + cost life bs
            ≡ weigh life s.active + cost life s.pending
      step b bs t e h = omega (arith, weigh-append life t.active (job_of b t ∷ []))

  pub start_due-IsYoung :
      (life : ℕ) (s : Run A C) → IsYoung life s.active → IsYoung life (start_due s).active
  unfolding start_due start
  start_due-IsYoung life s h =
      start_while_inv (λ t. IsYoung life t.active) s.dynamic_concurrent
        (λ b bs t e g. All-append _ t.active _ g (omega arith, tt)) s.pending s h

  -- Only up to `dynamic_concurrent` jobs are started.
  pub start_due-le :
      (s : Run A C) → length (start_due s).active ≤ max (length s.active) s.dynamic_concurrent
  unfolding start_due start
  start_due-le s =
      start_while_inv (λ t. length t.active ≤ max (length s.active) s.dynamic_concurrent)
        s.dynamic_concurrent
        (λ b bs t e g. ground (arith, length-append t.active (job_of b t ∷ []))) s.pending s
        (ground arith)

  pub start_due-count :
      (p : BranchSpec → Bool) (s : Run A C)
      → count_if p (start_due s).pending + count_if (λ j. p j.branch) (start_due s).active
        ≡ count_if p s.pending + count_if (λ j. p j.branch) s.active
  unfolding start_due start
  start_due-count p s =
      start_while_inv
        (λ t.
          count_if p t.pending + count_if (λ j. p j.branch) t.active
          ≡ count_if p s.pending + count_if (λ j. p j.branch) s.active)
        s.dynamic_concurrent
        (λ b bs t e g. ground (arith, count_if-append (λ j. p j.branch) t.active (job_of b t ∷ [])))
        s.pending s refl

  -- What stays as it is.
  pub start_due_rest :
      (s : Run A C)
      → ((start_due s).results ≡ s.results)
        × ((start_due s).max_concurrent ≡ s.max_concurrent)
        × ((start_due s).dynamic_concurrent ≡ s.dynamic_concurrent)
  unfolding start_due start
  start_due_rest s =
      start_while_inv
        (λ t.
          (t.results ≡ s.results)
          × (t.max_concurrent ≡ s.max_concurrent)
          × (t.dynamic_concurrent ≡ s.dynamic_concurrent))
        s.dynamic_concurrent (λ b bs t e g. g) s.pending s (refl, refl, refl)

  still_runs :
      (n : ℕ) (branches : List BranchSpec) (s : Run A C)
      → 0 < length s.active
      → 0 < length (start_while n branches s).active
  unfolding start
  still_runs n branches s h =
      start_while_inv (λ t. 0 < length t.active) n
        (λ b bs t e g. omega (arith, length-append {0} t.active (job_of b t ∷ []))) branches s h

  -- Where there is work and room, something runs.
  start_while-runs :
      (n : ℕ) (branches : List BranchSpec) (s : Run A C)
      → 1 ≤ n
      → has_work (record s { pending = branches }) ≡ true
      → 0 < length (start_while n branches s).active
  unfolding start_while has_work start
  start_while-runs n [] s d w = ground arith
  start_while-runs n (b ∷ bs) s d w = elim (Bool-cases (ltb (length s.active) n)) [
    | inl e ↦
        rw e (
          still_runs n bs (start b s) (omega (arith, length-append {0} s.active (job_of b s ∷ []))))
    | inr e ↦ rw e (ground arith)
  ]

  pub start_due-runs :
      (s : Run A C) → 1 ≤ s.dynamic_concurrent → has_work s ≡ true → 0 < length (start_due s).active
  unfolding start_due
  start_due-runs s d w = start_while-runs s.dynamic_concurrent s.pending s d w
