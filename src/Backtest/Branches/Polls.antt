-- ===== src/Backtest/Branches/Polls.antt =====
-- One round of polls.
use generik_dbhistogram_data.Base.{
  ℕ, suc, ◌+◌, ◌≤◌, ◌==◌, ◌≡◌, ◌≢◌, refl, inl, inr, Bool, none, some, List, [], ◌∷◌, Bool-cases,
  Option-cases, arith, subst,
}
use generik_dbhistogram_data.Base.Lists.{length, All, count_if}
use generik_dbhistogram_data.Backtest.Branches.{BranchSpec, Job, Finished, Host, collect}
use generik_dbhistogram_data.Backtest.Branches.Starts.{weigh, IsYoung}

-- Each process answers with its exit code after `life` polls at the latest.
abbrev pub AllEnd : {A C : Type 0} → Host A C → ℕ → Type 0
AllEnd host life = (k : ℕ) → host.exit k life ≢ none

-- The exit code is what the process answered.
abbrev pub IsReal : {A C : Type 0} → Host A C → Finished C → Type 0
IsReal host r = (n : ℕ) × (host.exit r.proc n ≡ some r.exit_code)

module _ {A C : Type 0} (host : Host A C) where
  younger :
      (life : ℕ) (j : Job)
      → AllEnd host life
      → j.polls ≤ life
      → host.exit j.proc j.polls ≡ none
      → suc j.polls ≤ life
  younger life j ends h e = elim (Bool-cases (j.polls == life)) [
    | inl q ↦ absurd (ends j.proc (subst (λ n. host.exit j.proc n ≡ none) (ground arith) e))
    | inr q ↦ ground arith
  ]

  -- Each poll leaves a turn less.
  pub collect-weigh :
      (life : ℕ) (js : List Job)
      → AllEnd host life
      → IsYoung life js
      → IsYoung life (collect host js).0
        × (weigh life (collect host js).0 + length js ≤ weigh life js)
  unfolding collect
  collect-weigh life [] ends h = (tt, omega arith)
  collect-weigh life (j ∷ js) ends h =
      let ih = collect-weigh life js ends h.1 in
      elim (Option-cases (host.exit j.proc j.polls)) [
        | inl e ↦ let y = younger life j ends h.0 e in rw (e, collect) ((y, ih.0), omega arith)
        | inr (c, e) ↦ rw (e, collect) (ih.0, omega arith)
      ]

  pub collect-le : (js : List Job) → length (collect host js).0 ≤ length js
  unfolding collect
  collect-le [] = omega arith
  collect-le (j ∷ js) = ground (arith, collect-le js)

  pub collect-count :
      (p : BranchSpec → Bool) (js : List Job)
      → count_if (λ j. p j.branch) (collect host js).0
          + count_if (λ r. p r.branch) (collect host js).1
        ≡ count_if (λ j. p j.branch) js
  unfolding collect
  collect-count p [] = refl
  collect-count p (j ∷ js) = ground (arith, collect-count p js)

  pub collect-IsReal : (js : List Job) → All (IsReal host) (collect host js).1
  unfolding collect
  collect-IsReal [] = tt
  collect-IsReal (j ∷ js) = elim (Option-cases (host.exit j.proc j.polls)) [
    | inl e ↦ rw (e, All, collect) (collect-IsReal js)
    | inr (c, e) ↦ rw (e, All, collect) ((j.polls, e), collect-IsReal js)
  ]
