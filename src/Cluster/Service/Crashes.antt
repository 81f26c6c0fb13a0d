-- ===== src/Cluster/Service/Crashes.antt =====
-- The recovery at the start of the service, and the runs that crashed before it.
use Prim.Native.String.{String}
use generik_dbhistogram_data.Base.{
  ℕ, ◌==◌, ◌≡◌, refl, inl, inr, true, false, List, [], ◌∷◌, Bool-cases, arith, subst, sym, ⊤,
}
use generik_dbhistogram_data.Base.Lists.{All, All-map, keep, any}
use generik_dbhistogram_data.Base.Float.{Float}
use generik_dbhistogram_data.Cluster.Exec.{Outcome, returned, raised}
use generik_dbhistogram_data.Cluster.Exec.Keeps.{
  Meets, Post, Meets-pure, Meets-modify, Meets-gets, Meets-strengthen, Meets-bind,
}
use generik_dbhistogram_data.Cluster.World.{World, Ambient, ServiceRun, emit}
use generik_dbhistogram_data.Cluster.Reconciler.{QueryReply, PollSummary}
use generik_dbhistogram_data.Cluster.Reconciler.Keeps.{poll-Keeps}
use generik_dbhistogram_data.Cluster.Service.Aside.{Aside, Aside-steps}
use generik_dbhistogram_data.Cluster.Service.{
  ServiceConfig, is_left_open, stop_run, stop_service_run, close_runs, recovery_boot,
}

-- No run but `own` lacks its end.
abbrev pub AllClosed : ℕ → List ServiceRun → Type 0
AllClosed own rows = All (λ r. is_left_open own r ≡ false) rows

-- The runs that are left open are among `rest`.
abbrev Covered : ℕ → List ServiceRun → List ServiceRun → Type 0
Covered own rest rows =
    All (λ r. is_left_open own r ≡ true → any (λ c. c.run_id == r.run_id) rest ≡ true) rows

keep-open :
    (own : ℕ) (r : ServiceRun) (rows : List ServiceRun)
    → is_left_open own r ≡ true
    → keep (is_left_open own) (r ∷ rows) ≡ r ∷ keep (is_left_open own) rows
keep-open own r rows e = rw e refl

keep-ended :
    (own : ℕ) (r : ServiceRun) (rows : List ServiceRun)
    → is_left_open own r ≡ false
    → keep (is_left_open own) (r ∷ rows) ≡ keep (is_left_open own) rows
keep-ended own r rows e = rw e refl

Covered-keep : (own : ℕ) (rows : List ServiceRun) → Covered own (keep (is_left_open own) rows) rows
Covered-keep own [] = tt
Covered-keep own (r ∷ rows) = elim (Bool-cases (is_left_open own r)) [
  | inl e ↦
      subst (λ xs. Covered own xs (r ∷ rows)) (sym (keep-open own r rows e))
        (λ k. ground arith, All-map _ (λ x h k. ground (arith, h k)) rows (Covered-keep own rows))
  | inr e ↦
      subst (λ xs. Covered own xs (r ∷ rows)) (sym (keep-ended own r rows e))
        (λ k. absurd (ground arith), Covered-keep own rows)
]

Covered-stop_run :
    (own : ℕ) (c : ServiceRun) (reason now : String) (rest rows : List ServiceRun)
    → Covered own (c ∷ rest) rows
    → Covered own rest (stop_run c.run_id reason now rows)
unfolding stop_run is_left_open
Covered-stop_run own c reason now rest [] h = tt
Covered-stop_run own c reason now rest (r ∷ rows) h = elim (Bool-cases (r.run_id == c.run_id)) [
  | inl e ↦ rw e (λ k. absurd (ground arith), Covered-stop_run own c reason now rest rows h.1)
  | inr e ↦ rw e (λ k. ground (arith, h.0 k), Covered-stop_run own c reason now rest rows h.1)
]

Covered-AllClosed : (own : ℕ) (rows : List ServiceRun) → Covered own [] rows → AllClosed own rows
Covered-AllClosed own [] h = tt
Covered-AllClosed own (r ∷ rows) h = (ground (arith, h.0), Covered-AllClosed own rows h.1)

module _ {A : Type 0} (own : ℕ) where
  abbrev Closed : World A → Type 0
  Closed = Aside λ _ runs _. AllClosed own runs

  abbrev Left : List ServiceRun → World A → Type 0
  Left rest = Aside λ _ runs _. Covered own rest runs

  close_runs-Closed :
      (now : String) (rest : List ServiceRun)
      → Meets (Left rest) (close_runs now rest) (λ _. Closed) Closed
  unfolding close_runs stop_service_run emit Aside
  close_runs-Closed now [] = Meets-pure tt λ w h. Covered-AllClosed own w.service_runs h
  close_runs-Closed now (r ∷ rest) =
      Meets-bind {Q = λ _. Left rest} _ _
        (Meets-modify _ λ w h. Covered-stop_run own r _ now rest w.service_runs h)
        λ _.
          Meets-bind {Q = λ _. Left rest} _ _ (Meets-modify _ λ w h. h)
            λ _. close_runs-Closed now rest

  module _ ⦃F : Float A⦄ (config : ServiceConfig A) (amb : Ambient A)
      (query : String → String → QueryReply A) where
    recovery_boot-Closed : Meets (λ _. ⊤) (recovery_boot config own amb query) (λ _. Closed) Closed
    unfolding recovery_boot emit Aside
    recovery_boot-Closed = Meets-bind {Q = λ _ _. ⊤} _ _ (Meets-modify _ λ w h. tt) λ _.
        Meets-bind _ _ (Meets-gets _) λ runs.
          Meets-bind {Q = λ _. Closed} _ _
            (Meets-strengthen _ (close_runs-Closed _ runs) λ w h.
              subst (λ k. Covered own k w.service_runs) h.1 (Covered-keep own w.service_runs))
            λ _.
              Meets-bind {Q = λ _. Closed} _ _ (poll-Keeps (Aside-steps _) true amb query)
                λ summary.
                  Meets-bind {Q = λ _. Closed} _ _ (Meets-modify _ λ w h. h)
                    λ _. Meets-pure summary λ w h. h

    -- However the recovery at the start ends, whatever the exchange answers, each run of the
    -- service but its own has an end after it.
    pub recovery_boot-AllClosed :
        (w : World A) → AllClosed own (recovery_boot config own amb query w).0.service_runs
    unfolding Aside
    recovery_boot-AllClosed w =
        at_end (recovery_boot config own amb query w) (recovery_boot-Closed.meets w tt)
      where
        at_end :
            (r : World A × Outcome PollSummary)
            → Post {B = PollSummary} (λ _. Closed) Closed r
            → AllClosed own r.0.service_runs
        at_end (v, returned b) h = h
        at_end (v, raised e) h = h
