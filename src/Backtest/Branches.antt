-- ===== src/Backtest/Branches.antt =====
-- backtest/scheduler.py: the wave scheduler, which runs branches as subprocesses under the resource
-- guard. Starting a process, its log file and the callback are taken not to raise; times, process ids
-- and metadata are left out.
pub mod Starts
pub mod Polls
pub mod Invariant
pub mod Turns
pub mod Waves
use Prim.Native.String.{String}
use generik_dbhistogram_data.Base.{
  ℕ, zero, suc, ◌+◌, ◌/◌, ◌==◌, Bool, true, false, Option, none, some, List, [], ◌∷◌, ◌++◌, map,
  ltb, if◌then◌else◌, max, min,
}
use generik_dbhistogram_data.Base.Lists.{length}
use generik_dbhistogram_data.Base.Float.{Float, lit, mul, div}
use generik_dbhistogram_data.Backtest.Guards.{
  ResourceGuard, ResourceGuardConfig, Snapshot, GuardEvent, new_guard, refresh, suggest_concurrency,
  consume_events,
}

pub record BranchSpec : Type 0 where
  pub name : String
  pub command : List String
  pub log_path : String

pub record SchedulerConfig (A : Type 0) : Type 0 where
  pub cpu_cap_pct : A
  pub ram_cap_pct : A
  pub guard_sample_sec : A
  pub guard_high_windows : ℕ
  pub guard_recover_windows : ℕ
  pub initial_concurrency : ℕ

-- An entry of `active`. `proc` numbers the processes in the order of their start; `polls` counts how
-- often this one was asked whether it has ended.
pub record Job : Type 0 where
  pub branch : BranchSpec
  pub proc : ℕ
  pub polls : ℕ

-- `C` is the type of exit codes.
pub record Finished (C : Type 0) : Type 0 where
  pub branch : BranchSpec
  pub proc : ℕ
  pub exit_code : C

-- A line of the master log.
pub data LogEntry (C : Type 0) : Type 0 where
  plan : ℕ → List BranchSpec → LogEntry C
  guard_event : GuardEvent → ℕ → ℕ → ℕ → LogEntry C
  started : BranchSpec → ℕ → LogEntry C
  finished : Finished C → LogEntry C
  scheduler_backoff : ℕ → LogEntry C

-- The times and readings that the guard meets in one turn of the loop: in `snapshot`, and in the two
-- refreshes of `suggest_concurrency`.
pub record Readings (A : Type 0) : Type 0 where
  pub at_snapshot : A
  pub snapshot_reading : Snapshot A
  pub at_throttle : A
  pub throttle_reading : Snapshot A
  pub at_scale_up : A
  pub scale_up_reading : Snapshot A

-- The host: `exit k n` is what process k answers when it is polled after n polls that found it alive.
pub record Host (A C : Type 0) : Type 0 where
  pub cpu_count : ℕ
  pub floor : A → ℕ
  pub has_psutil : Bool
  pub readings : ℕ → Readings A
  pub exit : ℕ → ℕ → Option C

-- The locals of `run_branches`.
pub record Run (A C : Type 0) : Type 0 where
  pub guard : ResourceGuard A
  pub max_concurrent : ℕ
  pub dynamic_concurrent : ℕ
  pub pending : List BranchSpec
  pub active : List Job
  pub results : List (Finished C)
  pub log : List (LogEntry C)
  pub next_proc : ℕ

-- `max_concurrent // 2 or 1`
unfoldable pub half_or_one : ℕ → ℕ
half_or_one n = if n / 2 == 0 then 1 else n / 2

-- `dynamic_concurrent` from what the guard suggests.
unfoldable pub limited : ℕ → ℕ → Bool → ℕ
unfolding half_or_one
limited most suggested throttled =
    let n = max 1 (min most suggested) in if throttled then max 1 (min n (half_or_one most)) else n

module _ {A C : Type 0} where
  unfoldable pub has_work : Run A C → Bool
  has_work s = elim s.pending [ [] ↦ elim s.active [ [] ↦ false | j ∷ js ↦ true ] | b ∷ bs ↦ true ]

  unfoldable pub start : BranchSpec → Run A C → Run A C
  start branch s = record s {
    active = s.active ++ record { branch = branch; proc = s.next_proc; polls = 0 } ∷ [];
    log = s.log ++ started branch s.next_proc ∷ [];
    next_proc = suc s.next_proc;
  }

  -- `while pending and len(active) < dynamic_concurrent`
  unfoldable pub start_while : ℕ → List BranchSpec → Run A C → Run A C
  unfolding start
  start_while n [] s = record s { pending = [] }
  start_while n (branch ∷ branches) s =
      let rest = start_while n branches (start branch s) in
      if ltb (length s.active) n then rest else record s { pending = branch ∷ branches }

  unfoldable pub start_due : Run A C → Run A C
  unfolding start_while
  start_due s = start_while s.dynamic_concurrent s.pending s

  -- The survivors of one round of polls, and the processes that have ended.
  unfoldable pub collect : Host A C → List Job → List Job × List (Finished C)
  collect host [] = ([], [])
  collect host (job ∷ jobs) =
      let (alive, ended) = collect host jobs in
      elim (host.exit job.proc job.polls) [
        | none ↦ (record job { polls = suc job.polls } ∷ alive, ended)
        | some code ↦
            (alive, record { branch = job.branch; proc = job.proc; exit_code = code } ∷ ended)
      ]

  unfoldable pub poll_active : Host A C → Run A C → Run A C
  unfolding collect
  poll_active host s =
      let (alive, ended) = collect host s.active in
      record s { active = alive; results = s.results ++ ended; log = s.log ++ map finished ended }

  -- Nothing runs.
  unfoldable pub back_off : Bool → Run A C → Run A C
  back_off throttled s =
      if throttled then record s { log = s.log ++ scheduler_backoff (length s.pending) ∷ [] } else s

  unfoldable pub settle : Host A C → Bool → Run A C → Run A C
  unfolding back_off poll_active
  settle host throttled s = elim s.active [
    | [] ↦ back_off throttled s
    | j ∷ js ↦ poll_active host s
  ]

module _ {A : Type 0} ⦃F : Float A⦄ where
  unfoldable pub build_guard : SchedulerConfig A → Bool → ResourceGuard A
  build_guard config ready =
      new_guard
        (record {
          cpu_cap_pct = config.cpu_cap_pct;
          ram_cap_pct = config.ram_cap_pct;
          sample_sec = config.guard_sample_sec;
          high_watermark_windows = config.guard_high_windows;
          recover_windows = config.guard_recover_windows;
          scale_up_headroom_pct = lit 15 0;
        })
        ready

module _ {A C : Type 0} ⦃F : Float A⦄ where
  unfoldable pub log_events : Run A C → Run A C
  log_events s =
      let (guard, events) = consume_events s.guard in
      record s {
        guard = guard;
        log =
            s.log
            ++ map (λ e. guard_event e s.dynamic_concurrent (length s.active) (length s.pending))
                events;
      }

  unfoldable pub adapt : Readings A → Run A C → Run A C × Bool
  unfolding limited
  adapt r s =
      let (seen, snapshot) = refresh r.at_snapshot r.snapshot_reading s.guard in
      let (guard, suggested) =
        suggest_concurrency s.dynamic_concurrent 1 r.at_throttle r.throttle_reading r.at_scale_up
          r.scale_up_reading seen in
      (
        record s {
          guard = guard;
          dynamic_concurrent = limited s.max_concurrent suggested seen.throttle;
        },
        seen.throttle,
      )

  -- What a turn of the loop has before it polls, and whether its snapshot was throttled.
  unfoldable pub launched : Host A C → ℕ → Run A C → Run A C × Bool
  unfolding adapt log_events start_due
  launched host n s =
      let (s', throttled) = adapt (host.readings n) s in (start_due (log_events s'), throttled)

  unfoldable pub turn : Host A C → ℕ → Run A C → Run A C
  unfolding launched settle
  turn host n s = let (s', throttled) = launched host n s in settle host throttled s'

  -- `while pending or active`, from the n-th turn; `none` if the fuel runs out.
  unfoldable pub loop : ℕ → Host A C → ℕ → Run A C → Option (Run A C)
  unfolding turn has_work
  loop zero host n s = none
  loop (suc fuel) host n s = elim (has_work s) [
    | true ↦ loop fuel host (suc n) (turn host n s)
    | false ↦ some s
  ]

  unfoldable pub compute_max_concurrency : Host A C → ℕ → A → ℕ
  compute_max_concurrency host branches cpu_cap_pct =
      max 1 (
        min branches
          (max 1 (host.floor (mul (lit host.cpu_count 0) (div cpu_cap_pct (lit 100 0))))))

  unfoldable pub begin : SchedulerConfig A → Host A C → List BranchSpec → Run A C
  unfolding compute_max_concurrency build_guard
  begin config host branches =
      let most = compute_max_concurrency host (length branches) config.cpu_cap_pct in
      record {
        guard = build_guard config host.has_psutil;
        max_concurrent = most;
        dynamic_concurrent = max 1 config.initial_concurrency;
        pending = branches;
        active = [];
        results = [];
        log = plan most branches ∷ [];
        next_proc = 0;
      }

  unfoldable pub run_branches :
      ℕ → SchedulerConfig A → Host A C → List BranchSpec → Option (Run A C)
  unfolding begin loop
  run_branches fuel config host branches = loop fuel host 0 (begin config host branches)
