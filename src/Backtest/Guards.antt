-- ===== src/Backtest/Guards.antt =====
-- backtest/guards.py: the guard that throttles a run while the host is under load. The deques stand
-- newest first. What psutil reads is an argument: `none` is a reading that raised.
pub mod History
pub mod Hysteresis
use generik_dbhistogram_data.Base.{
  ℕ, zero, suc, ◌+◌, ◌/◌, Bool, true, false, not, ◌&&◌, ◌||◌, Option, none, some, List, [], ◌∷◌,
  ◌++◌, leb, if◌then◌else◌, max,
}
use generik_dbhistogram_data.Base.Lists.{length, all, take}
use generik_dbhistogram_data.Base.Float.{Float, lit, sub, lt, le, fmax}

pub record ResourceGuardConfig (A : Type 0) : Type 0 where
  pub cpu_cap_pct : A
  pub ram_cap_pct : A
  pub sample_sec : A
  pub high_watermark_windows : ℕ
  pub recover_windows : ℕ
  pub scale_up_headroom_pct : A

-- What a snapshot holds besides the caps and times: the CPU and RAM percentages, if they were read.
abbrev pub Snapshot : Type 0 → Type 0
Snapshot A = Option (A × A)

pub data GuardEvent : Type 0 where
  resource_guard_trigger resource_guard_recovery : GuardEvent

pub record ResourceGuard (A : Type 0) : Type 0 where
  pub config : ResourceGuardConfig A
  pub high_history : List Bool
  pub recover_history : List Bool
  pub last_sample_monotonic : A
  pub throttle : Bool
  pub enabled : Bool
  pub last_snapshot : Snapshot A
  pub pending_events : List GuardEvent

-- `append` of a deque with `maxlen`
unfoldable pub push {ℓ} : {T : Type ℓ} → ℕ → T → List T → List T
push maxlen x xs = take maxlen (x ∷ xs)

-- `list(h)[-window:]`, which is the whole list for a window of 0
unfoldable pub last_windows : ℕ → List Bool → List Bool
last_windows zero h = h
last_windows (suc n) h = take (suc n) h

-- `len(h) >= window and all(list(h)[-window:])`
unfoldable pub sustained : ℕ → List Bool → Bool
unfolding last_windows
sustained window h = leb window (length h) && all (λ b. b) (last_windows window h)

module _ {A : Type 0} ⦃F : Float A⦄ where
  -- `ResourceGuard.__init__`; `ready` is whether psutil is there and its first call succeeds.
  unfoldable pub new_guard : ResourceGuardConfig A → Bool → ResourceGuard A
  new_guard config ready = record {
    config = config;
    high_history = [];
    recover_history = [];
    last_sample_monotonic = lit 0 0;
    throttle = false;
    enabled = ready;
    last_snapshot = none;
    pending_events = [];
  }

  unfoldable pub max_windows : ResourceGuard A → ℕ
  max_windows g = max g.config.high_watermark_windows g.config.recover_windows

  -- `cpu >= cap or ram >= cap`
  unfoldable pub is_high : ResourceGuardConfig A → A → A → Bool
  is_high c cpu ram = le c.cpu_cap_pct cpu || le c.ram_cap_pct ram

  -- `cpu < cap and ram < cap`
  unfoldable pub is_below : ResourceGuardConfig A → A → A → Bool
  is_below c cpu ram = lt cpu c.cpu_cap_pct && lt ram c.ram_cap_pct

  -- The decision of `_update_state`, on the deques that hold the new sample already.
  unfoldable pub decide : ResourceGuard A → ResourceGuard A
  decide g =
      if not g.throttle && sustained g.config.high_watermark_windows g.high_history
      then record g {
        throttle = true;
        pending_events = g.pending_events ++ resource_guard_trigger ∷ [];
      }
      else if g.throttle && sustained g.config.recover_windows g.recover_history
      then record g {
        throttle = false;
        pending_events = g.pending_events ++ resource_guard_recovery ∷ [];
      }
      else g

  unfoldable pub update_state : Snapshot A → ResourceGuard A → ResourceGuard A
  unfolding decide max_windows
  update_state none g = g
  update_state (some (cpu, ram)) g = decide (record g {
    high_history = push (max_windows g) (is_high g.config cpu ram) g.high_history;
    recover_history = push (max_windows g) (is_below g.config cpu ram) g.recover_history;
  })

  -- `_sample_metrics`: a reading that raises disables the guard.
  unfoldable pub sample_metrics : Snapshot A → ResourceGuard A → ResourceGuard A × Snapshot A
  sample_metrics none g = (record g { enabled = false }, none)
  sample_metrics (some reading) g = if g.enabled then (g, some reading) else (g, none)

  unfoldable pub is_fresh : A → ResourceGuard A → Bool
  is_fresh now g =
      lt (lit 0 0) g.last_sample_monotonic
      && lt (sub now g.last_sample_monotonic) (fmax (lit 1 1) g.config.sample_sec)

  -- `_refresh(force=False)` at the time `now`; the second part is the snapshot.
  unfoldable pub refresh : A → Snapshot A → ResourceGuard A → ResourceGuard A × Snapshot A
  refresh now reading g =
      if is_fresh now g
      then (g, g.last_snapshot)
      else let (g', snap) = sample_metrics reading g in
        (record (update_state snap g') { last_snapshot = snap; last_sample_monotonic = now }, snap)

  unfoldable pub should_throttle : A → Snapshot A → ResourceGuard A → ResourceGuard A × Bool
  should_throttle now reading g = let (g', snap) = refresh now reading g in (g', g'.throttle)

  -- Whether a snapshot is below the caps minus the headroom; with no telemetry it is.
  unfoldable pub has_headroom : ResourceGuardConfig A → Snapshot A → Bool
  has_headroom c none = true
  has_headroom c (some (cpu, ram)) =
      lt cpu (sub c.cpu_cap_pct c.scale_up_headroom_pct)
      && lt ram (sub c.ram_cap_pct c.scale_up_headroom_pct)

  unfoldable pub should_scale_up : A → Snapshot A → ResourceGuard A → ResourceGuard A × Bool
  unfolding has_headroom
  should_scale_up now reading g =
      let (g', snap) = refresh now reading g in (g', not g'.throttle && has_headroom g'.config snap)

  -- Two refreshes, at the times `now` and `later`.
  unfoldable pub suggest_concurrency :
      ℕ → ℕ → A → Snapshot A → A → Snapshot A → ResourceGuard A → ResourceGuard A × ℕ
  suggest_concurrency current least now reading later reading' g =
      let workers = max least current in
      let (g', throttled) = should_throttle now reading g in
      if throttled
      then (g', max least ((workers + 1) / 2))
      else let (g'', room) = should_scale_up later reading' g' in
        (g'', if room then max least (workers + 1) else workers)

  unfoldable pub consume_events : ResourceGuard A → ResourceGuard A × List GuardEvent
  consume_events g = (record g { pending_events = [] }, g.pending_events)
