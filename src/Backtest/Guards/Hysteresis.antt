-- ===== src/Backtest/Guards/Hysteresis.antt =====
-- The guard against its description, and the bounds of the concurrency that it suggests.
use generik_dbhistogram_data.Base.{
  ℕ, zero, suc, ◌+◌, ◌≤◌, ◌<◌, ◌≡◌, refl, sym, ◌∙◌, Bool, true, false, not, ◌&&◌, none, some, List,
  [], ◌∷◌, map, arith, max, if◌then◌else◌, ◌⊎◌, ◌/◌,
}
use generik_dbhistogram_data.Base.Lists.{take}
use generik_dbhistogram_data.Base.Float.{Float}
use generik_dbhistogram_data.Backtest.Guards.{
  ResourceGuardConfig, Snapshot, ResourceGuard, push, sustained, new_guard, max_windows, is_high,
  is_below, decide, update_state, should_throttle, suggest_concurrency,
}
use generik_dbhistogram_data.Backtest.Guards.History.{
  expected, push-take, sustained-take, sustained_newest,
}

module _ {A : Type 0} ⦃F : Float A⦄ where
  -- The samples one after the other.
  unfoldable pub watch : List (Snapshot A) → ResourceGuard A → ResourceGuard A
  watch [] g = g
  watch (s ∷ samples) g = watch samples (update_state s g)

  -- Whether each sample that was read reached a cap, newest first, before those in `h`.
  unfoldable pub observed : ResourceGuardConfig A → List (Snapshot A) → List Bool → List Bool
  observed c [] h = h
  observed c (none ∷ samples) h = observed c samples h
  observed c (some (cpu, ram) ∷ samples) h = observed c samples (is_high c cpu ram ∷ h)

  below_iff_not_high :
      (c : ResourceGuardConfig A) (cpu ram : A) → is_below c cpu ram ≡ not (is_high c cpu ram)
  unfolding is_below is_high
  below_iff_not_high c cpu ram = ground arith

  decided_throttle :
      (g : ResourceGuard A)
      → (decide g).throttle ≡ (
          if not g.throttle && sustained g.config.high_watermark_windows g.high_history
          then true
          else if g.throttle && sustained g.config.recover_windows g.recover_history
          then false
          else g.throttle)
  unfolding decide
  decided_throttle g = ground arith

  decide-histories :
      (g : ResourceGuard A)
      → ((decide g).config ≡ g.config)
        × ((decide g).high_history ≡ g.high_history)
        × ((decide g).recover_history ≡ g.recover_history)
  unfolding decide
  decide-histories g = ground arith

-- Where the two windows exclude each other, the state before matters only if neither is sustained.
flip_lem :
    (t up down : Bool)
    → (up ≡ true → down ≡ true → ⊥)
    → (if not t && up then true else if t && down then false else t)
      ≡ (if up then true else if down then false else t)
flip_lem true true true excl = absurd (excl refl refl)
flip_lem true true false excl = refl
flip_lem true false down excl = refl
flip_lem false true down excl = refl
flip_lem false false true excl = refl
flip_lem false false false excl = refl

module _ {A : Type 0} ⦃F : Float A⦄ (c : ResourceGuardConfig A)
    (some_high : 0 < c.high_watermark_windows) (some_recover : 0 < c.recover_windows) where
  abbrev high_windows : ℕ
  high_windows = c.high_watermark_windows

  abbrev low_windows : ℕ
  low_windows = c.recover_windows

  -- The guard has seen the samples `h`.
  record Tracks (h : List Bool) (g : ResourceGuard A) : Type 0 where
    same_config : g.config ≡ c
    highs : g.high_history ≡ take (max high_windows low_windows) h
    lows : g.recover_history ≡ take (max high_windows low_windows) (map not h)
    agrees : g.throttle ≡ expected high_windows low_windows h

  exclusive :
      (s : Bool) (h : List Bool)
      → sustained high_windows (s ∷ h) ≡ true
      → sustained low_windows (map not (s ∷ h)) ≡ true
      → ⊥
  exclusive s h up down =
      let high : s ≡ true = sustained_newest high_windows s h some_high up in
      let low : not s ≡ true = sustained_newest low_windows (not s) (map not h) some_recover down in
      ground arith

  window_high :
      (h : List Bool) (g : ResourceGuard A)
      → g.config ≡ c
      → g.high_history ≡ take (max high_windows low_windows) h
      → sustained g.config.high_watermark_windows g.high_history ≡ sustained high_windows h
  window_high h g same highs =
      rw (same, highs)
        (sustained-take high_windows (max high_windows low_windows) h some_high (ground arith))

  window_low :
      (h : List Bool) (g : ResourceGuard A)
      → g.config ≡ c
      → g.recover_history ≡ take (max high_windows low_windows) h
      → sustained g.config.recover_windows g.recover_history ≡ sustained low_windows h
  window_low h g same lows =
      rw (same, lows)
        (sustained-take low_windows (max high_windows low_windows) h some_recover (ground arith))

  -- The decision, on deques that hold the newest sample.
  decide-throttle :
      (s : Bool) (h : List Bool) (g : ResourceGuard A)
      → g.config ≡ c
      → g.high_history ≡ take (max high_windows low_windows) (s ∷ h)
      → g.recover_history ≡ take (max high_windows low_windows) (map not (s ∷ h))
      → g.throttle ≡ expected high_windows low_windows h
      → (decide g).throttle ≡ expected high_windows low_windows (s ∷ h)
  unfolding expected
  decide-throttle s h g same highs lows before =
      decided_throttle g
      ∙ rw (window_high (s ∷ h) g same highs, window_low (map not (s ∷ h)) g same lows, before)
          (flip_lem (expected high_windows low_windows h) (sustained high_windows (s ∷ h))
            (sustained low_windows (map not (s ∷ h))) (exclusive s h))

  update-Tracks :
      (cpu ram : A) (h : List Bool) (g : ResourceGuard A)
      → Tracks h g
      → Tracks (is_high c cpu ram ∷ h) (update_state (some (cpu, ram)) g)
  unfolding update_state max_windows
  update-Tracks cpu ram h g x =
      let (same, highs, lows) = decide-histories g' in
      record {
        same_config = same ∙ x.same_config;
        highs = highs ∙ pushed_high;
        lows = lows ∙ pushed_low;
        agrees =
            decide-throttle (is_high c cpu ram) h g' x.same_config pushed_high pushed_low x.agrees;
      }
    where
      g' : ResourceGuard A
      g' = record g {
        high_history = push (max_windows g) (is_high g.config cpu ram) g.high_history;
        recover_history = push (max_windows g) (is_below g.config cpu ram) g.recover_history;
      }

      pushed_high : g'.high_history ≡ take (max high_windows low_windows) (is_high c cpu ram ∷ h)
      pushed_high =
          rw (x.same_config, x.highs)
            (push-take (max high_windows low_windows) (is_high c cpu ram) h)

      pushed_low :
          g'.recover_history ≡ take (max high_windows low_windows) (map not (is_high c cpu ram ∷ h))
      pushed_low =
          rw (x.same_config, x.lows, below_iff_not_high c cpu ram)
            (push-take (max high_windows low_windows) (not (is_high c cpu ram)) (map not h))

  watch-throttle :
      (samples : List (Snapshot A)) (h : List Bool) (g : ResourceGuard A)
      → Tracks h g
      → (watch samples g).throttle ≡ expected high_windows low_windows (observed c samples h)
  unfolding watch observed update_state
  watch-throttle [] h g x = x.agrees
  watch-throttle (none ∷ samples) h g x = watch-throttle samples h g x
  watch-throttle (some (cpu, ram) ∷ samples) h g x =
      watch-throttle samples (is_high c cpu ram ∷ h) (update_state (some (cpu, ram)) g)
        (update-Tracks cpu ram h g x)

  take_none : {T : Type 0} (n : ℕ) → take {A = T} n [] ≡ []
  take_none zero = refl
  take_none (suc n) = refl

  -- For windows of at least one sample: after any sequence of samples, of which some may be missing,
  -- the new guard with its bounded deques is throttled exactly when the whole history says so: the
  -- last time that a full window of samples was high, or a full window below both caps, it was high.
  pub guard_follows_history :
      (ready : Bool) (samples : List (Snapshot A))
      → (watch samples (new_guard c ready)).throttle
        ≡ expected c.high_watermark_windows c.recover_windows (observed c samples [])
  unfolding new_guard expected
  guard_follows_history ready samples = watch-throttle samples [] (new_guard c ready) (record {
    same_config = refl;
    highs = sym (take_none (max high_windows low_windows));
    lows = sym (take_none (max high_windows low_windows));
    agrees = refl;
  })

half : (n : ℕ) → (n + 1) / 2 ≤ n
half n = omega arith

module _ {A : Type 0} ⦃F : Float A⦄ where
  -- `suggest_concurrency` never suggests less than the least number of workers, at most one more
  -- than there are, and no more than there are if the guard is throttled at that time.
  pub suggest_concurrency_bounds :
      (current least : ℕ) (now : A) (reading : Snapshot A) (later : A) (reading' : Snapshot A)
      (g : ResourceGuard A)
      → let n = (suggest_concurrency current least now reading later reading' g).1 in
        (least ≤ n)
        × (n ≤ max least current + 1)
        × (((should_throttle now reading g).1 ≡ false) ⊎ (n ≤ max least current))
  unfolding suggest_concurrency
  suggest_concurrency_bounds current least now reading later reading' g =
      ground (arith, half (max least current))
