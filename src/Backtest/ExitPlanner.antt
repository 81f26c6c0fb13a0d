-- ===== src/Backtest/ExitPlanner.antt =====
-- backtest/agartha_exit_planner.py: when a live or simulated position is to be sold by its trailing
-- stop, and at which limit price. `recent_highs` is a list, empty for None.
pub mod Plans
pub mod Floor
use Prim.Native.String.{String}
use generik_dbhistogram_data.Base.{
  ℕ, Bool, true, false, not, ◌&&◌, ◌||◌, Option, none, some, List, [], ◌∷◌, if◌then◌else◌,
}
use generik_dbhistogram_data.Base.Float.{Float, lit, add, sub, mul, div, lt, le, fmax, trunc, ceil}

pub data ExitAction : Type 0 where
  hold trail_limit trail_border crest_confirmed out_of_band : ExitAction

pub record SymbolFilters (A : Type 0) : Type 0 where
  pub tick_size : A
  pub bid_multiplier_down : A
  pub bid_multiplier_up : A
  pub ask_multiplier_down : A
  pub ask_multiplier_up : A
  pub min_notional : A

-- `ExitPlan` without its metadata, which stays empty.
pub record ExitPlan (A : Type 0) : Type 0 where
  pub action : ExitAction
  pub limit_price : Option A
  pub reason : String
  pub peak_price : A
  pub trail_floor : A
  pub band_lower : A
  pub band_upper : A
  pub crest_detected : Bool
  pub fallback_used : Bool

-- The arguments of `plan_exit`.
pub record ExitQuery (A : Type 0) : Type 0 where
  pub current_price : A
  pub entry_price : A
  pub peak_price : A
  pub trailing_stop_pct : A
  pub breakeven_lock_pct : A
  pub filters : SymbolFilters A
  pub recent_highs : List A
  pub crest_pullback_pct : A
  pub aggressive_limit_offset_ticks : ℕ

module _ {A : Type 0} ⦃F : Float A⦄ where
  unfoldable pub floor_to_tick : A → A → A
  floor_to_tick price tick =
      if le tick (lit 0 0) || le price (lit 0 0)
      then price
      else mul (trunc (add (div price tick) (lit 1 12))) tick

  unfoldable pub ceil_to_tick : A → A → A
  ceil_to_tick price tick =
      if le tick (lit 0 0) || le price (lit 0 0)
      then price
      else mul (ceil (sub (div price tick) (lit 1 12))) tick

  unfoldable pub breakeven_at : A → A → A
  breakeven_at entry lock = mul entry (add (lit 1 0) (div lock (lit 100 0)))

  -- The floor once the breakeven lock is looked at.
  unfoldable pub locked_floor : A → A → A → A → A
  locked_floor peak entry lock floor =
      if lt (lit 0 0) lock && lt (lit 0 0) entry
      then (if le (breakeven_at entry lock) peak then fmax floor entry else floor)
      else floor

  unfoldable pub compute_trail_floor : A → A → A → A → A
  unfolding locked_floor
  compute_trail_floor peak entry trailing lock =
      if le peak (lit 0 0) || le trailing (lit 0 0)
      then lit 0 0
      else locked_floor peak entry lock (mul peak (sub (lit 1 0) (div trailing (lit 100 0))))

  unfoldable pub compute_sell_band : A → SymbolFilters A → A × A
  compute_sell_band price filters =
      if le price (lit 0 0)
      then (lit 0 0, lit 0 0)
      else (mul price filters.ask_multiplier_down, mul price filters.ask_multiplier_up)

  -- `max` of a list whose first element is `m`
  unfoldable pub max_of : A → List A → A
  max_of m [] = m
  max_of m (x ∷ xs) = max_of (fmax m x) xs

  unfoldable pub detect_crest : List A → A → A → Bool
  unfolding max_of
  detect_crest [] current min_pullback = false
  detect_crest (high ∷ highs) current min_pullback =
      let peak = max_of high highs in
      if le current (lit 0 0) || le peak (lit 0 0)
      then false
      else le min_pullback (mul (div (sub peak current) peak) (lit 100 0))

  unfoldable pub is_triggered : A → A → Bool
  is_triggered trail_floor current = lt (lit 0 0) trail_floor && le current trail_floor

  -- The limit price aimed at: some ticks below the current price, or at it.
  unfoldable pub limit_target : ExitQuery A → A
  unfolding floor_to_tick
  limit_target q =
      let target =
        floor_to_tick
          (sub q.current_price (mul (lit q.aggressive_limit_offset_ticks 0) q.filters.tick_size))
          q.filters.tick_size in
      if le target (lit 0 0) then floor_to_tick q.current_price q.filters.tick_size else target

  -- A HOLD, with the defaults of `ExitPlan`.
  unfoldable pub hold_plan : String → A → A → ExitPlan A
  hold_plan reason peak floor = record {
    action = hold;
    limit_price = none;
    reason = reason;
    peak_price = peak;
    trail_floor = floor;
    band_lower = lit 0 0;
    band_upper = lit 0 0;
    crest_detected = false;
    fallback_used = false;
  }

  -- `plan_exit` from the band on.
  unfoldable pub plan_sale : ExitQuery A → A → Bool → Bool → A → A → A → ExitPlan A
  unfolding ceil_to_tick
  plan_sale q floor triggered crest lower upper target =
      if le lower target && le target upper
      then record {
        action = if triggered then trail_limit else crest_confirmed;
        limit_price = some target;
        reason = if triggered then "trail_triggered" else "crest_detected";
        peak_price = q.peak_price;
        trail_floor = floor;
        band_lower = lower;
        band_upper = upper;
        crest_detected = crest;
        fallback_used = false;
      }
      else if lt target lower
      then record {
        action = trail_border;
        limit_price = some (ceil_to_tick lower q.filters.tick_size);
        reason = "limit_below_band_recoted_to_lower_bound";
        peak_price = q.peak_price;
        trail_floor = floor;
        band_lower = lower;
        band_upper = upper;
        crest_detected = crest;
        fallback_used = true;
      }
      else record {
        action = out_of_band;
        limit_price = none;
        reason = "limit_above_band_unplaceable";
        peak_price = q.peak_price;
        trail_floor = floor;
        band_lower = lower;
        band_upper = upper;
        crest_detected = crest;
        fallback_used = true;
      }

  unfoldable pub floor_of : ExitQuery A → A
  unfolding compute_trail_floor
  floor_of q =
      compute_trail_floor q.peak_price q.entry_price q.trailing_stop_pct q.breakeven_lock_pct

  unfoldable pub crest_of : ExitQuery A → Bool
  unfolding detect_crest
  crest_of q = detect_crest q.recent_highs q.current_price q.crest_pullback_pct

  unfoldable pub plan_exit : ExitQuery A → ExitPlan A
  plan_exit q =
      if le q.current_price (lit 0 0) || le q.entry_price (lit 0 0) || le q.peak_price (lit 0 0)
      then hold_plan "invalid_state" (lit 0 0) (lit 0 0)
      else if not (is_triggered (floor_of q) q.current_price) && not (crest_of q)
      then hold_plan "trail_not_triggered" q.peak_price (floor_of q)
      else let (lower, upper) = compute_sell_band q.current_price q.filters in
        plan_sale q (floor_of q) (is_triggered (floor_of q) q.current_price) (crest_of q) lower
          upper (limit_target q)
