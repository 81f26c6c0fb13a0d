-- ===== src/Backtest/ExitPlanner/Plans.antt =====
-- What each action of an exit plan means.
use generik_dbhistogram_data.Base.{◌≡◌, true, false, ◌||◌, Option, none, some, ◌⊎◌}
use generik_dbhistogram_data.Base.Float.{Float, lit, lt, le}
use generik_dbhistogram_data.Backtest.ExitPlanner.{
  ExitAction, hold, trail_limit, trail_border, crest_confirmed, out_of_band, ExitQuery,
  ceil_to_tick, compute_sell_band, is_triggered, limit_target, floor_of, crest_of,
}

module _ {A : Type 0} ⦃F : Float A⦄ where
  -- The trailing stop has fired: the floor is positive and the price is at or below it.
  abbrev pub HasFired : ExitQuery A → Type 0
  HasFired q = is_triggered (floor_of q) q.current_price ≡ true

  -- One of the three prices is not positive.
  abbrev pub IsUnusable : ExitQuery A → Type 0
  IsUnusable q =
      (le q.current_price (lit 0 0) || le q.entry_price (lit 0 0) || le q.peak_price (lit 0 0))
      ≡ true

  -- All three prices are positive.
  abbrev pub IsUsable : ExitQuery A → Type 0
  IsUsable q =
      (lt (lit 0 0) q.current_price ≡ true)
      × (lt (lit 0 0) q.entry_price ≡ true)
      × (lt (lit 0 0) q.peak_price ≡ true)

  abbrev pub WantsOut : ExitQuery A → Type 0
  WantsOut q = IsUsable q × (HasFired q ⊎ (crest_of q ≡ true))

  -- The limit price lies in the band of the exchange.
  abbrev pub InBand : ExitQuery A → Option A → Type 0
  InBand q price =
      (t : A) × (price ≡ some t)
      × (le (compute_sell_band q.current_price q.filters).0 t ≡ true)
      × (le t (compute_sell_band q.current_price q.filters).1 ≡ true)

  abbrev pub Allows : ExitQuery A → ExitAction → Option A → Type 0
  Allows q hold price =
      (price ≡ none)
      × (IsUnusable q
          ⊎ ((is_triggered (floor_of q) q.current_price ≡ false) × (crest_of q ≡ false)))
  Allows q trail_limit price = IsUsable q × HasFired q × InBand q price
  Allows q crest_confirmed price =
      IsUsable q
      × (is_triggered (floor_of q) q.current_price ≡ false)
      × (crest_of q ≡ true)
      × InBand q price
  Allows q trail_border price =
      WantsOut q
      × (price
          ≡ some (ceil_to_tick (compute_sell_band q.current_price q.filters).0 q.filters.tick_size))
      × (lt (limit_target q) (compute_sell_band q.current_price q.filters).0 ≡ true)
  Allows q out_of_band price =
      WantsOut q
      × (price ≡ none)
      × (lt (compute_sell_band q.current_price q.filters).1 (limit_target q) ≡ true)
