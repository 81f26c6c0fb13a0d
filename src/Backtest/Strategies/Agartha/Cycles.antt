-- ===== src/Backtest/Strategies/Agartha/Cycles.antt =====
-- How often the strategy buys, over any bars and fills.
use generik_dbhistogram_data.Base.{
  ⊤, ℕ, zero, suc, ◌+◌, ◌≤◌, ◌<◌, ◌≡◌, ◌≢◌, refl, ◌⊎◌, inl, inr, true, Option, none, some, List, [],
  ◌∷◌, arith, if◌then◌else◌,
}
use generik_dbhistogram_data.Base.Float.{Float, IsOrderedFloat, lit, lt, le}
use generik_dbhistogram_data.Backtest.Broker.{Side, buy, sell, other}
use generik_dbhistogram_data.Backtest.Engine.{Signal, StrategyContext}
use generik_dbhistogram_data.Backtest.Engine.Bar.{price_of}
use generik_dbhistogram_data.Backtest.Strategies.{hold_for, buy_for, sell_for}
use generik_dbhistogram_data.Backtest.Strategies.Turns.{Turn}
use generik_dbhistogram_data.Backtest.Strategies.Agartha.{
  AgarthaParams, AgarthaState, new_state, get_or, reset_position_state, close_cycle, observe_close,
  note_bar,
}
use generik_dbhistogram_data.Backtest.Strategies.Agartha.Moves.{
  wait_limit, enter_by_limit, enter, activate, trail, take_partial, manage, act,
}
use generik_dbhistogram_data.Backtest.Strategies.Agartha.Methods.{on_bar, note_fill, on_fill}

module _ {A : Type 0} ⦃F : Float A⦄ where
  -- 1 if an entry is noted.
  abbrev pub held : AgarthaState A → ℕ
  held s = if lt (lit 0 0) s.entry_price then 1 else 0

module _ {A : Type 0} ⦃F : Float A⦄ (p : AgarthaParams A) where
  enter-keeps :
      (price low cash : A) (s : AgarthaState A)
      → let r = enter p price low cash s in
        (r.0.cycles_closed ≡ s.cycles_closed)
        × (r.0.entry_price ≡ s.entry_price)
        × (r.1.action ≢ sell)
        × (r.1.action ≡ buy → 0 < p.max_cycles → s.cycles_closed < p.max_cycles)
  unfolding enter enter_by_limit wait_limit hold_for buy_for
  enter-keeps price low cash s =
      (ground arith, ground arith, λ e. ground arith, λ e m. ground arith)

  manage-keeps :
      (price : A) (s : AgarthaState A)
      → let r = manage p price s in
        (r.0.cycles_closed ≡ s.cycles_closed)
        × (r.0.entry_price ≡ s.entry_price)
        × (r.1.action ≢ buy)
  unfolding manage take_partial trail activate hold_for sell_for
  manage-keeps price s = (ground arith, ground arith, λ e. ground arith)

  act-keeps :
      (price low cash position : A) (s : AgarthaState A)
      → let r = act p price low cash position s in
        (r.0.cycles_closed ≡ s.cycles_closed)
        × (r.0.entry_price ≡ s.entry_price)
        × (r.1.action ≡ sell → held s ≡ 1)
        × (r.1.action ≡ buy → 0 < p.max_cycles → s.cycles_closed < p.max_cycles)
        × (r.1.action ≡ buy → (le position (lit 0 0) ≡ true) ⊎ (held s ≡ 0))
  unfolding act note_bar
  act-keeps price low cash position s =
      let e = enter-keeps price low cash s in
      let m = manage-keeps price (note_bar price s) in
      (
        ground (arith, e.0, m.0),
        ground (arith, e.1, m.1),
        λ q. ground (arith, e.2, m.2),
        λ q w. ground (arith, e.3, m.2),
        λ q. ground (arith, m.2),
      )

limited : (most n : ℕ) → (0 < most → n ≤ most) → (most ≡ 0) ⊎ (n ≤ most)
limited zero n h = inl refl
limited (suc most) n h = inr (h (omega arith))

module _ {A : Type 0} ⦃F : Float A⦄ where
  -- 1 for a purchase that the strategy takes notice of.
  abbrev pub bought : Side → A → ℕ
  bought buy price = if lt (lit 0 0) price then 1 else 0
  bought sell price = 0
  bought other price = 0

  -- `on_fill` at a fill of the signal's side, and the purchases so far.
  unfoldable pub report :
      AgarthaParams A
      → StrategyContext A (Option A)
      → Signal A ⊤
      → Option (A × A × A)
      → AgarthaState A
      → AgarthaState A × ℕ
  report p ctx signal none s = (s, 0)
  report p ctx signal (some (price, qty, fee)) s = (
    on_fill p (record { side = signal.action; price = price; qty = qty; fee = fee }) signal ctx s,
    bought signal.action price,
  )

  unfoldable pub play :
      AgarthaParams A → List (Turn A (Option A)) → AgarthaState A × ℕ → AgarthaState A × ℕ
  unfolding report
  play p [] (s, buys) = (s, buys)
  play p (t ∷ ts) (s, buys) =
      let (s', signal) = on_bar p t.ctx s in
      let (s'', bought) = report p t.ctx signal t.filled s' in play p ts (s'', buys + bought)

module _ {A : Type 0} ⦃F : Float A⦄ (L : IsOrderedFloat F) (p : AgarthaParams A) where
  observe_close-keeps :
      (position : A) (s : AgarthaState A)
      → let o = observe_close position s in
        (o.cycles_closed + held o ≡ s.cycles_closed + held s)
        × (le position (lit 0 0) ≡ true → held o ≡ 0)
  unfolding observe_close close_cycle reset_position_state
  observe_close-keeps position s =
      (ground (arith, L.lt_irrefl (lit 0 0)), λ e. ground (arith, L.lt_irrefl (lit 0 0)))

  on_bar-keeps :
      (ctx : StrategyContext A (Option A)) (s : AgarthaState A)
      → let r = on_bar p ctx s in
        (r.0.cycles_closed + held r.0 ≡ s.cycles_closed + held s)
        × (r.1.action ≡ sell → held r.0 ≡ 1)
        × (r.1.action ≡ buy → 0 < p.max_cycles → r.0.cycles_closed < p.max_cycles)
        × (r.1.action ≡ buy → held r.0 ≡ 0)
  unfolding on_bar hold_for
  on_bar-keeps ctx s =
      let o = observe_close ctx.position_qty s in
      let c = observe_close-keeps ctx.position_qty s in
      let price = price_of ctx.candle in
      let a = act-keeps p price (get_or ctx.candle.rest price) ctx.cash ctx.position_qty o in
      (
        ground (arith, a.0, a.1, c.0),
        λ q. ground (arith, a.1, a.2),
        λ q w. ground (arith, a.0, a.3),
        λ q. ground (arith, a.1, a.4, c.1),
      )

  note_fill-keeps :
      (side : Side) (price size : A) (s : AgarthaState A)
      → (side ≡ sell → held s ≡ 1)
      → (side ≡ buy → held s ≡ 0)
      → let u = note_fill p side price size s in
        u.cycles_closed + held u ≡ s.cycles_closed + held s + bought side price
  unfolding note_fill close_cycle reset_position_state
  note_fill-keeps buy price size s h k = ground (arith, k refl)
  note_fill-keeps sell price size s h k = ground (arith, h refl, L.lt_irrefl (lit 0 0))
  note_fill-keeps other price size s h k = omega arith

  report-keeps :
      (ctx : StrategyContext A (Option A)) (signal : Signal A ⊤) (filled : Option (A × A × A))
      (s : AgarthaState A)
      → (signal.action ≡ sell → held s ≡ 1)
      → (signal.action ≡ buy → held s ≡ 0)
      → let r = report p ctx signal filled s in
        r.0.cycles_closed + held r.0 ≡ s.cycles_closed + held s + r.1
  unfolding report on_fill
  report-keeps ctx signal none s h k = omega arith
  report-keeps ctx signal (some (price, qty, fee)) s h k =
      note_fill-keeps signal.action price signal.size_pct s h k

  bought_once :
      (side : Side) (price : A) → (bought side price ≤ 1) × ((side ≢ buy) → bought side price ≡ 0)
  bought_once buy price = (ground arith, λ n. absurd (n refl))
  bought_once sell price = (omega arith, λ n. refl)
  bought_once other price = (omega arith, λ n. refl)

  is_buy : (side : Side) → (side ≡ buy) ⊎ (side ≢ buy)
  is_buy buy = inl refl
  is_buy sell = inr (λ e. cc)
  is_buy other = inr (λ e. cc)

  report_within :
      (ctx : StrategyContext A (Option A)) (signal : Signal A ⊤) (filled : Option (A × A × A))
      (s : AgarthaState A) (n : ℕ)
      → n ≤ p.max_cycles
      → (signal.action ≡ buy → n < p.max_cycles)
      → n + (report p ctx signal filled s).1 ≤ p.max_cycles
  unfolding report
  report_within ctx signal none s n h k = omega arith
  report_within ctx signal (some (price, qty, fee)) s n h k = elim (is_buy signal.action) [
    | inl e ↦ omega (arith, k e, (bought_once signal.action price).0)
    | inr e ↦ omega (arith, (bought_once signal.action price).1 e)
  ]

  play-counts :
      (ts : List (Turn A (Option A))) (s : AgarthaState A) (buys : ℕ)
      → buys ≡ s.cycles_closed + held s
      → (0 < p.max_cycles → buys ≤ p.max_cycles)
      → let r = play p ts (s, buys) in
        (r.1 ≡ r.0.cycles_closed + held r.0) × (0 < p.max_cycles → r.1 ≤ p.max_cycles)
  unfolding play
  play-counts [] s buys h k = (h, k)
  play-counts (t ∷ ts) s buys h k =
      let b = on_bar-keeps t.ctx s in
      let s' = (on_bar p t.ctx s).0 in
      let signal = (on_bar p t.ctx s).1 in
      let r = report-keeps t.ctx signal t.filled s' b.1 b.3 in
      play-counts ts (report p t.ctx signal t.filled s').0 _ (omega (arith, r, b.0)) (λ w.
        report_within t.ctx signal t.filled s' buys (k w) (λ e. omega (arith, b.0, b.2 e w, b.3 e)))

  -- From a new object, over any bars and whichever of its orders are filled: the purchases at a
  -- positive price are as many as the closed cycles, and one more while an entry is noted. With a
  -- limit on the cycles there are no more purchases than that.
  pub purchases_bounded :
      (ts : List (Turn A (Option A)))
      → let r = play p ts (new_state, 0) in
        (r.1 ≡ r.0.cycles_closed + held r.0) × ((p.max_cycles ≡ 0) ⊎ (r.1 ≤ p.max_cycles))
  unfolding new_state
  purchases_bounded ts =
      let c =
        play-counts ts new_state 0 (ground (arith, L.lt_irrefl (lit 0 0))) (λ w. omega arith) in
      (c.0, limited p.max_cycles _ c.1)
