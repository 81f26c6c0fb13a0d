-- ===== src/Backtest/Strategies/Dorothy/Ladder.antt =====
-- The limits that the strategy holds, over any bars and fills.
use generik_dbhistogram_data.Base.{
  ⊤, ℕ, ◌≤◌, ◌<◌, ◌≡◌, ◌≢◌, refl, inl, inr, Bool, not, Option, none, some, List, [], ◌∷◌, arith,
  max, Bool-cases,
}
use generik_dbhistogram_data.Base.Lists.{
  length, length-append, length-keep, count_if-le-length, keep, All,
}
use generik_dbhistogram_data.Base.Float.{Float, lit, add, mul, lt}
use generik_dbhistogram_data.Backtest.Broker.{Side, buy, sell, other}
use generik_dbhistogram_data.Backtest.Engine.{Signal, StrategyContext}
use generik_dbhistogram_data.Backtest.Engine.Bar.{price_of}
use generik_dbhistogram_data.Backtest.Strategies.{hold_for, buy_for, sell_for}
use generik_dbhistogram_data.Backtest.Strategies.Turns.{Turn, after_fill, play_turn, play_turns}
use generik_dbhistogram_data.Backtest.Strategies.Dorothy.{
  DorothyParams, bounded_params, positive_limits, is_in, hit_limits, buy_the_drop, buy_more,
  consider_buy, sell_hit, work_limits, on_bar, note_purchase, on_fill, dorothy,
}

module _ {A : Type 0} where
  length-keep_le : (f : A → Bool) (xs : List A) → length (keep f xs) ≤ length xs
  length-keep_le f xs = omega (arith, length-keep f xs, count_if-le-length f xs)

  pub All-keep : (P : A → Type 0) (f : A → Bool) (xs : List A) → All P xs → All P (keep f xs)
  All-keep P f [] h = tt
  All-keep P f (x ∷ xs) h = elim (Bool-cases (f x)) [
    | inl e ↦ rw (e, keep) (h.0, All-keep P f xs h.1)
    | inr e ↦ rw (e, keep) (All-keep P f xs h.1)
  ]

module _ {A : Type 0} ⦃F : Float A⦄ (p : DorothyParams A) where
  pub buy_more-ne-sell :
      (price cash : A) (limits : List A) → (buy_more p price cash limits).action ≢ sell
  unfolding buy_more buy_the_drop hold_for buy_for
  buy_more-ne-sell price cash [] e = cc
  buy_more-ne-sell price cash (l ∷ ls) e = ground arith

  pub consider_buy_room :
      (price cash : A) (limits : List A)
      → ((consider_buy p price cash limits).action ≡ buy → length limits < p.max_active_orders)
        × ((consider_buy p price cash limits).action ≢ sell)
  unfolding consider_buy hold_for
  consider_buy_room price cash limits =
      (λ e. ground arith, λ e. ground (arith, buy_more-ne-sell price cash limits))

  sell_hit_room :
      (price cash : A) (limits hit : List A)
      → let r = sell_hit p price cash limits hit in
        (length r.0 ≤ length limits) × (r.1.action ≡ buy → length r.0 < p.max_active_orders)
  unfolding sell_hit sell_for
  sell_hit_room price cash limits [] = (omega arith, (consider_buy_room price cash limits).0)
  sell_hit_room price cash limits (h ∷ hit) =
      (length-keep_le (λ l. not (is_in l (h ∷ hit))) limits, λ e. cc)

  note_purchase_room :
      (side : Side) (price : A) (limits : List A) (n : ℕ)
      → length limits ≤ n
      → (side ≡ buy → length limits < n)
      → length (note_purchase p side price limits) ≤ n
  unfolding note_purchase
  note_purchase_room buy price limits n h k =
      ground (arith, k refl, length-append limits (one ∷ []))
    where
      one : A
      one = mul price (add (lit 1 0) p.profit_factor)
  note_purchase_room sell price limits n h k = h
  note_purchase_room other price limits n h k = h

module _ {A D : Type 0} ⦃F : Float A⦄ (p : DorothyParams A) where
  on_bar_room :
      (ctx : StrategyContext A D) (limits : List A)
      → let r = on_bar p ctx limits in
        (length r.0 ≤ length limits) × (r.1.action ≡ buy → length r.0 < p.max_active_orders)
  unfolding on_bar work_limits hold_for positive_limits
  on_bar_room ctx limits =
      let price = price_of ctx.candle in
      let left = positive_limits limits in
      let s = sell_hit_room p price ctx.cash left (hit_limits price left) in
      let c = consider_buy_room p price ctx.cash left in
      let k = shorter limits in (ground (arith, s.0, k), λ e. ground (arith, s.1, c.0))
    where
      shorter : (limits : List A) → length (positive_limits limits) ≤ length limits
      shorter limits = length-keep_le (λ l. lt (lit 0 0) l) limits

-- The most limits that the strategy holds.
abbrev pub most_limits : {A : Type 0} → DorothyParams A → ℕ
most_limits p = max 1 p.max_active_orders

module _ {A D : Type 0} ⦃F : Float A⦄ (p : DorothyParams A) where
  play_turn_room :
      (t : Turn A D) (limits : List A)
      → length limits ≤ most_limits p
      → length (play_turn (dorothy p) t limits) ≤ most_limits p
  unfolding play_turn dorothy on_fill bounded_params
  play_turn_room t limits h =
      filled_room t.filled (on_bar (bounded_params p) t.ctx limits)
        (on_bar_room (bounded_params p) t.ctx limits)
    where
      filled_room :
          (filled : Option (A × A × A)) (r : List A × Signal A ⊤)
          → (length r.0 ≤ length limits) × (r.1.action ≡ buy → length r.0 < most_limits p)
          → length (after_fill (dorothy {D = D} p) t.ctx r.1 filled r.0) ≤ most_limits p
      filled_room none r k = omega (arith, k.0)
      filled_room (some (price, qty, fee)) r k =
          note_purchase_room (bounded_params p) r.1.action price r.0 (most_limits p)
            (omega (arith, k.0)) k.1

  play_turns_room :
      (ts : List (Turn A D)) (limits : List A)
      → length limits ≤ most_limits p
      → length (play_turns (dorothy p) ts limits) ≤ most_limits p
  unfolding play_turns
  play_turns_room [] limits h = h
  play_turns_room (t ∷ ts) limits h =
      play_turns_room ts (play_turn (dorothy p) t limits) (play_turn_room t limits h)

  -- Over any bars and whichever of its orders are filled, a new object holds at most
  -- max_active_orders limits, or one if that is 0.
  pub limits_bounded :
      (ts : List (Turn A D)) → length (play_turns (dorothy p) ts []) ≤ most_limits p
  limits_bounded ts = play_turns_room ts [] (ground arith)
