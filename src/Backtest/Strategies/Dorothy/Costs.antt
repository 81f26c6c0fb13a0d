-- ===== src/Backtest/Strategies/Dorothy/Costs.antt =====
-- The prices at which the strategy sells, and those at which it bought.
use mathlib.Core.List.{Memᴰ}
use generik_dbhistogram_data.Base.{
  ⊤, ◌≡◌, refl, inl, inr, true, false, not, Option, none, some, List, [], ◌∷◌, arith, if◌then◌else◌,
  Bool-cases,
}
use generik_dbhistogram_data.Base.Lists.{keep, All, All-append, All-map}
use generik_dbhistogram_data.Base.Float.{Float, IsOrderedFloat, lit, lt, le}
use generik_dbhistogram_data.Backtest.Broker.{Side, buy, sell, other}
use generik_dbhistogram_data.Backtest.Engine.{Signal, StrategyContext}
use generik_dbhistogram_data.Backtest.Engine.Bar.{price_of}
use generik_dbhistogram_data.Backtest.Strategies.{hold_for}
use generik_dbhistogram_data.Backtest.Strategies.Turns.{Turn, after_fill, play_turn, play_turns}
use generik_dbhistogram_data.Backtest.Strategies.Dorothy.Ladder.{All-keep, consider_buy_room}
use generik_dbhistogram_data.Backtest.Strategies.Dorothy.{
  DorothyParams, bounded_params, positive_limits, is_in, hit_limits, sell_hit, work_limits, on_bar,
  note_purchase, on_fill, dorothy,
}

-- `seen` with the price of a purchase.
abbrev bought_at : {A : Type 0} → ⦃F : Float A⦄ → Side → A → List A → List A
bought_at buy price seen = if lt (lit 0 0) price then price ∷ seen else seen
bought_at sell price seen = seen
bought_at other price seen = seen

-- There is a purchase at this price or below.
abbrev pub IsCovered : {A : Type 0} → ⦃F : Float A⦄ → List A → A → Type 0
IsCovered {A} seen price = (q : A) × Memᴰ q seen × (le q price ≡ true)

noted : {A : Type 0} → ⦃F : Float A⦄ → Signal A ⊤ → Option (A × A × A) → List A → List A
noted signal none seen = seen
noted signal (some (price, qty, fee)) seen = bought_at signal.action price seen

module _ {A D : Type 0} ⦃F : Float A⦄ (p : DorothyParams A) where
  -- The prices of the purchases that are filled, the newest first.
  unfoldable pub purchases : List (Turn A D) → List A → List A → List A
  unfolding noted
  purchases [] limits seen = seen
  purchases (t ∷ ts) limits seen =
      purchases ts (play_turn (dorothy p) t limits)
        (noted (on_bar (bounded_params p) t.ctx limits).1 t.filled seen)

module _ {A : Type 0} ⦃F : Float A⦄ where
  -- The limits that are hit are limits at or below the price.
  hits-All :
      (P : A → Type 0) (price : A) (limits : List A)
      → All P limits
      → All (λ l. P l × (le l price ≡ true)) (hit_limits price limits)
  unfolding hit_limits
  hits-All P price [] h = tt
  hits-All P price (l ∷ ls) h = elim (Bool-cases (le l price)) [
    | inl e ↦ rw (e, keep) ((h.0, e), hits-All P price ls h.1)
    | inr e ↦ rw (e, keep) (hits-All P price ls h.1)
  ]

  IsCovered-more : (q : A) (seen : List A) (l : A) → IsCovered seen l → IsCovered (q ∷ seen) l
  IsCovered-more q seen l (c, m, e) = (c, Memᴰ.tail m, e)

module _ {A : Type 0} ⦃F : Float A⦄ (p : DorothyParams A) where
  sell_hit-All :
      (P : A → Type 0) (price cash : A) (limits hit : List A)
      → All P limits
      → All (λ l. P l × (le l price ≡ true)) hit
      → All P (sell_hit p price cash limits hit).0
        × ((sell_hit p price cash limits hit).1.action ≡ sell → (l : A) × P l × (le l price ≡ true))
  unfolding sell_hit
  sell_hit-All P price cash limits [] h k =
      (h, λ e. absurd ((consider_buy_room p price cash limits).1 e))
  sell_hit-All P price cash limits (l ∷ ls) h k =
      (All-keep P (λ a. not (is_in a (l ∷ ls))) limits h, λ e. (l, k.0.0, k.0.1))

  work_limits-All :
      (P : A → Type 0) (price cash position : A) (limits : List A)
      → All P limits
      → All P (work_limits p price cash position limits).0
        × ((work_limits p price cash position limits).1.action ≡ sell
            → (l : A) × P l × (le l price ≡ true))
  unfolding work_limits
  work_limits-All P price cash position limits h = elim (Bool-cases (lt (lit 0 0) position)) [
    | inl e ↦
        rw e
          (sell_hit-All P price cash limits (hit_limits price limits) h (hits-All P price limits h))
    | inr e ↦ rw e (h, λ q. absurd ((consider_buy_room p price cash limits).1 q))
  ]

module _ {A D : Type 0} ⦃F : Float A⦄ (p : DorothyParams A) where
  on_bar-All :
      (P : A → Type 0) (ctx : StrategyContext A D) (limits : List A)
      → All P limits
      → All P (on_bar p ctx limits).0
        × ((on_bar p ctx limits).1.action ≡ sell
            → (l : A) × P l × (le l (price_of ctx.candle) ≡ true))
  unfolding on_bar hold_for positive_limits
  on_bar-All P ctx limits h = elim (Bool-cases (le (price_of ctx.candle) (lit 0 0))) [
    | inl e ↦ rw e (h, λ q. cc)
    | inr e ↦ rw e (
        work_limits-All p P (price_of ctx.candle) ctx.cash ctx.position_qty (positive_limits limits)
          (All-keep P (λ l. lt (lit 0 0) l) limits h))
  ]

module _ {A : Type 0} ⦃F : Float A⦄ (L : IsOrderedFloat F) (p : DorothyParams A) where
  not_below : (a : A) → lt (lit 0 0) a ≡ true → lt a (lit 0 0) ≡ false
  not_below a h = elim (Bool-cases (lt a (lit 0 0))) [
    | inl e ↦ absurd (ground (arith, L.lt_trans (lit 0 0) a (lit 0 0) h e, L.lt_irrefl (lit 0 0)))
    | inr e ↦ e
  ]

  factor_nonneg : lt (bounded_params p).profit_factor (lit 0 0) ≡ false
  unfolding bounded_params
  factor_nonneg = ground (arith, L.lt_irrefl (lit 0 0), not_below p.profit_factor)

  below_both : (a b c : A) → le a b ≡ true → le b c ≡ true → le a c ≡ true
  below_both a b c h k = ground (arith, L.le_trans a b c)

  note_purchase-IsCovered :
      (side : Side) (price : A) (limits seen : List A)
      → All (IsCovered seen) limits
      → All
          (IsCovered (bought_at side price seen))
          (note_purchase (bounded_params p) side price limits)
  unfolding note_purchase
  note_purchase-IsCovered buy price limits seen h = elim (Bool-cases (lt (lit 0 0) price)) [
    | inl e ↦ rw e (
        All-append _ limits _ (All-map _ (IsCovered-more price seen) limits h) (
          (
            price,
            Memᴰ.head refl,
            rw (
                L.mul_ge_left price (bounded_params p).profit_factor (not_below price e)
                  factor_nonneg),
          ),
          tt,
        ))
    | inr e ↦ rw e h
  ]
  note_purchase-IsCovered sell price limits seen h = h
  note_purchase-IsCovered other price limits seen h = h

module _ {A D : Type 0} ⦃F : Float A⦄ (L : IsOrderedFloat F) (p : DorothyParams A) where
  after_fill-IsCovered :
      (ctx : StrategyContext A D) (signal : Signal A ⊤) (filled : Option (A × A × A))
      (limits seen : List A)
      → All (IsCovered seen) limits
      → All (IsCovered (noted signal filled seen)) (after_fill (dorothy p) ctx signal filled limits)
  unfolding after_fill dorothy on_fill noted
  after_fill-IsCovered ctx signal none limits seen h = h
  after_fill-IsCovered ctx signal (some (price, qty, fee)) limits seen h =
      note_purchase-IsCovered L p signal.action price limits seen h

  play_turns-IsCovered :
      (ts : List (Turn A D)) (limits seen : List A)
      → All (IsCovered seen) limits
      → All (IsCovered (purchases p ts limits seen)) (play_turns (dorothy p) ts limits)
  unfolding play_turns play_turn purchases dorothy
  play_turns-IsCovered [] limits seen h = h
  play_turns-IsCovered (t ∷ ts) limits seen h = play_turns-IsCovered ts _ _ (
      after_fill-IsCovered t.ctx (on_bar (bounded_params p) t.ctx limits).1 t.filled
        (on_bar (bounded_params p) t.ctx limits).0 seen
        (on_bar-All (bounded_params p) (IsCovered seen) t.ctx limits h).0)

  -- Over any bars and whichever of its orders are filled: where the strategy signals a sale, it has
  -- bought at the bar's price or below.
  pub sells_at_cost_or_above :
      (ts : List (Turn A D)) (ctx : StrategyContext A D)
      → (on_bar (bounded_params p) ctx (play_turns (dorothy p) ts [])).1.action ≡ sell
      → IsCovered (purchases p ts [] []) (price_of ctx.candle)
  sells_at_cost_or_above ts ctx e =
      let (l, (q, m, h), k) =
        (on_bar-All (bounded_params p) (IsCovered (purchases p ts [] [])) ctx _
            (play_turns-IsCovered ts [] [] tt)).1
          e in
      (q, m, below_both L p q l (price_of ctx.candle) h k)
