-- ===== src/Backtest/Strategies/Dorothy.antt =====
-- backtest/strategies.py: DorothyBacktestStrategy, which buys on falls and sells each purchase at a
-- limit above its price. What a candle's dict holds besides its price (`D`) it does not read.
pub mod Ladder
pub mod Costs
use generik_dbhistogram_data.Base.{
  ⊤, ℕ, ◌==◌, Bool, true, false, not, ◌&&◌, ◌||◌, Option, none, some, List, [], ◌∷◌, ◌++◌, ltb, leb,
  if◌then◌else◌, max,
}
use generik_dbhistogram_data.Base.Lists.{length, keep, any}
use generik_dbhistogram_data.Base.Float.{Float, lit, add, sub, mul, div, lt, le, fmax, fmin}
use generik_dbhistogram_data.Backtest.Broker.{Side, buy, sell, other, Fill}
use generik_dbhistogram_data.Backtest.Engine.{Candle, Signal, StrategyContext, Strategy}
use generik_dbhistogram_data.Backtest.Engine.Bar.{price_of}
use generik_dbhistogram_data.Backtest.Strategies.{hold_for, buy_for, sell_for, part_of_cash}

pub record DorothyParams (A : Type 0) : Type 0 where
  pub profit_factor : A
  pub margin_drop_factor : A
  pub quote_order_qty_usdt : A
  pub min_order_notional : A
  pub max_order_notional : A
  pub max_active_orders : ℕ

module _ {A : Type 0} ⦃F : Float A⦄ where
  -- The bounds that the constructor puts on the parameters.
  unfoldable pub bounded_notional : A → A → A → A
  bounded_notional most least quote = fmin most (fmax least quote)

  unfoldable pub bounded_params : DorothyParams A → DorothyParams A
  bounded_params p =
      let least = fmax (lit 0 0) p.min_order_notional in
      let most = fmax least p.max_order_notional in
      record {
        profit_factor = fmax (lit 0 0) p.profit_factor;
        margin_drop_factor = fmax (lit 0 0) p.margin_drop_factor;
        quote_order_qty_usdt = bounded_notional most least p.quote_order_qty_usdt;
        min_order_notional = least;
        max_order_notional = most;
        max_active_orders = max 1 p.max_active_orders;
      }

  -- `[p for p in limits if p > 0]`
  unfoldable pub positive_limits : List A → List A
  positive_limits limits = keep (λ l. lt (lit 0 0) l) limits

  -- `p == q`, and `p in ps`
  unfoldable pub same_float : A → A → Bool
  same_float a b = not (lt a b) && not (lt b a)

  unfoldable pub is_in : A → List A → Bool
  is_in l ls = any (λ k. same_float l k) ls

  unfoldable pub hit_limits : A → List A → List A
  hit_limits price limits = keep (λ l. le l price) limits

  -- `min` of a list whose first element is `m`
  unfoldable pub least_of : A → List A → A
  least_of m [] = m
  least_of m (l ∷ ls) = least_of (fmin m l) ls

  -- `sorted`
  unfoldable pub put_in_order : A → List A → List A
  put_in_order l [] = l ∷ []
  put_in_order l (k ∷ ks) = if lt l k then l ∷ k ∷ ks else k ∷ put_in_order l ks

  unfoldable pub in_order : List A → List A
  in_order [] = []
  in_order (l ∷ ls) = put_in_order l (in_order ls)

  -- `max(0.01, min(1.0, len(hit) / max(1, len(limits))))`
  unfoldable pub part_hit : List A → List A → A
  part_hit hit limits =
      fmax (lit 1 2) (fmin (lit 1 0) (div (lit (length hit) 0) (lit (max 1 (length limits)) 0)))

module _ {A : Type 0} ⦃F : Float A⦄ (p : DorothyParams A) where
  -- A purchase at a fall below the lowest limit.
  unfoldable pub buy_the_drop : A → A → A → List A → Signal A ⊤
  buy_the_drop price cash anchor limits =
      if le price
        (mul (least_of anchor limits) (sub (lit 1 0) (add p.profit_factor p.margin_drop_factor)))
      then buy_for
          (part_of_cash
            (bounded_notional p.max_order_notional p.min_order_notional p.quote_order_qty_usdt)
            cash)
          "buy_below_anchor_threshold"
      else hold_for ""

  unfoldable pub buy_more : A → A → List A → Signal A ⊤
  buy_more price cash [] =
      buy_for
        (part_of_cash
          (bounded_notional p.max_order_notional p.min_order_notional p.quote_order_qty_usdt) cash)
        "initial_reference_buy"
  buy_more price cash (anchor ∷ limits) = buy_the_drop price cash anchor limits

  -- Nothing was hit.
  unfoldable pub consider_buy : A → A → List A → Signal A ⊤
  consider_buy price cash limits =
      if leb p.max_active_orders (length limits)
      then hold_for "max_active_orders_reached"
      else if lt cash p.min_order_notional
          || lt cash
              (bounded_notional p.max_order_notional p.min_order_notional p.quote_order_qty_usdt)
      then hold_for "insufficient_notional"
      else buy_more price cash limits

  -- `hit` are the limits that the price has reached.
  unfoldable pub sell_hit : A → A → List A → List A → List A × Signal A ⊤
  sell_hit price cash limits [] = (limits, consider_buy price cash limits)
  sell_hit price cash limits (h ∷ hit) = (
    keep (λ l. not (is_in l (h ∷ hit))) limits,
    sell_for (part_hit (h ∷ hit) limits) "sell_limit_hit",
  )

  unfoldable pub work_limits : A → A → A → List A → List A × Signal A ⊤
  work_limits price cash position limits =
      if lt (lit 0 0) position
      then sell_hit price cash limits (hit_limits price limits)
      else (limits, consider_buy price cash limits)

  unfoldable pub on_bar : {D : Type 0} → StrategyContext A D → List A → List A × Signal A ⊤
  on_bar ctx limits =
      if le (price_of ctx.candle) (lit 0 0)
      then (limits, hold_for "invalid_price")
      else work_limits (price_of ctx.candle) ctx.cash ctx.position_qty (positive_limits limits)

  unfoldable pub note_purchase : Side → A → List A → List A
  note_purchase buy price limits =
      if lt (lit 0 0) price
      then limits ++ mul price (add (lit 1 0) p.profit_factor) ∷ []
      else limits
  note_purchase sell price limits = limits
  note_purchase other price limits = limits

  unfoldable pub on_fill :
      {D : Type 0} → Fill A → Signal A ⊤ → StrategyContext A D → List A → List A
  on_fill fill signal ctx limits = note_purchase fill.side fill.price limits

module _ {A : Type 0} ⦃F : Float A⦄ where
  -- The strategy with parameters `p`; its state are the limits, and an exported state has them
  -- under the key "active_sell_limits", if that is there.
  unfoldable pub dorothy :
      {D : Type 0} → DorothyParams A → Strategy A D (List A) (Option (List A)) ⊤
  dorothy p = record {
    on_start = λ candles. [];
    on_bar = on_bar (bounded_params p);
    on_fill = on_fill (bounded_params p);
    export_state = λ limits. some (positive_limits limits);
    import_state = λ e limits. elim e [ none ↦ [] | some saved ↦ in_order (positive_limits saved) ];
  }
