-- ===== src/Backtest/Engine/Solvency.antt =====
-- Through a whole run the broker stays solvent, so that a checkpoint restores it exactly.
use generik_dbhistogram_data.Base.{
  ℕ, suc, ◌≡◌, refl, sym, ap, ◌∙◌, Option, none, some, List, [], ◌∷◌, arith, inl, inr, Bool-cases,
  if◌then◌else◌,
}
use generik_dbhistogram_data.Base.Lists.{All}
use generik_dbhistogram_data.Base.Float.{Float, IsOrderedFloat, lit, lt, le, fmax}
use generik_dbhistogram_data.Backtest.Broker.{
  Side, other, BrokerState, SpotBroker, Fill, new_broker, execute_market,
}
use generik_dbhistogram_data.Backtest.Broker.Solvency.{
  NonNeg, Pos, IsSolvent, IsFair, execute_market-IsSolvent, rates_kept, lt_asym,
}
use generik_dbhistogram_data.Backtest.Engine.{
  Candle, Signal, StrategyContext, Strategy, EventsMode, EngineConfig, Core, Logs, is_clamped,
}
use generik_dbhistogram_data.Backtest.Engine.Bar.{
  price_of, mark_executed, after_hold, after_order, after_signal, process_bar, step_bar,
}
use generik_dbhistogram_data.Backtest.Engine.Run.{
  BrokerSeed, Opening, start_core, run_backtest, seed_broker, seed_of, get, is_skipped, run_bars,
}

module _ {A : Type 0} ⦃F : Float A⦄ where
  -- A fair broker with the given rates, not in debt.
  pub record IsSound (fee bps : A) (b : SpotBroker A) : Type 0 where
    pub solvent : IsSolvent b.state
    pub fair : IsFair b
    pub same_fee : b.fee_rate ≡ fee
    pub same_bps : b.slippage_bps ≡ bps

  unfoldable pub PosPrice : {D : Type 0} → Candle A D → Type 0
  PosPrice c = Pos (price_of c)

module _ {A : Type 0} ⦃F : Float A⦄ (L : IsOrderedFloat F) where
  fmax_self : (a : A) → NonNeg a → fmax (lit 0 0) a ≡ a
  fmax_self a h = elim (Bool-cases (lt (lit 0 0) a)) [
    | inl p ↦ rw p refl
    | inr n ↦ rw n (L.antisym (lit 0 0) a n h)
  ]

  entry_kept :
      (s : BrokerState A)
      → IsSolvent s
      → (if le s.position_qty (lit 0 0) then lit 0 0 else s.avg_entry) ≡ s.avg_entry
  entry_kept s v = elim (Bool-cases (le s.position_qty (lit 0 0))) [
    | inl flat ↦ rw flat (sym (v.flat flat))
    | inr long ↦ rw long refl
  ]

  fmax_nonneg : (a : A) → NonNeg (fmax (lit 0 0) a)
  fmax_nonneg a = elim (Bool-cases (lt (lit 0 0) a)) [
    | inl p ↦ rw p (lt_asym L (lit 0 0) a p)
    | inr n ↦ rw n (L.lt_irrefl (lit 0 0))
  ]

  -- Whatever the dict holds, a seeded state with cash that is not negative is solvent.
  pub seed_broker-IsSolvent :
      (seed : BrokerSeed A) (s : BrokerState A)
      → NonNeg (get seed.cash s.cash)
      → IsSolvent (seed_broker seed s)
  unfolding seed_broker
  seed_broker-IsSolvent seed s h = record {
    cash_nonneg = h;
    qty_nonneg = fmax_nonneg (get seed.position_qty s.position_qty);
    entry_nonneg = elim (Bool-cases (le qty (lit 0 0))) [
      | inl flat ↦ rw flat (L.lt_irrefl (lit 0 0))
      | inr long ↦ rw long (fmax_nonneg (get seed.avg_entry s.avg_entry))
    ];
    flat = λ flat. rw flat refl;
  }
    where
      qty : A
      qty = fmax (lit 0 0) (get seed.position_qty s.position_qty)

  -- Restoring a solvent state from its own dict gives that state.
  pub seed_broker_solvent : (s t : BrokerState A) → IsSolvent s → seed_broker (seed_of s) t ≡ s
  unfolding seed_broker seed_of
  seed_broker_solvent s t v =
      rw (fmax_self s.position_qty v.qty_nonneg, fmax_self s.avg_entry v.entry_nonneg)
        (ap (λ a. record s { avg_entry = a }) (entry_kept s v))

  execute_market-IsSound :
      (side : Side) (price x fee bps : A) (b : SpotBroker A)
      → Pos price
      → IsSound fee bps b
      → IsSound fee bps (execute_market side price x b).0
  execute_market-IsSound side price x fee bps b p v =
      let (f, g) = rates_kept L side price x b in
      record {
        solvent = execute_market-IsSolvent L side price x b v.fair p v.solvent;
        fair = record {
          fee_nonneg = rw f v.fair.fee_nonneg;
          fee_le_one = rw f v.fair.fee_le_one;
          slippage_nonneg = rw g v.fair.slippage_nonneg;
          slippage_le = rw g v.fair.slippage_le;
        };
        same_fee = f ∙ v.same_fee;
        same_bps = g ∙ v.same_bps;
      }

module _ {A S : Type 0} ⦃F : Float A⦄ where
  hold_broker :
      (m : EventsMode) (seconds ts : ℕ) (equity : A) (s : S) (c : Core A S)
      → (after_hold m seconds ts equity s c).0.broker ≡ c.broker
  unfolding after_hold
  hold_broker m seconds ts equity s c = ground arith

module _ {A D S E M : Type 0} ⦃F : Float A⦄ (L : IsOrderedFloat F)
    (strat : Strategy A D S E M) where
  order_broker :
      (ts : ℕ) (px equity : A) (signal : Signal A M) (ctx : StrategyContext A D) (s : S)
      (c : Core A S) (r : SpotBroker A × Option (Fill A))
      → (after_order strat ts px equity signal ctx s c r).0.broker ≡ r.0
  unfolding after_order
  order_broker ts px equity signal ctx s c (b, none) = refl
  order_broker ts px equity signal ctx s c (b, some f) = refl

  signal-IsSound :
      (cfg : EngineConfig) (ts : ℕ) (px equity : A) (ctx : StrategyContext A D) (c : Core A S)
      (s : S) (signal : Signal A M) (side : Side) (fee bps : A)
      → Pos px
      → IsSound fee bps c.broker
      → IsSound fee bps (after_signal strat cfg ts px equity ctx c s signal side).0.broker
  unfolding after_signal
  signal-IsSound cfg ts px equity ctx c s signal other fee bps p v =
      rw (hold_broker cfg.events_mode cfg.snapshot_seconds ts equity s c) v
  signal-IsSound cfg ts px equity ctx c s signal side fee bps p v =
      rw
        (order_broker ts px equity signal ctx s c (execute_market side px signal.size_pct c.broker))
        (execute_market-IsSound L side px signal.size_pct fee bps c.broker p v)

  step_bar-IsSound :
      (cfg : EngineConfig) (candles : List (Candle A D)) (i : ℕ) (candle : Candle A D)
      (st : Core A S × Logs A E) (fee bps : A)
      → PosPrice candle
      → IsSound fee bps st.0.broker
      → IsSound fee bps (step_bar strat cfg candles i candle st).0.broker
  unfolding step_bar process_bar mark_executed PosPrice
  step_bar-IsSound cfg candles i candle (c, l) fee bps p v =
      elim (Bool-cases (is_clamped cfg c.last_exec_ts candle.open_time)) [
        | inl early ↦ rw early v
        | inr due ↦ rw due (
            signal-IsSound cfg candle.open_time (price_of candle) _ _
              (mark_executed candle.open_time c) _ _ _ fee bps p v)
      ]

  -- A run over candles with positive prices keeps a sound broker sound.
  pub run_bars-IsSound :
      (cfg : EngineConfig) (candles : List (Candle A D)) (i : ℕ) (rest : List (Candle A D))
      (st : Core A S × Logs A E) (fee bps : A)
      → All PosPrice rest
      → IsSound fee bps st.0.broker
      → IsSound fee bps (run_bars strat cfg candles none i rest st).0.broker
  unfolding run_bars is_skipped
  run_bars-IsSound cfg candles i [] st fee bps p v = v
  run_bars-IsSound cfg candles i (candle ∷ rest) st fee bps p v =
      run_bars-IsSound cfg candles (suc i) rest (step_bar strat cfg candles i candle st) fee bps p.1
        (step_bar-IsSound cfg candles i candle st fee bps p.0 v)

  pub start_core-IsSound :
      (o : Opening A E) (candles : List (Candle A D))
      → IsFair (new_broker o.initial_cash o.fee_rate o.slippage_bps)
      → NonNeg (get o.broker_seed.cash o.initial_cash)
      → let b = (start_core strat o candles).broker in IsSound b.fee_rate b.slippage_bps b
  unfolding start_core new_broker
  start_core-IsSound o candles fair cash = record {
    solvent = seed_broker-IsSolvent L o.broker_seed _ cash;
    fair = record {
      fee_nonneg = fair.fee_nonneg;
      fee_le_one = fair.fee_le_one;
      slippage_nonneg = fair.slippage_nonneg;
      slippage_le = fair.slippage_le;
    };
    same_fee = refl;
    same_bps = refl;
  }

  -- With a fair broker, opening cash that is not negative and positive prices, whatever the strategy
  -- signals and however it is configured, the broker of a whole run ends solvent: no cash, position or
  -- entry price is negative, and a flat position has entry price 0.
  pub run_backtest-IsSolvent :
      (cfg : EngineConfig) (o : Opening A E) (candles : List (Candle A D))
      → IsFair (new_broker o.initial_cash o.fee_rate o.slippage_bps)
      → NonNeg (get o.broker_seed.cash o.initial_cash)
      → All PosPrice candles
      → IsSolvent (run_backtest strat cfg o candles).0.broker.state
  unfolding run_backtest
  run_backtest-IsSolvent cfg o candles fair cash priced =
      (run_bars-IsSound cfg candles 0 candles _ _ _ priced
        (start_core-IsSound o candles fair cash)).solvent
